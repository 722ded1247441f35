-- ===== src/Posix/BinarySemaphore.antt =====
-- The binary semaphore of the POSIX port (src/posix/binary_semaphore.c): a value under a mutex,
-- with a condition variable. Any number of tasks call its functions; a task stands between two
-- steps at a `Pc`, and the steps interleave in any order. The mutex and the condition variable are
-- the system's: a lock waits until there is no owner, a wait gives the mutex up and sleeps in one
-- step, a signal wakes one sleeper if there is one, and a sleeper may wake for no reason.
pub mod Invariant
pub mod Wakeup
pub mod Calls
pub mod Hang
mod Tests
use libosal.Prelude.{ℕ, ◌+◌, ◌≡◌, ◌≢◌, Bool, true, false, Option, none, some, ◌==◌, if◌then◌else◌}
use libosal.Osal.{Retval}
use libosal.Timer.{Timer, IsNormal}

-- How a task waits: osal_binary_semaphore_wait, or osal_binary_semaphore_timedwait with a timeout.
pub data Wait : Type 0 where
  forever : Wait
  deadline : Timer → Wait

-- Where a task stands in a call.
pub data Pc : Type 0 where
  idle : Pc  -- outside
  post_lock post_test : Pc  -- osal_binary_semaphore_post, before the lock and before the `if`
  try_lock try_test : Pc  -- osal_binary_semaphore_trywait, likewise
  wait_lock wait_test : Wait → Pc  -- the two waits, before the lock and before the `while`
  blocked : Wait → Pc  -- asleep on the condition variable, without the mutex
  relock : Wait → (timed_out : Bool) → Pc  -- awake, before it has the mutex again
  take : Wait → Pc  -- before `sem->value = 0`
  unlock : Retval → Pc  -- before the unlock, with the code to return

-- `value` and the mutex of the semaphore, the tasks, and two counts that the code does not keep:
-- of the posts that set the value, and of the waits that took it.
pub record System : Type 0 where
  pub value : ℕ
  pub owner : Option ℕ
  pub pc : ℕ → Pc
  pub posted : ℕ
  pub taken : ℕ

-- osal_binary_semaphore_init
abbrev pub init : System
init = record { value = 0; owner = none; pc = λ _. Pc.idle; posted = 0; taken = 0 }

abbrev goto : (ℕ → Pc) → ℕ → Pc → ℕ → Pc
goto pc i p j = if i == j then p else pc j

-- One step of one task.
pub data Step (s : System) : System → Type 0 where
  call_post : (i : ℕ) → s.pc i ≡ Pc.idle → Step s (record s { pc = goto s.pc i Pc.post_lock })
  call_try : (i : ℕ) → s.pc i ≡ Pc.idle → Step s (record s { pc = goto s.pc i Pc.try_lock })
  call_wait :
      (i : ℕ) (w : Wait)
      → s.pc i ≡ Pc.idle
      → Step s (record s { pc = goto s.pc i (Pc.wait_lock w) })
  lock_post :
      (i : ℕ)
      → s.pc i ≡ Pc.post_lock
      → s.owner ≡ none
      → Step s (record s { owner = some i; pc = goto s.pc i Pc.post_test })
  lock_try :
      (i : ℕ)
      → s.pc i ≡ Pc.try_lock
      → s.owner ≡ none
      → Step s (record s { owner = some i; pc = goto s.pc i Pc.try_test })
  lock_wait :
      (i : ℕ) (w : Wait)
      → s.pc i ≡ Pc.wait_lock w
      → s.owner ≡ none
      → Step s (record s { owner = some i; pc = goto s.pc i (Pc.wait_test w) })
  -- `if (sem->value == 0) { sem->value = 1; pthread_cond_signal(); }`: the signal wakes a sleeper,
  post_wakes :
      (i j : ℕ) (w : Wait)
      → s.pc i ≡ Pc.post_test
      → s.value ≡ 0
      → s.pc j ≡ Pc.blocked w
      → Step s (record s {
        value = 1;
        pc = goto (goto s.pc i (Pc.unlock Retval.ok)) j (Pc.relock w false);
        posted = s.posted + 1;
      })
  -- or finds none;
  post_alone :
      (i : ℕ)
      → s.pc i ≡ Pc.post_test
      → s.value ≡ 0
      → ((j : ℕ) (w : Wait) → s.pc j ≢ Pc.blocked w)
      → Step s
          (record s { value = 1; pc = goto s.pc i (Pc.unlock Retval.ok); posted = s.posted + 1 })
  -- and nothing is done where the value is set already.
  post_again :
      (i : ℕ)
      → s.pc i ≡ Pc.post_test
      → s.value ≢ 0
      → Step s (record s { pc = goto s.pc i (Pc.unlock Retval.ok) })
  try_busy :
      (i : ℕ)
      → s.pc i ≡ Pc.try_test
      → s.value ≡ 0
      → Step s (record s { pc = goto s.pc i (Pc.unlock Retval.busy) })
  try_takes :
      (i : ℕ)
      → s.pc i ≡ Pc.try_test
      → s.value ≢ 0
      → Step s (record s { value = 0; pc = goto s.pc i (Pc.unlock Retval.ok); taken = s.taken + 1 })
  -- `while (!sem->value)`: pthread_cond_wait, or pthread_cond_timedwait with a valid time.
  wait_forever :
      (i : ℕ)
      → s.pc i ≡ Pc.wait_test Wait.forever
      → s.value ≡ 0
      → Step s (record s { owner = none; pc = goto s.pc i (Pc.blocked Wait.forever) })
  wait_deadline :
      (i : ℕ) (to : Timer)
      → s.pc i ≡ Pc.wait_test (Wait.deadline to)
      → s.value ≡ 0
      → IsNormal to
      → Step s (record s { owner = none; pc = goto s.pc i (Pc.blocked (Wait.deadline to)) })
  -- pthread_cond_timedwait refuses a time with a second or more in nanoseconds (EINVAL): it
  -- returns at once, with the mutex, and the loop goes on.
  wait_refused :
      (i : ℕ) (to : Timer)
      → s.pc i ≡ Pc.wait_test (Wait.deadline to)
      → s.value ≡ 0
      → ¬ IsNormal to
      → Step s s
  wait_passes :
      (i : ℕ) (w : Wait)
      → s.pc i ≡ Pc.wait_test w
      → s.value ≢ 0
      → Step s (record s { pc = goto s.pc i (Pc.take w) })
  wakes :
      (i : ℕ) (w : Wait)
      → s.pc i ≡ Pc.blocked w
      → Step s (record s { pc = goto s.pc i (Pc.relock w false) })
  expires :
      (i : ℕ) (to : Timer)
      → s.pc i ≡ Pc.blocked (Wait.deadline to)
      → Step s (record s { pc = goto s.pc i (Pc.relock (Wait.deadline to) true) })
  relocks :
      (i : ℕ) (w : Wait)
      → s.pc i ≡ Pc.relock w false
      → s.owner ≡ none
      → Step s (record s { owner = some i; pc = goto s.pc i (Pc.wait_test w) })
  -- ETIMEDOUT: `ret = OSAL_ERR_TIMEOUT; break;`
  relocks_late :
      (i : ℕ) (w : Wait)
      → s.pc i ≡ Pc.relock w true
      → s.owner ≡ none
      → Step s (record s { owner = some i; pc = goto s.pc i (Pc.unlock Retval.timeout) })
  takes :
      (i : ℕ) (w : Wait)
      → s.pc i ≡ Pc.take w
      → Step s (record s { value = 0; pc = goto s.pc i (Pc.unlock Retval.ok); taken = s.taken + 1 })
  unlocks :
      (i : ℕ) (r : Retval)
      → s.pc i ≡ Pc.unlock r
      → Step s (record s { owner = none; pc = goto s.pc i Pc.idle })

-- What any sequence of steps reaches from `s`.
pub data Reach (s : System) : System → Type 0 where
  start : Reach s s
  later : {t u : System} → Reach s t → Step t u → Reach s u

-- osal_binary_semaphore_timedwait with no timeout: the code for the value that it finds. It takes
-- no lock, and changes nothing.
pub timedwait_null : ℕ → Retval
timedwait_null value = if value == 0 then Retval.timeout else Retval.ok

-- osal_binary_semaphore_post as a whole call, by its effect on the value.
unfoldable pub binary_semaphore_post : ℕ → ℕ
binary_semaphore_post value = if value == 0 then 1 else value
