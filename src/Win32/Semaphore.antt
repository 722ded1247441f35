-- ===== src/Win32/Semaphore.antt =====
-- Semaphores, binary semaphores and mutexes on Windows (src/win32/semaphore.c,
-- src/win32/binary_semaphore.c, src/win32/mutex.c): handles of the system, with the states `S`. A
-- call of the system is an argument; `true` is a result that is not 0, and `none` a null handle.
pub mod Laws
use libosal.Prelude.{ℕ, Bool, true, false, Option, none, some, if◌then◌else◌}
use libosal.Osal.{Retval}
use libosal.Timer.{Timer}
use libosal.Win32.{Waited}

-- The codes of every wait.
abbrev pub wait_retval : Waited → Retval
wait_retval Waited.object = Retval.ok
wait_retval Waited.abandoned = Retval.owner_dead
wait_retval Waited.timeout = Retval.timeout
wait_retval Waited.failed = Retval.operation_failed
wait_retval Waited.other_wait = Retval.operation_failed

-- The time of a wait: 0, INFINITE or a number of milliseconds.
pub data Patience : Type 0 where
  no_wait infinite : Patience
  millis : ℕ → Patience

-- The codes of a call that returns a BOOL.
abbrev pub bool_retval : Bool → Retval
bool_retval local_ret = if local_ret then Retval.ok else Retval.operation_failed

module _ {S : Type 0} where
  -- osal_semaphore_init, over CreateSemaphoreW at the initial and the largest value.
  unfoldable pub semaphore_init : (ℕ → ℕ → Option S) → ℕ → Retval × Option S
  semaphore_init create_semaphore initval =
      let win32_sem = create_semaphore initval 0x7FFFFFF in
      elim win32_sem [ none ↦ (Retval.operation_failed, none) | some s ↦ (Retval.ok, some s) ]

  -- osal_binary_semaphore_init
  unfoldable pub binary_semaphore_init : (ℕ → ℕ → Option S) → Retval × Option S
  binary_semaphore_init create_semaphore =
      let win32_bs = create_semaphore 0 1 in
      elim win32_bs [ none ↦ (Retval.operation_failed, none) | some s ↦ (Retval.ok, some s) ]

  -- osal_semaphore_post and osal_binary_semaphore_post, over ReleaseSemaphore of 1.
  pub semaphore_post : (S → Bool × S) → S → Retval × S
  semaphore_post release_semaphore sem =
      let (local_ret, sem') = release_semaphore sem in (bool_retval local_ret, sem')

  -- osal_semaphore_wait, osal_binary_semaphore_wait and osal_mutex_lock.
  pub semaphore_wait : (Patience → S → Waited × S) → S → Retval × S
  semaphore_wait wait_for_single_object sem =
      let (local_ret, sem') = wait_for_single_object Patience.infinite sem in
      (wait_retval local_ret, sem')

  -- osal_semaphore_trywait, osal_binary_semaphore_trywait and osal_mutex_trylock.
  pub semaphore_trywait : (Patience → S → Waited × S) → S → Retval × S
  semaphore_trywait wait_for_single_object sem =
      let (local_ret, sem') = wait_for_single_object Patience.no_wait sem in
      (wait_retval local_ret, sem')

  -- osal_semaphore_timedwait and osal_binary_semaphore_timedwait. The milliseconds of the timer, which
  -- the code computes in `double`, are a parameter; they are those of the timer itself, not those
  -- that are left until it.
  semaphore_timedwait : (Timer → ℕ) → (Patience → S → Waited × S) → S → Timer → Retval × S
  semaphore_timedwait millis_of wait_for_single_object sem to =
      let (local_ret, sem') = wait_for_single_object (Patience.millis (millis_of to)) sem in
      (wait_retval local_ret, sem')

  -- osal_semaphore_destroy, osal_binary_semaphore_destroy and osal_mutex_destroy, over CloseHandle.
  pub semaphore_destroy : (S → Bool) → S → Retval
  semaphore_destroy close_handle sem = bool_retval (close_handle sem)

  -- osal_mutex_init, over CreateMutexA.
  pub mutex_init : Option S → Retval × Option S
  mutex_init none = (Retval.operation_failed, none)
  mutex_init (some mtx) = (Retval.ok, some mtx)

  -- osal_mutex_unlock, over ReleaseMutex.
  pub mutex_unlock : (S → Bool × S) → S → Retval × S
  mutex_unlock release_mutex mtx =
      let (local_ret, mtx') = release_mutex mtx in (bool_retval local_ret, mtx')
