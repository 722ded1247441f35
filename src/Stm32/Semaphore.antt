-- ===== src/Stm32/Semaphore.antt =====
-- Counting semaphores of the STM32 port (src/stm32/semaphore.c): an `int` that is loaded and
-- changed by atomic builtins. A test of the count and the decrement after it are two of them, and
-- the tasks, interrupts among them, interleave between any two. The count is the word of 32 bits,
-- of which 2^31 and above are the negative numbers.
pub mod Invariant
pub mod Race
use libosal.Prelude.{ℕ, ◌+◌, ◌<◌, ◌^◌, ◌≡◌, ◌≢◌, Bool, true, ◌==◌, if◌then◌else◌}
use libosal.Prelude.Word.{u32}
use libosal.Osal.{Retval}

-- Where a task stands in a call.
pub data Pc : Type 0 where
  idle : Pc  -- outside
  wait_load try_load timed_load : Pc  -- before the load of the count, in each of the waits
  timed_test : Pc  -- osal_semaphore_timedwait, before osal_timer_expired
  fetch_sub : Pc  -- before the decrement
  leaving : Retval → Pc  -- before the return, with the code

-- `cnt`, the tasks, and two counts that the code does not keep: of the posts, and of the waits that
-- passed and decremented.
pub record System : Type 0 where
  pub cnt : ℕ
  pub pc : ℕ → Pc
  pub posted : ℕ
  pub taken : ℕ

-- osal_semaphore_init
abbrev pub init : ℕ → System
init initval = record { cnt = u32 initval; pc = λ _. Pc.idle; posted = 0; taken = 0 }

abbrev goto : (ℕ → Pc) → ℕ → Pc → ℕ → Pc
goto pc i p j = if i == j then p else pc j

-- One step of one task, where the tasks that call a wait are those that `consumes` names.
pub data Step (consumes : ℕ → Bool) (s : System) : System → Type 0 where
  -- osal_semaphore_post, which is one builtin.
  post :
      (i : ℕ)
      → s.pc i ≡ Pc.idle
      → Step consumes s (record s {
        cnt = u32 (s.cnt + 1);
        pc = goto s.pc i (Pc.leaving Retval.ok);
        posted = s.posted + 1;
      })
  call_wait :
      (i : ℕ)
      → s.pc i ≡ Pc.idle
      → consumes i ≡ true
      → Step consumes s (record s { pc = goto s.pc i Pc.wait_load })
  call_trywait :
      (i : ℕ)
      → s.pc i ≡ Pc.idle
      → consumes i ≡ true
      → Step consumes s (record s { pc = goto s.pc i Pc.try_load })
  call_timedwait :
      (i : ℕ)
      → s.pc i ≡ Pc.idle
      → consumes i ≡ true
      → Step consumes s (record s { pc = goto s.pc i Pc.timed_load })
  -- `while (load(cnt) == 0) { ; }`
  wait_again : (i : ℕ) → s.pc i ≡ Pc.wait_load → s.cnt ≡ 0 → Step consumes s s
  wait_passes :
      (i : ℕ)
      → s.pc i ≡ Pc.wait_load
      → s.cnt ≢ 0
      → Step consumes s (record s { pc = goto s.pc i Pc.fetch_sub })
  -- `if (load(cnt) > 0)`
  try_passes :
      (i : ℕ)
      → s.pc i ≡ Pc.try_load
      → (0 < s.cnt) × (s.cnt < 2 ^ 31)
      → Step consumes s (record s { pc = goto s.pc i Pc.fetch_sub })
  try_fails :
      (i : ℕ)
      → s.pc i ≡ Pc.try_load
      → ¬ ((0 < s.cnt) × (s.cnt < 2 ^ 31))
      → Step consumes s (record s { pc = goto s.pc i (Pc.leaving Retval.unavailable) })
  -- `while (load(cnt) == 0) { if (osal_timer_expired(to) == OSAL_ERR_TIMEOUT) ... }`
  timed_empty :
      (i : ℕ)
      → s.pc i ≡ Pc.timed_load
      → s.cnt ≡ 0
      → Step consumes s (record s { pc = goto s.pc i Pc.timed_test })
  timed_again :
      (i : ℕ)
      → s.pc i ≡ Pc.timed_test
      → Step consumes s (record s { pc = goto s.pc i Pc.timed_load })
  timed_expires :
      (i : ℕ)
      → s.pc i ≡ Pc.timed_test
      → Step consumes s (record s { pc = goto s.pc i (Pc.leaving Retval.timeout) })
  timed_passes :
      (i : ℕ)
      → s.pc i ≡ Pc.timed_load
      → s.cnt ≢ 0
      → Step consumes s (record s { pc = goto s.pc i Pc.fetch_sub })
  -- `fetch_sub(cnt, 1)`
  takes :
      (i : ℕ)
      → s.pc i ≡ Pc.fetch_sub
      → Step consumes s (record s {
        cnt = u32 (s.cnt + 4_294_967_295);
        pc = goto s.pc i (Pc.leaving Retval.ok);
        taken = s.taken + 1;
      })
  returns :
      (i : ℕ) (r : Retval)
      → s.pc i ≡ Pc.leaving r
      → Step consumes s (record s { pc = goto s.pc i Pc.idle })

-- What any sequence of steps reaches from `s`.
pub data Reach (consumes : ℕ → Bool) (s : System) : System → Type 0 where
  start : Reach consumes s s
  later : {t u : System} → Reach consumes s t → Step consumes t u → Reach consumes s u

-- osal_semaphore_destroy
pub semaphore_destroy : System → Retval × System
semaphore_destroy s = (Retval.ok, s)
