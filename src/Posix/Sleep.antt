-- ===== src/Posix/Sleep.antt =====
-- Sleeping and waiting for a point in time (src/posix/timer.c, src/timer.c). A loop on the answers
-- of the kernel takes fuel; `none` is a loop that has not returned.
pub mod Laws
mod Tests
use libosal.Prelude.{
  ℕ, zero, suc, ◌+◌, Bool, true, false, not, Option, none, some, List, [], ◌∷◌, ltb,
}
use libosal.Prelude.Loop.{until}
use libosal.Osal.{Retval, Errno}
use libosal.Timer.{Timer, timer_of_nsec}
use libosal.Posix.Retry.{Answer, retry}
use libosal.Posix.Clock.{Clock, timer_gettime_nsec}
use mathlib.Core.Option

-- `clock_nanosleep` with a relative time, at its n-th call: `none` if it slept, or what is left of
-- the time when it was interrupted.
abbrev pub Nanosleep : Type 0
Nanosleep = ℕ → Timer → Option Timer

-- The `while (1)` of osal_sleep from its n-th call on: the calls made and what each asked for.
pub sleep_loop : Nanosleep → ℕ → ℕ → Timer → Option (List (ℕ × Timer))
sleep_loop nanosleep zero n ts = none
sleep_loop nanosleep (suc fuel) n ts = elim (nanosleep n ts) [
  | none ↦ some ((n, ts) ∷ [])
  | some rest ↦ Option.map (λ calls. (n, ts) ∷ calls) (sleep_loop nanosleep fuel (n + 1) rest)
]

-- osal_sleep
unfoldable pub sleep : Nanosleep → ℕ → ℕ → Option (List (ℕ × Timer))
sleep nanosleep fuel nsec = sleep_loop nanosleep fuel 0 (timer_of_nsec nsec)

-- `clock_nanosleep` with TIMER_ABSTIME, at its n-th call: `none` for 0.
abbrev pub AbsSleep : Type 0
AbsSleep = ℕ → Timer → Answer

-- The return code of osal_sleep_until for the last answer.
abbrev pub sleep_retval : Answer → Retval
sleep_retval none = Retval.ok
sleep_retval (some Errno.einval) = Retval.invalid_param
sleep_retval (some _) = Retval.operation_failed

-- osal_sleep_until
pub sleep_until : AbsSleep → ℕ → Timer → Option Retval
sleep_until abs_sleep fuel timer = retry (λ n. abs_sleep n timer) sleep_retval fuel

-- osal_sleep_until_nsec
pub sleep_until_nsec : AbsSleep → ℕ → ℕ → Option Retval
sleep_until_nsec abs_sleep fuel nsec = sleep_until abs_sleep fuel (timer_of_nsec nsec)

-- osal_busy_wait_until_nsec over the readings of the clock: the return code, and the number of the
-- reading at which the loop ended.
pub busy_wait_until_nsec : (ℕ → Clock) → ℕ → ℕ → ℕ → Option (Retval × ℕ)
busy_wait_until_nsec clocks global_clock_id fuel nsec =
    Option.map (λ n. (Retval.ok, n))
      (until fuel (λ n. not (ltb (timer_gettime_nsec (clocks n) global_clock_id) nsec)) 0)
