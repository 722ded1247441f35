-- ===== src/Stm32/Sleep.antt =====
-- Sleeping (src/stm32/timer.c): loops that read the clock until a timer has expired. The readings
-- are a stream, and a loop takes fuel, one unit for a reading.
pub mod Laws
use libosal.Prelude.{ℕ, ◌+◌, Bool, true, false, Option}
use mathlib.Core.Option
use libosal.Prelude.Loop.{until}
use libosal.Osal.{Retval, is_timeout}
use libosal.Timer.{Timer, timer_of_nsec}
use libosal.Stm32.Clock.{Counters, timer_init, timer_expired}

-- osal_sleep_until over the readings: the return code, and the reading at which the loop ended.
pub sleep_until : (ℕ → Counters) → ℕ → Timer → Option (Retval × ℕ)
sleep_until readings fuel timer =
    Option.map (λ n. (Retval.ok, n))
      (until fuel (λ n. is_timeout (timer_expired (readings n) timer)) 0)

-- osal_sleep_until_nsec
pub sleep_until_nsec : (ℕ → Counters) → ℕ → ℕ → Option (Retval × ℕ)
sleep_until_nsec readings fuel nsec = sleep_until readings fuel (timer_of_nsec nsec)

-- osal_sleep: the first reading sets the timer, and the loop takes those that follow.
pub sleep : (ℕ → Counters) → ℕ → ℕ → Option (Retval × ℕ)
sleep readings fuel nsec = sleep_until (λ n. readings (n + 1)) fuel (timer_init (readings 0) nsec)
