-- ===== src/Posix/Clock.antt =====
-- Reading the clock, deadlines and expiry (src/posix/timer.c).
pub mod Laws
mod Tests
use libosal.Prelude.{ℕ, ◌+◌, ◌/◌, ◌%◌, Bool, true, false, if◌then◌else◌}
use libosal.Prelude.Word.{add64, mul64}
use libosal.Osal.{Retval}
use libosal.Timer.{Timer, nsec_per_sec, timer_add, timer_lt, timer_of_nsec}

-- What one call of `clock_gettime` does: whether it returned -1, and what `ts` holds afterwards.
pub record ClockAnswer : Type 0 where
  pub failed : Bool
  pub tv_sec : ℕ
  pub tv_nsec : ℕ

-- `clock_gettime` at one moment, for each clock id.
abbrev pub Clock : Type 0
Clock = ℕ → ClockAnswer

-- osal_timer_set_clock_source: the new `global_clock_id`.
pub timer_set_clock_source : ℕ → ℕ → ℕ
timer_set_clock_source global_clock_id clock_id = clock_id

-- osal_timer_get_clock_source
pub timer_get_clock_source : ℕ → ℕ
timer_get_clock_source global_clock_id = global_clock_id

-- osal_timer_gettime, with the timer that the caller passes and the one that it gets back.
unfoldable pub timer_gettime : Clock → ℕ → Timer → Retval × Timer
timer_gettime clock global_clock_id timer =
    let ts = clock global_clock_id in
    if ts.failed
    then (Retval.unavailable, timer)
    else (Retval.ok, record { sec = ts.tv_sec; nsec = ts.tv_nsec })

abbrev zero_timer : Timer
zero_timer = record { sec = 0; nsec = 0 }

-- osal_timer_gettime_nsec
unfoldable pub timer_gettime_nsec : Clock → ℕ → ℕ
unfolding timer_gettime
timer_gettime_nsec clock global_clock_id =
    let (local_ret, tmr) = timer_gettime clock global_clock_id zero_timer in
    elim local_ret [ Retval.ok ↦ add64 (mul64 tmr.sec nsec_per_sec) tmr.nsec | _ ↦ 0 ]

-- osal_timer_init. If the clock fails, the sum starts from what `ts` happens to hold.
unfoldable pub timer_init : Clock → ℕ → ℕ → Timer
timer_init clock global_clock_id timeout =
    let ts = clock global_clock_id in
    timer_add (record { sec = ts.tv_sec; nsec = ts.tv_nsec })
      (record { sec = timeout / nsec_per_sec; nsec = timeout % nsec_per_sec })

-- osal_timer_expired
unfoldable pub timer_expired : Clock → ℕ → Timer → Retval
unfolding timer_gettime
timer_expired clock global_clock_id timer =
    let (ret, act) = timer_gettime clock global_clock_id zero_timer in
    elim ret [
      | Retval.ok ↦ if timer_lt act timer then Retval.ok else Retval.timeout
      | other ↦ other
    ]
