-- ===== src/Stm32/Clock.antt =====
-- Reading the clock, deadlines and expiry (src/stm32/timer.c). TIM4 counts seconds, TIM2 counts
-- steps of 5 nanoseconds, and the product that makes nanoseconds of them has 32 bits.
pub mod Laws
use libosal.Prelude.{ℕ, ◌*◌, ◌/◌, ◌%◌, if◌then◌else◌}
use libosal.Prelude.Word.{u32, add64, mul64}
use libosal.Osal.{Retval}
use libosal.Timer.{Timer, nsec_per_sec, timer_add, timer_lt}

-- The counters of the two timers at one moment.
pub record Counters : Type 0 where
  pub tim4_cnt : ℕ
  pub tim2_cnt : ℕ

-- osal_timer_gettime
unfoldable pub timer_gettime : Counters → Retval × Timer
timer_gettime now = (Retval.ok, record { sec = now.tim4_cnt; nsec = u32 (now.tim2_cnt * 5) })

-- osal_timer_gettime_nsec
pub timer_gettime_nsec : Counters → ℕ
unfolding timer_gettime
timer_gettime_nsec now =
    let (local_ret, tmr) = timer_gettime now in
    elim local_ret [ Retval.ok ↦ add64 (mul64 tmr.sec nsec_per_sec) tmr.nsec | _ ↦ 0 ]

-- osal_timer_init
unfoldable pub timer_init : Counters → ℕ → Timer
unfolding timer_gettime
timer_init now timeout =
    timer_add (timer_gettime now).1
      (record { sec = timeout / nsec_per_sec; nsec = timeout % nsec_per_sec })

-- osal_timer_expired
unfoldable pub timer_expired : Counters → Timer → Retval
unfolding timer_gettime
timer_expired now timer =
    let (ret, act) = timer_gettime now in
    elim ret [
      | Retval.ok ↦ if timer_lt act timer then Retval.ok else Retval.timeout
      | other ↦ other
    ]
