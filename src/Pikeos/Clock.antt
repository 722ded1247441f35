-- ===== src/Pikeos/Clock.antt =====
-- The clock, deadlines and sleeping on PikeOS (src/pikeos/timer.c). The time of the system is one
-- 64-bit count of nanoseconds. An absolute time goes through `double`.
pub mod Laws
use mathlib.Core.Option
use libosal.Prelude.{
  ℕ, ◌+◌, ◌*◌, ◌/◌, ◌%◌, ◌^◌, Bool, true, false, Option, none, some, ltb, if◌then◌else◌,
}
use libosal.Prelude.Word.{to_double}
use libosal.Prelude.Loop.{until}
use libosal.Osal.{Retval}
use libosal.Timer.{Timer, nsec_per_sec, timer_add, timer_lt}
use libosal.Pikeos.{P4Error}

-- osal_sleep: one call of p4_sleep, whose code is dropped, and the time that it sleeps.
abbrev sleep : (ℕ → P4Error × ℕ) → ℕ → ℕ
sleep p4_sleep nsec = (p4_sleep nsec).1

-- osal_timer_gettime, for what p4_get_time returns.
unfoldable pub timer_gettime : ℕ → Retval × Timer
timer_gettime local_time =
    (Retval.ok, record { sec = local_time / nsec_per_sec; nsec = local_time % nsec_per_sec })

-- osal_timer_get_clock_source: -1, as a word of 32 bits. osal_timer_set_clock_source does nothing.
abbrev timer_get_clock_source : ℕ
timer_get_clock_source = 4_294_967_295

-- osal_timer_gettime_nsec
pub timer_gettime_nsec : ℕ → ℕ
timer_gettime_nsec local_time = local_time

-- osal_timer_init
pub timer_init : ℕ → ℕ → Timer
timer_init local_time timeout =
    timer_add (record { sec = local_time / nsec_per_sec; nsec = local_time % nsec_per_sec })
      (record { sec = timeout / nsec_per_sec; nsec = timeout % nsec_per_sec })

-- osal_timer_expired
pub timer_expired : ℕ → Timer → Retval
unfolding timer_gettime
timer_expired local_time timer =
    let (ret, act) = timer_gettime local_time in
    elim ret [
      | Retval.ok ↦ if timer_lt act timer then Retval.ok else Retval.timeout
      | other ↦ other
    ]

-- `to->sec * 1E9 + to->nsec` as a 64-bit number; a `double` of 2^64 or more has no such value.
unfoldable pub abs_time : Timer → Option ℕ
abs_time to =
    let sum = to_double (to_double (to_double to.sec * nsec_per_sec) + to_double to.nsec) in
    if ltb sum (2 ^ 64) then some sum else none

-- The end of the `while (1)` of osal_sleep_until_nsec.
abbrev pub sleep_ends : P4Error → Bool
sleep_ends P4Error.ok = true
sleep_ends P4Error.badtimeout = true
sleep_ends _ = false

abbrev pub sleep_retval : P4Error → Retval
sleep_retval P4Error.badtimeout = Retval.operation_failed
sleep_retval _ = Retval.ok

-- osal_sleep_until_nsec, over p4_sleep at its n-th call and the absolute time.
pub sleep_until_nsec : (ℕ → ℕ → P4Error) → ℕ → ℕ → Option Retval
sleep_until_nsec p4_sleep fuel nsec =
    Option.map (λ n. sleep_retval (p4_sleep n nsec))
      (until fuel (λ n. sleep_ends (p4_sleep n nsec)) 0)

-- osal_sleep_until
pub sleep_until : (ℕ → ℕ → P4Error) → ℕ → Timer → Option Retval
sleep_until p4_sleep fuel timer = elim (abs_time timer) [
  | none ↦ none
  | some nsec ↦ sleep_until_nsec p4_sleep fuel nsec
]
