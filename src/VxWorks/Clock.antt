-- ===== src/VxWorks/Clock.antt =====
-- The clock, deadlines and sleeping on VxWorks (src/vxworks/timer.c). The functions are those of the
-- POSIX port, but the nanoseconds that they take and return are signed, and those of the clock go
-- through `double`.
pub mod Laws
use libosal.Prelude.{
  ℕ, ◌+◌, ◌-◌, ◌*◌, ◌/◌, ◌%◌, ◌^◌, Bool, true, false, Option, none, some, List, ltb, if◌then◌else◌,
}
use libosal.Prelude.Word.{u64, to_double}
use libosal.Osal.{Retval}
use libosal.Timer.{Timer, nsec_per_sec, timer_add, timer_lt}
use libosal.Posix.Clock.{Clock}
use libosal.Posix.Sleep.{Nanosleep, sleep_loop}

-- A signed number of 64 bits: `pos n` is n, `negsuc n` is -(n + 1).
pub data Int64 : Type 0 where
  pos negsuc : ℕ → Int64

-- `timeout / NSEC_PER_SEC` and `timeout % NSEC_PER_SEC`, which go towards 0, in a field of a timer.
abbrev int64_word : Int64 → (ℕ → ℕ) → ℕ
int64_word (Int64.pos n) part = u64 (part n)
int64_word (Int64.negsuc n) part = u64 (2 ^ 64 - part (n + 1))

abbrev pub split : Int64 → Timer
split nsec = record {
  sec = int64_word nsec (λ n. n / nsec_per_sec);
  nsec = int64_word nsec (λ n. n % nsec_per_sec);
}

-- osal_timer_set_clock_source and osal_timer_get_clock_source, on `global_clock_id`
abbrev timer_set_clock_source : ℕ → ℕ → ℕ
timer_set_clock_source global_clock_id clock_id = clock_id

abbrev timer_get_clock_source : ℕ → ℕ
timer_get_clock_source global_clock_id = global_clock_id

-- osal_timer_gettime
abbrev pub timer_gettime : Clock → ℕ → Timer → Retval × Timer
timer_gettime clock global_clock_id timer =
    let ts = clock global_clock_id in
    if ts.failed
    then (Retval.unavailable, timer)
    else (Retval.ok, record { sec = ts.tv_sec; nsec = ts.tv_nsec })

abbrev zero_timer : Timer
zero_timer = record { sec = 0; nsec = 0 }

-- osal_timer_gettime_nsec: a `double` of 2^63 or more has no value of 64 signed bits.
pub timer_gettime_nsec : Clock → ℕ → Option Int64
timer_gettime_nsec clock global_clock_id =
    let (local_ret, tmr) = timer_gettime clock global_clock_id zero_timer in
    let sum = to_double (to_double (to_double tmr.sec * nsec_per_sec) + to_double tmr.nsec) in
    elim local_ret [
      | Retval.ok ↦ if ltb sum (2 ^ 63) then some (Int64.pos sum) else none
      | _ ↦ some (Int64.pos 0)
    ]

-- osal_timer_init
pub timer_init : Clock → ℕ → Int64 → Timer
timer_init clock global_clock_id timeout =
    let ts = clock global_clock_id in
    timer_add (record { sec = ts.tv_sec; nsec = ts.tv_nsec }) (split timeout)

-- osal_timer_expired
pub timer_expired : Clock → ℕ → Timer → Retval
timer_expired clock global_clock_id timer =
    let (ret, act) = timer_gettime clock global_clock_id zero_timer in
    elim ret [
      | Retval.ok ↦ if timer_lt act timer then Retval.ok else Retval.timeout
      | other ↦ other
    ]

-- osal_sleep: the calls of nanosleep, which are made until one is not interrupted.
pub sleep : Nanosleep → ℕ → Int64 → Option (List (ℕ × Timer))
sleep nanosleep fuel nsec = sleep_loop nanosleep fuel 0 (split nsec)
