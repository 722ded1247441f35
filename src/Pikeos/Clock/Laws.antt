-- ===== src/Pikeos/Clock/Laws.antt =====
-- Deadlines and sleeping on PikeOS.
use libosal.Prelude.{
  ℕ, ◌+◌, ◌*◌, ◌/◌, ◌%◌, ◌^◌, ◌≤◌, ◌<◌, ◌≡◌, true, some, leb, if◌then◌else◌, arith,
}
use libosal.Prelude.Word.{to_double, to_double-eq_of_lt, to_double-le}
use libosal.Prelude.Loop.{until-first}
use libosal.Osal.{Retval}
use libosal.Timer.{Timer, nsec_per_sec, timer_add, nanos, IsNormal}
use libosal.Timer.Laws.{timer_lt-eq, nanos-timer_add}
use libosal.Pikeos.{P4Error}
use libosal.Pikeos.Clock.{
  timer_gettime, timer_init, timer_expired, abs_time, sleep_ends, sleep_retval, sleep_until_nsec,
  sleep_until,
}

-- The absolute time that a normal timer below 2^63 nanoseconds becomes is within 2048 nanoseconds of
-- the nanoseconds that it stands for, and is that number below 2^53, which is 104 days.
pub abs_time_close :
    (to : Timer)
    → IsNormal to
    → nanos to < 2 ^ 63
    → (nsec : ℕ) × (abs_time to ≡ some nsec)
      × (nsec ≤ nanos to + 2048)
      × (nanos to ≤ nsec + 2048)
      × (nanos to < 2 ^ 53 → nsec ≡ nanos to)
unfolding abs_time
abs_time_close to normal h =
    let sec_exact : to_double to.sec ≡ to.sec = to_double-eq_of_lt to.sec (omega arith) in
    let nsec_exact : to_double to.nsec ≡ to.nsec = to_double-eq_of_lt to.nsec (omega arith) in
    let product = to_double (to.sec * nsec_per_sec) in
    let near = to_double-le (to.sec * nsec_per_sec) in
    let near_sum = to_double-le (product + to.nsec) in
    (
      to_double (product + to.nsec),
      rw (sec_exact, nsec_exact) (ground arith),
      omega arith,
      omega arith,
      λ small. ground (
        arith,
        to_double-eq_of_lt (to.sec * nsec_per_sec),
        to_double-eq_of_lt (product + to.nsec),
      ),
    )

-- A timer set by osal_timer_init is reported as expired exactly from the time of the call plus the
-- timeout on, where the seconds of the deadline fit 64 bits.
pub expired-timer_init :
    (start now timeout : ℕ)
    → start / nsec_per_sec + timeout / nsec_per_sec + 1 < 2 ^ 64
    → timer_expired now (timer_init start timeout)
      ≡ (if leb (start + timeout) now then Retval.timeout else Retval.ok)
unfolding timer_expired timer_init timer_gettime
expired-timer_init start now timeout h =
    let a : Timer = record { sec = start / nsec_per_sec; nsec = start % nsec_per_sec } in
    let b : Timer = record { sec = timeout / nsec_per_sec; nsec = timeout % nsec_per_sec } in
    let n : Timer = record { sec = now / nsec_per_sec; nsec = now % nsec_per_sec } in
    let sum = nanos-timer_add a b (omega arith) (omega arith) h in
    ground (arith, timer_lt-eq n (timer_add a b) (omega arith) sum.0)

-- osal_sleep_until sleeps on where it is cancelled: with more fuel than the calls of p4_sleep that
-- are, it returns at the first call that is not, with OSAL_OK where the time was reached and
-- OSAL_ERR_OPERATION_FAILED where the kernel refused it. All calls are given one time, within 2048
-- nanoseconds of the timer, which is normal and below 2^63 nanoseconds.
pub p4_sleep_until_lem :
    (p4_sleep : ℕ → ℕ → P4Error) (fuel n : ℕ) (timer : Timer)
    → IsNormal timer
    → nanos timer < 2 ^ 63
    → n < fuel
    → ((m time : ℕ) → m < n → p4_sleep m time ≡ P4Error.cancel)
    → ((time : ℕ) → sleep_ends (p4_sleep n time) ≡ true)
    → (time : ℕ) × (sleep_until p4_sleep fuel timer ≡ some (sleep_retval (p4_sleep n time)))
      × (time ≤ nanos timer + 2048)
      × (nanos timer ≤ time + 2048)
unfolding sleep_until sleep_until_nsec
p4_sleep_until_lem p4_sleep fuel n timer normal h more go stop =
    let (time, e, above, below, exact) = abs_time_close timer normal h in
    let first =
      until-first fuel (λ m. sleep_ends (p4_sleep m time)) 0 n more
        (λ m p. ground (arith, go m time p)) (ground (arith, stop time)) in
    (time, ground (arith, e, first), above, below)
