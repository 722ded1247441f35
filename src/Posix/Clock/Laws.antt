-- ===== src/Posix/Clock/Laws.antt =====
-- Readings of the clock, and the deadline that `osal_timer_init` sets.
use libosal.Prelude.{ℕ, ◌+◌, ◌/◌, ◌%◌, ◌^◌, ◌<◌, ◌≡◌, false, leb, if◌then◌else◌, arith}
use libosal.Osal.{Retval}
use libosal.Timer.{Timer, nsec_per_sec, timer_add, nanos, IsNormal}
use libosal.Timer.Laws.{nanos-timer_add, timer_lt-eq}
use libosal.Posix.Clock.{ClockAnswer, Clock, timer_init, timer_expired}

-- What `ts` holds, as a timer.
abbrev pub reading : ClockAnswer → Timer
reading ts = record { sec = ts.tv_sec; nsec = ts.tv_nsec }

-- An answer of a working clock: nanoseconds below a second.
pub record Works (ts : ClockAnswer) : Type 0 where
  pub answered : ts.failed ≡ false
  pub normal : ts.tv_nsec < nsec_per_sec

-- The deadline is the time of the call plus the timeout, in nanoseconds, and is a normal timer.
nanos-timer_init :
    (clock : Clock) (id timeout : ℕ)
    → Works (clock id)
    → (clock id).tv_sec + timeout / nsec_per_sec + 1 < 2 ^ 64
    → IsNormal (timer_init clock id timeout)
      × (nanos (timer_init clock id timeout) ≡ nanos (reading (clock id)) + timeout)
unfolding timer_init
nanos-timer_init clock id timeout w h =
    let split : Timer = record { sec = timeout / nsec_per_sec; nsec = timeout % nsec_per_sec } in
    let sum : IsNormal (timer_add (reading (clock id)) split)
        × (nanos (timer_add (reading (clock id)) split)
            ≡ nanos (reading (clock id)) + nanos split) =
      nanos-timer_add (reading (clock id)) split w.normal (omega arith) h in
    (sum.0, omega arith)

-- A timer set by `osal_timer_init` is reported as expired exactly from the moment at which the clock
-- reads the time of the call plus the timeout, and as not expired before, if the clock works at
-- both moments and the seconds of the deadline fit 64 bits.
pub timer_expired-timer_init :
    (start now : Clock) (id timeout : ℕ)
    → Works (start id)
    → Works (now id)
    → (start id).tv_sec + timeout / nsec_per_sec + 1 < 2 ^ 64
    → timer_expired now id (timer_init start id timeout) ≡ (
        if leb (nanos (reading (start id)) + timeout) (nanos (reading (now id)))
        then Retval.timeout
        else Retval.ok)
unfolding timer_expired
timer_expired-timer_init start now id timeout w v h =
    let deadline = timer_init start id timeout in
    ground (arith, nanos-timer_init start id timeout w h, timer_lt-eq (reading (now id)) deadline)
