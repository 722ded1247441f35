-- ===== src/VxWorks/Clock/Laws.antt =====
-- What the signed nanoseconds and the `double` of the VxWorks clock do.
use libosal.Prelude.{
  ℕ, ◌+◌, ◌-◌, ◌/◌, ◌%◌, ◌^◌, ◌≤◌, ◌<◌, ◌≡◌, some, leb, if◌then◌else◌, arith, none, List, refl,
}
use native.Mathlib.Decide.{dec_le}
use libosal.Prelude.Word.{u64, add64, to_double, to_double-le, to_double-eq_of_lt}
use libosal.Osal.{Retval}
use libosal.Timer.{Timer, nsec_per_sec, timer_add, timer_lt, carry, nanos, timer_of_nsec}
use libosal.Posix.Clock.{Clock, ClockAnswer}
use libosal.Posix.Clock.Laws.{Works, reading, timer_expired-timer_init}
use libosal.Posix.Clock as Posix
use libosal.Posix.Sleep.{Nanosleep, sleep_loop}
use libosal.Posix.Sleep as PosixSleep
use libosal.Posix.Sleep.Laws.{Sleeps, total, sleep_enough}
use libosal.Pikeos.Clock.{abs_time}
use libosal.Pikeos.Clock.Laws.{abs_time_close}
use libosal.VxWorks.Clock.{Int64, split, timer_gettime_nsec, sleep, timer_init, timer_expired}

-- Taking a number away from a word, as adding its negative.
back : (a m : ℕ) → m ≤ a → a < 2 ^ 64 → add64 a (u64 (2 ^ 64 - m)) ≡ a - m
back a m h top = omega arith

under : (a m : ℕ) → a < m → m < 2 ^ 64 → add64 a (u64 (2 ^ 64 - m)) ≡ 2 ^ 64 - (m - a)
under a m h top = omega arith

-- The carry of normal nanoseconds, and of those that have gone below 0.
carry_none : (r : Timer) → r.nsec < nsec_per_sec → carry r ≡ r
unfolding carry
carry_none r h = ground (arith, to_double-eq_of_lt r.nsec (omega arith))

carry_borrowed :
    (r : Timer)
    → 2 ^ 64 - nsec_per_sec ≤ r.nsec
    → r.nsec < 2 ^ 64
    → ((carry r).sec ≡ add64 r.sec 1) × (nsec_per_sec < (carry r).nsec)
unfolding carry
carry_borrowed r h top =
    ground (arith, to_double-le r.nsec, to_double-le (to_double r.nsec - nsec_per_sec))

-- The time of the call, and the parts of a timeout of -(n + 1) nanoseconds.
pub record Negative (ts : ClockAnswer) (n : ℕ) : Type 0 where
  pub works : Works ts
  pub small : n + 1 < 2 ^ 63
  pub enough : (n + 1) / nsec_per_sec < ts.tv_sec
  pub top : ts.tv_sec + 1 < 2 ^ 64

module _ (start : Clock) (id n : ℕ) (h : Negative (start id) n) where
  abbrev q : ℕ
  q = (n + 1) / nsec_per_sec

  abbrev r : ℕ
  r = (n + 1) % nsec_per_sec

  negative_exact :
      r ≤ (start id).tv_nsec
      → timer_init start id (Int64.negsuc n)
        ≡ record { sec = (start id).tv_sec - q; nsec = (start id).tv_nsec - r }
  unfolding timer_init timer_add
  negative_exact exact =
      rw
        (
          back (start id).tv_sec q (omega (arith, h.enough)) (omega (arith, h.top)),
          back (start id).tv_nsec r exact (omega (arith, h.works.normal)),
        )
        (carry_none _ (omega (arith, h.works.normal)))

  negative_borrow :
      (start id).tv_nsec < r
      → ((timer_init start id (Int64.negsuc n)).sec ≡ (start id).tv_sec - q + 1)
        × (nsec_per_sec < (timer_init start id (Int64.negsuc n)).nsec)
  unfolding timer_init timer_add
  negative_borrow less =
      let lent : Timer = record {
        sec = (start id).tv_sec - q;
        nsec = 2 ^ 64 - (r - (start id).tv_nsec);
      } in
      let (later, far) = carry_borrowed lent (omega arith) (omega arith) in
      rw
        (
          back (start id).tv_sec q (omega (arith, h.enough)) (omega (arith, h.top)),
          under (start id).tv_nsec r less (omega arith),
        )
        (omega (arith, h.top, h.enough), far)

  -- If the clock works at both moments and its seconds at the first are below 2^64 - 1 and more than
  -- the whole seconds of a negative timeout, osal_timer_init sets the deadline that lies so much before
  -- the time of the call where the nanoseconds of the clock are enough for those of the timeout.
  -- Where they are not, nothing is borrowed from the seconds: the timer is reported as expired only
  -- two whole seconds after the one that the seconds alone lead to.
  pub negative_timeout_lem :
      (now : Clock)
      → Works (now id)
      → timer_expired now id (timer_init start id (Int64.negsuc n)) ≡ (
          if leb ((n + 1) % nsec_per_sec) (start id).tv_nsec
          then (if leb (nanos (reading (start id))) (nanos (reading (now id)) + (n + 1))
              then Retval.timeout
              else Retval.ok)
          else (if leb ((start id).tv_sec + 2) ((now id).tv_sec + (n + 1) / nsec_per_sec)
              then Retval.timeout
              else Retval.ok))
  unfolding timer_expired timer_lt
  negative_timeout_lem now w = elim (dec_le r (start id).tv_nsec) [
    | yes e ↦ rw (negative_exact e) (ground (arith, h.works.normal, h.enough))
    | no e ↦ ground (arith, negative_borrow (omega arith))
  ]

-- osal_timer_gettime_nsec of a working clock below 2^63 - 2048 nanoseconds is within 2048
-- nanoseconds of the reading, since it is computed in `double`.
pub vx_gettime_nsec_close :
    (clock : Clock) (id : ℕ)
    → Works (clock id)
    → nanos (reading (clock id)) + 2048 < 2 ^ 63
    → (n : ℕ) × (timer_gettime_nsec clock id ≡ some (Int64.pos n))
      × (n ≤ nanos (reading (clock id)) + 2048)
      × (nanos (reading (clock id)) ≤ n + 2048)
unfolding timer_gettime_nsec abs_time
vx_gettime_nsec_close clock id w small =
    let (n, e, above, below, same) =
      abs_time_close (reading (clock id)) (omega arith) (omega arith) in
    (n, ground arith, above, below)

-- A timeout that is not negative is split as on POSIX, so the deadline is the one of that port.
timer_init-posix :
    (clock : Clock) (id timeout : ℕ)
    → timeout < 2 ^ 63
    → timer_init clock id (Int64.pos timeout) ≡ Posix.timer_init clock id timeout
unfolding timer_init Posix.timer_init
timer_init-posix clock id timeout small = ground arith

timer_expired-posix :
    (clock : Clock) (id : ℕ) (timer : Timer)
    → timer_expired clock id timer ≡ Posix.timer_expired clock id timer
unfolding timer_expired Posix.timer_expired Posix.timer_gettime
timer_expired-posix clock id timer = refl

-- A timer set by osal_timer_init with a timeout that is not negative is reported as expired exactly
-- from the time of the call plus the timeout on, if the clock works at both moments and the seconds
-- of the deadline fit 64 bits.
pub vx_expired-timer_init :
    (start now : Clock) (id timeout : ℕ)
    → Works (start id)
    → Works (now id)
    → timeout < 2 ^ 63
    → (start id).tv_sec + timeout / nsec_per_sec + 1 < 2 ^ 64
    → timer_expired now id (timer_init start id (Int64.pos timeout)) ≡ (
        if leb (nanos (reading (start id)) + timeout) (nanos (reading (now id)))
        then Retval.timeout
        else Retval.ok)
vx_expired-timer_init start now id timeout w v small h =
    rw (timer_init-posix start id timeout small, timer_expired-posix now id)
      (timer_expired-timer_init start now id timeout w v h)

-- If nanosleep sleeps at least what it was asked for and does not hand back as the rest, and the
-- call after `k` others is not interrupted, osal_sleep returns within `k + 1` calls, and has slept
-- at least the time that it was given, which is not negative.
pub vx_sleep_enough :
    (nanosleep : Nanosleep) (slept : ℕ → Timer → ℕ)
    → Sleeps nanosleep slept
    → (fuel nsec k : ℕ) → nsec < 2 ^ 63
    → k < fuel
    → ((t : Timer) → nanosleep k t ≡ none)
    → (calls : List (ℕ × Timer)) × (sleep nanosleep fuel (Int64.pos nsec) ≡ some calls)
      × (nsec ≤ total slept calls)
unfolding sleep PosixSleep.sleep timer_of_nsec
vx_sleep_enough nanosleep slept kernel fuel nsec k small h done =
    let (calls, e, enough) = sleep_enough nanosleep slept kernel fuel nsec k h done in
    let same : split (Int64.pos nsec) ≡ timer_of_nsec nsec = ground arith in
    (calls, rw same e, enough)
