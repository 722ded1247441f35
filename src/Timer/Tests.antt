-- ===== src/Timer/Tests.antt =====
-- Tests of the timer macros, and the theorems at concrete timers.
use libosal.Prelude.{◌+◌, ◌-◌, ◌^◌, ◌≡◌, ◌↔◌, refl, ltb, arith, ◌<◌}
use libosal.Prelude.Word.{to_double}
use libosal.Timer.{
  Timer, carry, timer_add, timer_add_nsec, timer_lt, timer_to_nsec, timer_of_nsec, nanos, IsNormal,
}
use libosal.Timer.Laws.{
  nanos-timer_add, nanos-timer_add_nsec, timer_lt-eq, timer_of_nsec-timer_to_nsec,
  timer_to_nsec-timer_of_nsec,
}

-- 2^53 + 1 is no double; the even neighbour is taken.
rounds_to_even : to_double (2 ^ 53 + 1) ≡ 2 ^ 53
unfolding to_double
rounds_to_even = refl

largest_word : to_double (2 ^ 64 - 1) ≡ 2 ^ 64
unfolding to_double
largest_word = refl

abbrev late : Timer
late = record { sec = 3; nsec = 999_999_999 }

abbrev early : Timer
early = record { sec = 2; nsec = 1 }

carries : timer_add late early ≡ record { sec = 6; nsec = 0 }
unfolding timer_add carry to_double
carries = refl

-- An addition of more than a second carries one second only.
stays_large : timer_add_nsec early 2_500_000_000 ≡ record { sec = 3; nsec = 1_500_000_001 }
unfolding timer_add_nsec carry to_double
stays_large = refl

nanos-timer_add_test :
    IsNormal (timer_add late early) × (nanos (timer_add late early) ≡ 6_000_000_000)
nanos-timer_add_test = nanos-timer_add late early (omega arith) (omega arith) (omega arith)

nanos-timer_add_nsec_test :
    (nanos (timer_add_nsec late 5) ≡ 4_000_000_004)
    × (IsNormal (timer_add_nsec late 5) ↔ (1_000_000_004 < 2_000_000_000))
nanos-timer_add_nsec_test = nanos-timer_add_nsec late 5 (omega arith) (omega arith) (omega arith)

timer_lt-eq_test : timer_lt early late ≡ ltb (nanos early) (nanos late)
timer_lt-eq_test = timer_lt-eq early late (omega arith) (omega arith)

timer_of_nsec-timer_to_nsec_test : timer_of_nsec (timer_to_nsec late) ≡ late
timer_of_nsec-timer_to_nsec_test = timer_of_nsec-timer_to_nsec late (omega arith) (omega arith)

timer_to_nsec-timer_of_nsec_test :
    (timer_to_nsec (timer_of_nsec 3_999_999_999) ≡ 3_999_999_999)
    × IsNormal (timer_of_nsec 3_999_999_999)
timer_to_nsec-timer_of_nsec_test = timer_to_nsec-timer_of_nsec 3_999_999_999 (omega arith)
