-- ===== src/Posix/Clock/Tests.antt =====
-- Tests of the clock functions, and the deadline theorem at two readings of a clock.
use libosal.Prelude.{ℕ, ◌≡◌, refl, true, false, arith}
use libosal.Osal.{Retval}
use libosal.Timer.{carry, timer_add, timer_lt}
use libosal.Prelude.Word.{to_double}
use libosal.Posix.Clock.{
  Clock, timer_set_clock_source, timer_get_clock_source, timer_gettime, timer_gettime_nsec,
  timer_init, timer_expired,
}
use libosal.Posix.Clock.Laws.{timer_expired-timer_init}

abbrev clock : ℕ → Clock
clock sec id = record { failed = false; tv_sec = sec; tv_nsec = 600_000_000 }

abbrev broken : Clock
broken id = record { failed = true; tv_sec = 7; tv_nsec = 7 }

source_is_kept : timer_get_clock_source (timer_set_clock_source 0 1) ≡ 1
unfolding timer_get_clock_source timer_set_clock_source
source_is_kept = refl

reads_nanoseconds : timer_gettime_nsec (clock 5) 0 ≡ 5_600_000_000
unfolding timer_gettime_nsec
reads_nanoseconds = refl

broken_reads_zero : timer_gettime_nsec broken 0 ≡ 0
unfolding timer_gettime_nsec
broken_reads_zero = refl

broken_is_unavailable :
    timer_gettime broken 0 (record { sec = 1; nsec = 2 })
    ≡ (Retval.unavailable, record { sec = 1; nsec = 2 })
unfolding timer_gettime
broken_is_unavailable = refl

sets_deadline : timer_init (clock 5) 0 1_500_000_000 ≡ record { sec = 7; nsec = 100_000_000 }
unfolding timer_init timer_add carry to_double
sets_deadline = refl

still_running : timer_expired (clock 6) 0 (record { sec = 7; nsec = 100_000_000 }) ≡ Retval.ok
unfolding timer_expired timer_lt
still_running = refl

timer_expired-timer_init_example :
    timer_expired (clock 7) 0 (timer_init (clock 5) 0 1_500_000_000) ≡ Retval.timeout
timer_expired-timer_init_example =
    timer_expired-timer_init (clock 5) (clock 7) 0 1_500_000_000
      (record { answered = refl; normal = omega arith })
      (record { answered = refl; normal = omega arith }) (omega arith)
