-- ===== src/Posix/Sleep/Tests.antt =====
-- Tests of the sleeps, and their theorems with kernels that interrupt once or twice.
use libosal.Prelude.{
  ℕ, zero, suc, ◌+◌, ◌≡◌, ◌≤◌, refl, true, false, none, some, List, [], ◌∷◌, arith,
}
use libosal.Prelude.Loop.{until}
use libosal.Osal.{Retval, Errno}
use libosal.Timer.{Timer, nanos, timer_of_nsec}
use libosal.Posix.Clock.{Clock, timer_gettime_nsec}
use libosal.Posix.Retry.{retry}
use libosal.Posix.Sleep.{
  Nanosleep, sleep, sleep_loop, AbsSleep, sleep_until, sleep_until_nsec, busy_wait_until_nsec,
}
use libosal.Posix.Sleep.Laws.{
  Sleeps, total, sleep_enough, sleep_until_lem, busy_wait_lem, busy_wait-never,
}

-- Interrupted once, after nothing.
abbrev once : Nanosleep
once zero ts = some ts
once (suc n) ts = none

abbrev time_slept : ℕ → Timer → ℕ
time_slept zero ts = 0
time_slept (suc n) ts = nanos ts

once-Sleeps : Sleeps once time_slept
once-Sleeps = record { whole = λ n ts e. whole n ts e; part = λ n ts rest e. part n ts rest e }
  where
    whole : (n : ℕ) (ts : Timer) → once n ts ≡ none → nanos ts ≤ time_slept n ts
    whole zero ts e = cc
    whole (suc n) ts e = omega arith

    part :
        (n : ℕ) (ts rest : Timer) → once n ts ≡ some rest → nanos ts ≤ time_slept n ts + nanos rest
    part zero ts rest e = ground arith
    part (suc n) ts rest e = cc

sleeps_again :
    sleep once 5 1_000_000_001
    ≡ some ((0, record { sec = 1; nsec = 1 }) ∷ (1, record { sec = 1; nsec = 1 }) ∷ [])
unfolding sleep sleep_loop timer_of_nsec
sleeps_again = refl

sleep_enough_example :
    (calls : List (ℕ × Timer)) × (sleep once 5 1_000_000_001 ≡ some calls)
    × (1_000_000_001 ≤ total time_slept calls)
sleep_enough_example =
    sleep_enough once time_slept once-Sleeps 5 1_000_000_001 1 (omega arith) (λ t. refl)

-- Two interruptions, then an invalid time.
abbrev refuses : AbsSleep
refuses zero ts = some Errno.eintr
refuses (suc zero) ts = some Errno.eintr
refuses (suc (suc n)) ts = some Errno.einval

abbrev deadline : Timer
deadline = record { sec = 9; nsec = 0 }

sleep_until_nsec_refused : sleep_until_nsec refuses 4 9_000_000_000 ≡ some Retval.invalid_param
unfolding sleep_until_nsec sleep_until timer_of_nsec until retry
sleep_until_nsec_refused = refl

refuses_below_2 : (m : ℕ) → suc m ≤ 2 → refuses m deadline ≡ some Errno.eintr
refuses_below_2 zero h = refl
refuses_below_2 (suc zero) h = refl
refuses_below_2 (suc (suc m)) h = absurd (omega arith)

sleep_until_lem_test : sleep_until refuses 4 deadline ≡ some Retval.invalid_param
sleep_until_lem_test = sleep_until_lem refuses deadline 4 2 (omega arith) refuses_below_2 (λ e. cc)

abbrev ticking : ℕ → Clock
ticking n id = record { failed = false; tv_sec = n; tv_nsec = 0 }

ticking_below_2 : (m : ℕ) → suc m ≤ 2 → suc (timer_gettime_nsec (ticking m) 0) ≤ 2_000_000_000
unfolding timer_gettime_nsec
ticking_below_2 m h = omega arith

ticking_reaches : 2_000_000_000 ≤ timer_gettime_nsec (ticking 2) 0
unfolding timer_gettime_nsec
ticking_reaches = omega arith

busy_wait_lem_test : busy_wait_until_nsec ticking 0 9 2_000_000_000 ≡ some (Retval.ok, 2)
busy_wait_lem_test =
    busy_wait_lem ticking 0 2_000_000_000 9 2 (omega arith) ticking_below_2 ticking_reaches

abbrev stopped : ℕ → Clock
stopped n id = record { failed = true; tv_sec = 0; tv_nsec = 0 }

stopped_below : (m : ℕ) → suc (timer_gettime_nsec (stopped m) 0) ≤ 1
unfolding timer_gettime_nsec
stopped_below m = omega arith

busy_wait-never_test : busy_wait_until_nsec stopped 0 1000 1 ≡ none
busy_wait-never_test = busy_wait-never stopped 0 1 1000 stopped_below
