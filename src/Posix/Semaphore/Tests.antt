-- ===== src/Posix/Semaphore/Tests.antt =====
-- Waits on a semaphore with the deadline on another clock, and the theorems on them.
use libosal.Prelude.{ℕ, zero, suc, ◌<◌, ◌≤◌, ◌≡◌, ◌≢◌, ◌↔◌, refl, none, some, arith, inr, false}
use libosal.Osal.{Retval, Errno}
use libosal.Timer.{Timer, nanos, IsNormal, timer_to_nsec}
use libosal.Posix.Clock.{Clock, timer_gettime_nsec}
use libosal.Posix.Clock.Laws.{Works}
use libosal.Posix.Retry.{Answer}
use libosal.Posix.Semaphore.{
  clock_realtime, realtime_deadline, semaphore_init, semaphore_post, semaphore_wait,
  semaphore_trywait, semaphore_destroy, semaphore_timedwait,
}
use libosal.Posix.Semaphore.Laws.{
  realtime_deadline_lem, timedwait_over, timedwait_lem, semaphore_init_lem,
}

-- The clock of the library is 10 s after its start when CLOCK_REALTIME reads 1000.75 s.
abbrev clock : Clock
clock id = record { failed = false; tv_sec = 10; tv_nsec = 0 }

abbrev later : Clock
later id = record { failed = false; tv_sec = 1000; tv_nsec = 750_000_000 }

abbrev deadline : Timer
deadline = record { sec = 12; nsec = 500_000_000 }

abbrev realtime : Timer
realtime = record { sec = 1003; nsec = 250_000_000 }

converts : realtime_deadline clock later 1 deadline ≡ some realtime
unfolding realtime_deadline timer_to_nsec timer_gettime_nsec
converts = refl

-- A deadline at which a second is left in the nanoseconds.
refused :
    realtime_deadline clock later 1 (record { sec = 12; nsec = 250_000_000 })
    ≡ some (record { sec = 1002; nsec = 1_000_000_000 })
unfolding realtime_deadline timer_to_nsec timer_gettime_nsec
refused = refl

codes :
    (semaphore_post (some Errno.eoverflow) ≡ Retval.operation_failed)
    × (semaphore_wait (some Errno.eintr) ≡ Retval.interrupted)
    × (semaphore_trywait (some Errno.eagain) ≡ Retval.busy)
    × (semaphore_destroy none ≡ Retval.ok)
unfolding semaphore_post semaphore_wait semaphore_trywait semaphore_destroy
codes = (refl, refl, refl, refl)

later-Works : Works (later clock_realtime)
later-Works = record { answered = refl; normal = omega arith }

clock-Works : Works (clock 1)
clock-Works = record { answered = refl; normal = omega arith }

realtime_deadline_lem_example :
    (ts : Timer) × (realtime_deadline clock later 1 deadline ≡ some ts)
    × (nanos ts ≡ 1_003_250_000_000)
    × (IsNormal ts ↔ (◌≢◌ {A = ℕ} 1_250_000_000 1_000_000_000))
realtime_deadline_lem_example =
    realtime_deadline_lem clock later 1 deadline (λ e. omega (arith, e)) clock-Works later-Works
      (omega arith) (omega arith) (omega arith)

-- Interrupted twice, then timed out.
abbrev interrupted : ℕ → Timer → Answer
interrupted zero ts = some Errno.eintr
interrupted (suc zero) ts = some Errno.eintr
interrupted (suc (suc n)) ts = some Errno.etimedout

over : timer_to_nsec (record { sec = 9; nsec = 0 }) < timer_gettime_nsec clock 1
unfolding timer_gettime_nsec timer_to_nsec
over = omega arith

timedwait_over_test :
    semaphore_timedwait clock later 1 interrupted 0 (record { sec = 9; nsec = 0 })
    ≡ some Retval.timeout
timedwait_over_test =
    timedwait_over clock later 1 interrupted 0 (record { sec = 9; nsec = 0 })
      (λ e. omega (arith, e)) over

interrupted_below_2 : (m : ℕ) → suc m ≤ 2 → interrupted m realtime ≡ some Errno.eintr
interrupted_below_2 zero h = refl
interrupted_below_2 (suc zero) h = refl
interrupted_below_2 (suc (suc m)) h = absurd (omega arith)

timedwait_lem_test : semaphore_timedwait clock later 1 interrupted 3 deadline ≡ some Retval.timeout
timedwait_lem_test =
    timedwait_lem clock later 1 interrupted 3 2 deadline realtime converts (omega arith)
      interrupted_below_2 (λ e. cc)

-- A system on which sem_init fails.
abbrev fails : ℕ → ℕ → ℕ
fails pshared value = 4294967295

semaphore_init_lem_test : semaphore_init fails (some 32) 1 ≡ Retval.invalid_param
semaphore_init_lem_test = semaphore_init_lem fails (some 32) 1 (inr refl)
