-- ===== src/VxWorks/Tests.antt =====
-- Runs of the port, and its theorems on them.
use libosal.Prelude.{ℕ, ◌+◌, ◌≤◌, ◌≡◌, ◌≢◌, refl, false, none, some, List, [], ◌∷◌, arith}
use libosal.Timer.{Timer, nanos}
use libosal.Posix.Clock.{Clock}
use libosal.Posix.Clock.Laws.{Works}
use libosal.Posix.Sleep.{Nanosleep}
use libosal.Posix.Sleep.Laws.{Sleeps, total}
use libosal.Osal.{Retval}
use libosal.Contract.Counting.{CountingContract}
use libosal.Contract.Samples.{Sample, held_count, sample_contract}
use libosal.VxWorks.{Status, Patience}
use libosal.VxWorks.Semaphore.{semaphore_trywait, is_done, sem_take, trywait_takes_nothing}
use libosal.VxWorks.Condvar.{condvar_wait, condvar_timedwait, timedwait-wait}
use libosal.VxWorks.Task.{task_create, vx_task_create_lem}
use libosal.VxWorks.Clock.{Int64, timer_gettime_nsec, timer_init, timer_expired, sleep}
use libosal.VxWorks.Clock.Laws.{
  Negative, negative_timeout_lem, vx_gettime_nsec_close, vx_expired-timer_init, vx_sleep_enough,
}

abbrev kernel : CountingContract is_done is_done Sample
kernel =
    sample_contract is_done is_done Status.ok Status.obj_unavailable Status.ok
      Status.obj_unavailable refl refl refl refl

abbrev blocking : Patience → Sample → Status × Sample
blocking patience s = (Status.obj_unavailable, s)

abbrev empty : Sample
empty = record { held = 0; largest = 7 }

trywait_takes_nothing_example :
    ((semaphore_trywait (sem_take kernel blocking) empty).0 ≡ Retval.ok)
    × (is_done (sem_take kernel blocking Patience.no_wait empty).0 ≡ false)
    × (held_count (semaphore_trywait (sem_take kernel blocking) empty).1 ≡ 0)
trywait_takes_nothing_example = trywait_takes_nothing kernel blocking empty refl

-- The clock reads 100 seconds.
abbrev hundred : Clock
hundred id = record { failed = false; tv_sec = 100; tv_nsec = 0 }

abbrev hundred_and_one : Clock
hundred_and_one id = record { failed = false; tv_sec = 101; tv_nsec = 999_999_999 }

hundred-Works : Works (hundred 0)
hundred-Works = record { answered = refl; normal = omega arith }

hundred_and_one-Works : Works (hundred_and_one 0)
hundred_and_one-Works = record { answered = refl; normal = omega arith }

one_back : Negative (hundred 0) 0
one_back = record {
  works = hundred-Works;
  small = omega arith;
  enough = omega arith;
  top = omega arith;
}

-- A nanosecond before 100 seconds has not passed at 101.999999999 seconds.
negative_timeout_lem_example :
    timer_expired hundred_and_one 0 (timer_init hundred 0 (Int64.negsuc 0)) ≡ Retval.ok
negative_timeout_lem_example =
    negative_timeout_lem hundred 0 0 one_back hundred_and_one hundred_and_one-Works

vx_gettime_nsec_close_test :
    (n : ℕ) × (timer_gettime_nsec hundred_and_one 0 ≡ some (Int64.pos n))
    × (n ≤ 101_999_999_999 + 2048)
    × (101_999_999_999 ≤ n + 2048)
vx_gettime_nsec_close_test =
    vx_gettime_nsec_close hundred_and_one 0 hundred_and_one-Works (omega arith)

vx_expired-timer_init_test :
    timer_expired hundred_and_one 0 (timer_init hundred 0 (Int64.pos 5)) ≡ Retval.timeout
vx_expired-timer_init_test =
    vx_expired-timer_init hundred hundred_and_one 0 5 hundred-Works hundred_and_one-Works
      (omega arith) (omega arith)

never_asleep : Nanosleep
never_asleep n ts = none

asleep : Sleeps never_asleep (λ n ts. nanos ts)
unfolding never_asleep
asleep = record { whole = λ n ts e. omega arith; part = λ n ts rest e. cc }

vx_sleep_enough_test :
    (calls : List (ℕ × Timer)) × (sleep never_asleep 1 (Int64.pos 7) ≡ some calls)
    × (7 ≤ total (λ n ts. nanos ts) calls)
unfolding never_asleep
vx_sleep_enough_test =
    vx_sleep_enough never_asleep (λ n ts. nanos ts) asleep 1 7 0 (omega arith) (omega arith)
      (λ t. refl)

-- A kernel that answers a wait at once.
timedwait-wait_test :
    (condvar_timedwait (λ patience. Status.ok) (record { sec = 1; nsec = 0 })
      ≡ condvar_wait (λ patience. Status.ok))
    × (condvar_timedwait (λ patience. Status.ok) (record { sec = 1; nsec = 0 }) ≢ Retval.timeout)
timedwait-wait_test =
    timedwait-wait (λ patience. Status.ok) (record { sec = 1; nsec = 0 }) (λ e. ground arith)

vx_task_create_lem_test :
    task_create
      (λ name priority. none)
      (some (record { priority = 5; task_name = 116 ∷ 0 ∷ 0 ∷ [] }))
    ≡ some (Retval.ok, none)
vx_task_create_lem_test =
    vx_task_create_lem (λ name priority. none) 5 (116 ∷ []) (0 ∷ []) ((λ e. omega (arith, e)), tt)
