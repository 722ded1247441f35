-- ===== src/Posix/BinarySemaphore/Tests.antt =====
-- Runs of the binary semaphore, and its theorems on them.
use libosal.Prelude.{
  ℕ, ◌+◌, ◌≡◌, inr, ◌≤◌, refl, true, false, none, some, arith, ◌==◌, if◌then◌else◌,
}
use libosal.Osal.{Retval}
use libosal.Timer.{Timer}
use libosal.Posix.BinarySemaphore.Calls.{Sleepers, Posts, post_call, try_call}
use libosal.Posix.BinarySemaphore.{
  Wait, Pc, System, init, Step, Reach, timedwait_null, binary_semaphore_post,
}
use libosal.Posix.BinarySemaphore.Invariant.{mutual_exclusion, posts_conserved}
use libosal.Posix.BinarySemaphore.Wakeup.{claims, no_lost_wakeup}
use libosal.Posix.BinarySemaphore.Hang.{timedwait_hangs}

-- Tasks 1 and 2 sleep.
asleep :
    (s : System) × Reach init s
    × (s.value ≡ 0)
    × (s.owner ≡ none)
    × (s.pc 0 ≡ Pc.idle)
    × (s.pc 1 ≡ Pc.blocked Wait.forever)
    × (s.pc 2 ≡ Pc.blocked Wait.forever)
asleep = (
  _,
  Reach.later
      (Reach.later
        (Reach.later
          (Reach.later
            (Reach.later (Reach.later Reach.start (Step.call_wait 1 Wait.forever refl))
              (Step.lock_wait 1 Wait.forever refl refl))
            (Step.wait_forever 1 refl refl))
          (Step.call_wait 2 Wait.forever refl))
        (Step.lock_wait 2 Wait.forever refl refl))
      (Step.wait_forever 2 refl refl),
  refl,
  refl,
  refl,
  refl,
  refl,
)

-- Task 0 then posts, and task 1 is woken.
posted :
    (s : System) × Reach init s
    × (s.value ≡ 1)
    × (s.pc 0 ≡ Pc.unlock Retval.ok)
    × (s.pc 1 ≡ Pc.relock Wait.forever false)
    × (s.pc 2 ≡ Pc.blocked Wait.forever)
unfolding asleep
posted = (
  _,
  Reach.later
      (Reach.later (Reach.later asleep.1 (Step.call_post 0 refl)) (Step.lock_post 0 refl refl))
      (Step.post_wakes 0 1 Wait.forever refl refl refl),
  refl,
  refl,
  refl,
  refl,
)

mutual_exclusion_example : ◌≡◌ {A = ℕ} 0 0
unfolding posted
mutual_exclusion_example = mutual_exclusion posted.1 0 0 refl refl

posts_conserved_example : (posted.0.value ≤ 1) × (posted.0.taken + posted.0.value ≡ posted.0.posted)
posts_conserved_example = posts_conserved posted.1

no_lost_wakeup_example : (i : ℕ) × (claims (posted.0.pc i) ≡ true)
no_lost_wakeup_example = no_lost_wakeup posted.1 posted.2 2 Wait.forever posted.5

-- A task waits with a whole second in the nanoseconds.
abbrev invalid : Timer
invalid = record { sec = 4; nsec = 1_000_000_000 }

stuck :
    (s : System) × Reach init s
    × (s.pc 1 ≡ Pc.wait_test (Wait.deadline invalid))
    × (s.value ≡ 0)
    × (s.pc 0 ≡ Pc.idle)
stuck = (
  _,
  Reach.later (Reach.later Reach.start (Step.call_wait 1 (Wait.deadline invalid) refl))
      (Step.lock_wait 1 (Wait.deadline invalid) refl refl),
  refl,
  refl,
  refl,
)

-- Another task calls osal_binary_semaphore_post, and waits for the mutex.
starved : (t : System) × Reach stuck.0 t
starved = (_, Reach.later Reach.start (Step.call_post 0 stuck.4))

timedwait_hangs_example :
    (starved.0.pc 1 ≡ Pc.wait_test (Wait.deadline invalid))
    × (starved.0.owner ≡ some 1)
    × (starved.0.value ≡ 0)
timedwait_hangs_example =
    timedwait_hangs 1 invalid stuck.1 stuck.2 stuck.3 (λ h. absurd (omega arith)) starved.1

-- Without a timeout the value is found, and not taken.
null_finds : (timedwait_null 1 ≡ Retval.ok) × (timedwait_null 0 ≡ Retval.timeout)
unfolding timedwait_null
null_finds = (refl, refl)

posts_once : binary_semaphore_post (binary_semaphore_post 0) ≡ 1
unfolding binary_semaphore_post
posts_once = refl

nobody_sleeps : Sleepers init
nobody_sleeps = inr (λ j w e. cc)

-- Task 3 has called osal_binary_semaphore_post on a semaphore that is set.
abbrev post_called : System
post_called = record init { value = 1; pc = λ i. if i == 3 then Pc.post_lock else Pc.idle }

nobody_sleeps_then : Sleepers post_called
nobody_sleeps_then = inr (λ j w e. ground arith)

post_call_example : Posts post_called 3
post_call_example = post_call post_called 3 refl refl nobody_sleeps_then

try_call_test :
    (t u : System) × Reach init t
    × (t.pc 3 ≡ Pc.unlock Retval.busy)
    × Reach init u
    × (u.value ≡ 0)
    × (u.owner ≡ none)
    × (u.pc 3 ≡ Pc.idle)
try_call_test = try_call init 3 refl refl
