-- ===== src/Stm32/Tests.antt =====
-- Runs of the port, and its theorems on them.
use libosal.Prelude.{
  ℕ, ◌+◌, ◌≤◌, ◌<◌, ◌^◌, ◌≡◌, refl, Bool, true, false, none, some, List, [], ◌∷◌, ◌==◌,
  if◌then◌else◌, arith,
}
use libosal.Osal.{Retval, is_timeout}
use libosal.Timer.{Timer, timer_lt}
use libosal.Contract.Binary.{Call, posts, successes, answers, serve}
use libosal.Stm32.Clock.{Counters, timer_gettime_nsec, timer_init, timer_expired}
use libosal.Stm32.Clock.Laws.{elapsed, Ticks, stm32_clock_lem}
use libosal.Stm32.Sleep.{sleep_until, sleep}
use libosal.Stm32.Sleep.Laws.{stm32_sleep_until_lem, stm32_sleep_lem}
use libosal.Stm32.BinarySemaphore.{
  binary_semaphore_init, binary_semaphore_trywait, binary_semaphore_wait,
  binary_semaphore_timedwait,
}
use libosal.Stm32.BinarySemaphore.Laws.{stm32_binary, stm32_serve_refines, init_leaves}
use libosal.Stm32.BinarySemaphore.Waiting.{Ends, held, stm32_wait_lem, stm32_timedwait_lem}
use libosal.Stm32.Semaphore
use libosal.Stm32.Semaphore.{Pc, System, Step, Reach}
use libosal.Stm32.Semaphore.Invariant.{OneConsumer, OneConsumer-safe}
use libosal.Stm32.Semaphore.Race.{two_take_one}

abbrev noon : Counters
noon = record { tim4_cnt = 43200; tim2_cnt = 100 }

abbrev later : Timer
later = record { sec = 43200; nsec = 501 }

-- A timer of 401 nanoseconds.
stm32_clock_lem_example :
    (timer_gettime_nsec noon ≡ 43_200_000_000_500)
    × (timer_expired noon (timer_init noon 401) ≡ Retval.ok)
stm32_clock_lem_example =
    stm32_clock_lem noon noon 401 (omega arith) (omega arith) (omega arith) (omega arith)

not_expired : timer_expired noon later ≡ Retval.ok
unfolding timer_expired timer_lt
not_expired = refl

-- A reading every second.
abbrev ticking : ℕ → Counters
ticking n = record { tim4_cnt = n; tim2_cnt = 0 }

ticking-Ticks : (n : ℕ) → Ticks (ticking n)
ticking-Ticks n = omega arith

-- A deadline of 2.5 seconds.
abbrev deadline : Timer
deadline = record { sec = 2; nsec = 500_000_000 }

stm32_sleep_until_lem_test :
    (n : ℕ) × (sleep_until ticking 9 deadline ≡ some (Retval.ok, n))
    × (n ≤ 3)
    × (2_500_000_000 ≤ elapsed (ticking n))
    × ((m : ℕ) → m < n → Ticks (ticking m) → elapsed (ticking m) < 2_500_000_000)
stm32_sleep_until_lem_test =
    stm32_sleep_until_lem ticking 9 3 deadline (ticking-Ticks 3) (omega arith) (omega arith)
      (omega arith)

stm32_sleep_lem_example :
    (n : ℕ) × (sleep ticking 9 2_500_000_000 ≡ some (Retval.ok, n))
    × (n ≤ 2)
    × (2_500_000_000 ≤ elapsed (ticking (n + 1)))
    × ((m : ℕ) → m < n → Ticks (ticking (m + 1)) → elapsed (ticking (m + 1)) < 2_500_000_000)
stm32_sleep_lem_example =
    stm32_sleep_lem ticking 9 2 2_500_000_000 (ticking-Ticks 0) (ticking-Ticks 3) (omega arith)
      (omega arith) (omega arith)

-- A post, two trywaits and a post, on memory with a value in its lowest byte.
abbrev four : List Call
four = Call.post ∷ Call.trywait ∷ Call.trywait ∷ Call.post ∷ []

stm32_serve_refines_example :
    (serve stm32_binary four (binary_semaphore_init 77).1 ≡ answers four false)
    × (successes (serve stm32_binary four (binary_semaphore_init 77).1) ≤ posts four)
stm32_serve_refines_example = stm32_serve_refines four 77 (omega arith)

init_leaves_test : (binary_semaphore_trywait (binary_semaphore_init 65_535).1).0 ≡ Retval.ok
init_leaves_test = init_leaves 65_535 (omega arith)

stm32_wait_lem_example : binary_semaphore_wait 9 0 ≡ (if 0 == 0 then none else some (Retval.ok, 0))
stm32_wait_lem_example = stm32_wait_lem 8 0

-- The timer expires at the fourth round, and an interrupt posts before the third.
abbrev expires_at_3 : ℕ → Retval
expires_at_3 n = if n == 3 then Retval.timeout else Retval.ok

abbrev posts_at_2 : ℕ → ℕ → ℕ
posts_at_2 n value = if n == 2 then 1 else value

stm32_timedwait_lem_example :
    (n : ℕ) × ((m : ℕ)
      → m < n
      → (is_timeout (expires_at_3 m) ≡ false) × (posts_at_2 m (held 0 m) ≡ 0))
    × Ends
        (expires_at_3 n)
        (held 0 n)
        (posts_at_2 n (held 0 n))
        (binary_semaphore_timedwait expires_at_3 posts_at_2 9 0)
stm32_timedwait_lem_example = stm32_timedwait_lem expires_at_3 posts_at_2 9 3 0 (omega arith) refl

takes_the_post : binary_semaphore_timedwait expires_at_3 posts_at_2 9 0 ≡ some (Retval.ok, 0)
unfolding binary_semaphore_timedwait
takes_the_post = refl

-- Task 0 waits, and no other does. Task 1 posts, and task 0 takes it.
abbrev only_0 : ℕ → Bool
only_0 i = i == 0

only_0-OneConsumer : OneConsumer only_0
only_0-OneConsumer i j p q = ground arith

one_taken :
    (s : System) × Reach only_0 (Semaphore.init 0) s × (s.posted ≡ 1) × (s.taken ≡ 1) × (s.cnt ≡ 0)
one_taken = (
  _,
  Reach.later
      (Reach.later
        (Reach.later (Reach.later Reach.start (Step.call_wait 0 refl refl)) (Step.post 1 refl))
        (Step.wait_passes 0 refl (λ e. omega arith)))
      (Step.takes 0 refl),
  refl,
  refl,
  refl,
)

OneConsumer-safe_example :
    (one_taken.0.cnt + one_taken.0.taken ≡ 0 + one_taken.0.posted) × (one_taken.0.cnt < 2 ^ 31)
OneConsumer-safe_example =
    OneConsumer-safe 0 only_0-OneConsumer one_taken.1 (omega (arith, one_taken.2))

abbrev all_wait : ℕ → Bool
all_wait i = true

two_take_one_example :
    (t : System) × Reach all_wait (Semaphore.init 1) t
    × (t.pc 5 ≡ Pc.leaving Retval.ok)
    × (t.pc 6 ≡ Pc.leaving Retval.ok)
    × (t.posted ≡ 0)
    × (t.cnt ≡ 4_294_967_295)
two_take_one_example =
    two_take_one (Semaphore.init 1) 5 6 (λ e. omega arith) refl refl refl refl refl
