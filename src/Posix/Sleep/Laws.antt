-- ===== src/Posix/Sleep/Laws.antt =====
-- When the sleeps return, with what code, and how long they have slept.
use libosal.Prelude.{
  ℕ, zero, suc, ◌+◌, ◌≤◌, ◌<◌, ◌≡◌, refl, not, Option, none, some, List, [], ◌∷◌, ltb, arith,
  Option-cases, inl, inr, ◌≢◌,
}
use mathlib.Core.Option
use libosal.Prelude.Loop.{until-first, until-never}
use libosal.Osal.{Retval, Errno}
use libosal.Timer.{Timer, nanos, timer_of_nsec}
use libosal.Posix.Retry.{retry_lem}
use libosal.Posix.Clock.{Clock, timer_gettime_nsec}
use libosal.Posix.Sleep.{
  Nanosleep, sleep_loop, sleep, AbsSleep, sleep_retval, sleep_until, busy_wait_until_nsec,
}

-- What the kernel documents of `clock_nanosleep`: the time that it sleeps at a call is at least
-- what was asked for when it returns 0, and with what is left it is when it was interrupted.
pub record Sleeps (nanosleep : Nanosleep) (slept : ℕ → Timer → ℕ) : Type 0 where
  pub whole : (n : ℕ) (ts : Timer) → nanosleep n ts ≡ none → nanos ts ≤ slept n ts
  pub part :
      (n : ℕ) (ts rest : Timer) → nanosleep n ts ≡ some rest → nanos ts ≤ slept n ts + nanos rest

-- The time slept over a sequence of calls.
abbrev pub total : (ℕ → Timer → ℕ) → List (ℕ × Timer) → ℕ
total slept [] = 0
total slept ((n, ts) ∷ calls) = slept n ts + total slept calls

abbrev Slept : (ℕ → Timer → ℕ) → ℕ → Option (List (ℕ × Timer)) → Type 0
Slept slept time none = ⊥
Slept slept time (some calls) = time ≤ total slept calls

Slept-map :
    (slept : ℕ → Timer → ℕ) (n : ℕ) (ts : Timer) (time left : ℕ) (o : Option (List (ℕ × Timer)))
    → time ≤ slept n ts + left
    → Slept slept left o
    → Slept slept time (Option.map (λ calls. (n, ts) ∷ calls) o)
Slept-map slept n ts time left none h s = s
Slept-map slept n ts time left (some calls) h s = omega arith

Slept-some :
    (slept : ℕ → Timer → ℕ) (time : ℕ) (o : Option (List (ℕ × Timer)))
    → Slept slept time o
    → (calls : List (ℕ × Timer)) × (o ≡ some calls) × (time ≤ total slept calls)
Slept-some slept time none s = absurd s
Slept-some slept time (some calls) s = (calls, refl, s)

module _ (nanosleep : Nanosleep) (slept : ℕ → Timer → ℕ) (kernel : Sleeps nanosleep slept) where
  sleep_loop-Slept :
      (fuel n k : ℕ) (ts : Timer)
      → k < fuel
      → ((t : Timer) → nanosleep (n + k) t ≡ none)
      → Slept slept (nanos ts) (sleep_loop nanosleep fuel n ts)
  unfolding sleep_loop
  sleep_loop-Slept zero n k ts h done = elim h [ ]
  sleep_loop-Slept (suc fuel) n zero ts h done =
      let e : nanosleep n ts ≡ none = ground (arith, done ts) in
      rw (e, Slept) (omega (arith, kernel.whole n ts e))
  sleep_loop-Slept (suc fuel) n (suc k) ts h done = elim (Option-cases (nanosleep n ts)) [
    | inl e ↦ rw (e, Slept) (omega (arith, kernel.whole n ts e))
    | inr (rest, e) ↦
        rw (e, Slept)
          (Slept-map slept n ts (nanos ts) (nanos rest) (sleep_loop nanosleep fuel (n + 1) rest)
            (kernel.part n ts rest e)
            (sleep_loop-Slept fuel (n + 1) k rest (omega arith) (λ t. ground (arith, done t))))
  ]

  -- If clock_nanosleep sleeps at least what it was asked for and does not hand back as the rest, and
  -- the call after `k` others is not interrupted, osal_sleep returns within `k + 1` calls, and
  -- has slept at least the time that it was given.
  pub sleep_enough :
      (fuel nsec k : ℕ)
      → k < fuel
      → ((t : Timer) → nanosleep k t ≡ none)
      → (calls : List (ℕ × Timer)) × (sleep nanosleep fuel nsec ≡ some calls)
        × (nsec ≤ total slept calls)
  unfolding sleep timer_of_nsec
  sleep_enough fuel nsec k h done =
      let (calls, e, enough) =
        Slept-some slept (nanos (timer_of_nsec nsec)) (sleep nanosleep fuel nsec)
          (sleep_loop-Slept fuel 0 k (timer_of_nsec nsec) h (λ t. ground (arith, done t))) in
      (calls, e, omega arith)

module _ (abs_sleep : AbsSleep) (timer : Timer) where
  -- osal_sleep_until calls again as long as it is interrupted, and returns the code of the first
  -- answer that is no interruption: success, invalid parameter, or operation failed for the rest.
  pub sleep_until_lem :
      (fuel n : ℕ)
      → n < fuel
      → ((m : ℕ) → m < n → abs_sleep m timer ≡ some Errno.eintr)
      → abs_sleep n timer ≢ some Errno.eintr
      → sleep_until abs_sleep fuel timer ≡ some (sleep_retval (abs_sleep n timer))
  unfolding sleep_until
  sleep_until_lem fuel n h go stop =
      retry_lem (λ m. abs_sleep m timer) sleep_retval fuel n h go stop

module _ (clocks : ℕ → Clock) (id nsec : ℕ) where
  -- osal_busy_wait_until_nsec reads the clock until a reading is not below the given time, and
  -- returns OK at the first such reading.
  pub busy_wait_lem :
      (fuel n : ℕ)
      → n < fuel
      → ((m : ℕ) → m < n → timer_gettime_nsec (clocks m) id < nsec)
      → nsec ≤ timer_gettime_nsec (clocks n) id
      → busy_wait_until_nsec clocks id fuel nsec ≡ some (Retval.ok, n)
  unfolding busy_wait_until_nsec
  busy_wait_lem fuel n h below reached =
      rw
        (until-first fuel (λ m. not (ltb (timer_gettime_nsec (clocks m) id) nsec)) 0 n h
          (λ m p. ground (arith, below m p)) (ground arith))
        (ground arith)

  -- osal_busy_wait_until_nsec never returns, whatever the fuel, where every reading of the clock is
  -- below the given time.
  pub busy_wait-never :
      (fuel : ℕ)
      → ((m : ℕ) → timer_gettime_nsec (clocks m) id < nsec)
      → busy_wait_until_nsec clocks id fuel nsec ≡ none
  unfolding busy_wait_until_nsec
  busy_wait-never fuel below = rw (
      until-never fuel (λ m. not (ltb (timer_gettime_nsec (clocks m) id) nsec)) 0
        (λ m. ground (arith, below m)))
