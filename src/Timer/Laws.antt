-- ===== src/Timer/Laws.antt =====
-- Addition, comparison and conversion of timers, against the nanoseconds that they stand for.
use libosal.Prelude.{ℕ, ◌+◌, ◌-◌, ◌*◌, ◌^◌, ◌<◌, ◌≡◌, ◌↔◌, ltb, arith}
use libosal.Prelude.Word.{add64, to_double-eq_of_lt}
use libosal.Timer.{
  nsec_per_sec, Timer, carry, timer_add, timer_add_nsec, timer_lt, timer_to_nsec, timer_of_nsec,
  nanos, IsNormal, Fits,
}

-- With less than 2^53 nanoseconds the carry is exact.
nanos-carry : (r : Timer) → r.nsec < 2 ^ 53 → r.sec + 1 < 2 ^ 64 → nanos (carry r) ≡ nanos r
unfolding carry
nanos-carry r h s =
    ground (arith, to_double-eq_of_lt r.nsec h, to_double-eq_of_lt (r.nsec - nsec_per_sec))

-- The carry takes off one second, so it leaves a normal timer exactly below two.
carry-IsNormal_iff :
    (r : Timer) → r.nsec < 2 ^ 53 → IsNormal (carry r) ↔ (r.nsec < 2 * nsec_per_sec)
unfolding carry
carry-IsNormal_iff r h = (
  λ p. ground (arith, to_double-eq_of_lt r.nsec h, to_double-eq_of_lt (r.nsec - nsec_per_sec)),
  λ p. ground (arith, to_double-eq_of_lt r.nsec h, to_double-eq_of_lt (r.nsec - nsec_per_sec)),
)

-- The sum of two normal timers is normal and stands for the sum of their nanoseconds, unless the
-- seconds pass 64 bits.
pub nanos-timer_add :
    (a b : Timer)
    → IsNormal a
    → IsNormal b
    → a.sec + b.sec + 1 < 2 ^ 64
    → IsNormal (timer_add a b) × (nanos (timer_add a b) ≡ nanos a + nanos b)
unfolding timer_add
nanos-timer_add a b p q s =
    let r : Timer = record { sec = add64 a.sec b.sec; nsec = add64 a.nsec b.nsec } in
    let exact : nanos (carry r) ≡ nanos r = nanos-carry r (omega arith) (omega arith) in
    ((carry-IsNormal_iff r (omega arith)).1 (omega arith), omega arith)

-- Adding nanoseconds to a normal timer is exact below 2^53 of them. The result is normal exactly
-- when the nanoseconds before the carry stay below two seconds.
pub nanos-timer_add_nsec :
    (a : Timer) (n : ℕ)
    → IsNormal a
    → a.nsec + n < 2 ^ 53
    → a.sec + 1 < 2 ^ 64
    → (nanos (timer_add_nsec a n) ≡ nanos a + n)
      × (IsNormal (timer_add_nsec a n) ↔ (a.nsec + n < 2 * nsec_per_sec))
unfolding timer_add_nsec
nanos-timer_add_nsec a n p h s =
    let r : Timer = record { sec = a.sec; nsec = add64 a.nsec n } in
    let exact : nanos (carry r) ≡ nanos r = nanos-carry r (omega arith) (omega arith) in
    let normal : IsNormal (carry r) ↔ (r.nsec < 2 * nsec_per_sec) =
      carry-IsNormal_iff r (omega arith) in
    (omega arith, (λ q. omega (arith, normal.0 q), λ q. normal.1 (omega arith)))

-- On normal timers osal_timer_cmp with `<` compares the nanoseconds that they stand for.
pub timer_lt-eq : (a b : Timer) → IsNormal a → IsNormal b → timer_lt a b ≡ ltb (nanos a) (nanos b)
unfolding timer_lt
timer_lt-eq a b p q = ground arith

-- A normal timer whose nanoseconds fit 64 bits comes back from its conversion to nanoseconds and
-- the split of osal_sleep_until_nsec.
pub timer_of_nsec-timer_to_nsec :
    (t : Timer) → IsNormal t → Fits t → timer_of_nsec (timer_to_nsec t) ≡ t
unfolding timer_of_nsec timer_to_nsec
timer_of_nsec-timer_to_nsec t p h = ground arith

-- A 64-bit count of nanoseconds comes back from the split and the conversion, and the timer in
-- between is normal.
pub timer_to_nsec-timer_of_nsec :
    (n : ℕ) → n < 2 ^ 64 → (timer_to_nsec (timer_of_nsec n) ≡ n) × IsNormal (timer_of_nsec n)
unfolding timer_of_nsec timer_to_nsec
timer_to_nsec-timer_of_nsec n h = omega arith
