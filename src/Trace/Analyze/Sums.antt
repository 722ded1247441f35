-- ===== src/Trace/Analyze/Sums.antt =====
-- Sums, least and greatest values of the first `n` values of a sequence, as the analysis of a trace
-- promises them.
use libosal.Prelude.{
  ℕ, zero, suc, ◌+◌, ◌-◌, ◌*◌, ◌≤◌, ◌<◌, ◌≡◌, refl, arith, ltb, if◌then◌else◌, Bool-cases, inl, inr,
}
use native.Mathlib.Decide.{dec_lt}

abbrev pub sum_to : (ℕ → ℕ) → ℕ → ℕ
sum_to f zero = 0
sum_to f (suc n) = sum_to f n + f n

pub record Least (f : ℕ → ℕ) (n m : ℕ) : Type 0 where
  pub below : (k : ℕ) → k < n → m ≤ f k
  pub attained : (k : ℕ) × (k < n) × (f k ≡ m)

pub record Greatest (f : ℕ → ℕ) (n m : ℕ) : Type 0 where
  pub above : (k : ℕ) → k < n → f k ≤ m
  pub attained : (k : ℕ) × (k < n) × (f k ≡ m)

-- |a - b|
abbrev pub dist : ℕ → ℕ → ℕ
dist a b = if ltb a b then b - a else a - b

pub sum_to-ext : (f g : ℕ → ℕ) (n : ℕ) → ((k : ℕ) → k < n → f k ≡ g k) → sum_to f n ≡ sum_to g n
sum_to-ext f g zero h = refl
sum_to-ext f g (suc n) h =
    omega (arith, h n (omega arith), sum_to-ext f g n (λ k p. h k (omega arith)))

module _ (f : ℕ → ℕ) where
  pub sum_to-le : (n bound : ℕ) → ((k : ℕ) → k < n → f k ≤ bound) → sum_to f n ≤ n * bound
  sum_to-le zero bound h = omega arith
  sum_to-le (suc n) bound h =
      grind (arith, h n (omega arith), sum_to-le n bound (λ k p. h k (omega arith)))

  pub le-sum_to : (n bound : ℕ) → ((k : ℕ) → k < n → bound ≤ f k) → n * bound ≤ sum_to f n
  le-sum_to zero bound h = omega arith
  le-sum_to (suc n) bound h =
      grind (arith, h n (omega arith), le-sum_to n bound (λ k p. h k (omega arith)))

  pub Least-one : Least f 1 (f 0)
  Least-one = record { below = λ k p. ground arith; attained = (0, omega arith, refl) }

  pub Least-suc : (n m : ℕ) → Least f n m → Least f (suc n) (if ltb (f n) m then f n else m)
  Least-suc n m l = record {
    below = λ k p. elim (dec_lt k n) [
      | yes q ↦ ground (arith, l.below k q)
      | no q ↦ let last : k ≡ n = omega arith in rw last (ground arith)
    ];
    attained = elim (Bool-cases (ltb (f n) m)) [
      | inl e ↦ (n, omega arith, rw e)
      | inr e ↦ (l.attained.0, omega (arith, l.attained.1), rw e l.attained.2)
    ];
  }

  pub Greatest-one : Greatest f 1 (f 0)
  Greatest-one = record { above = λ k p. ground arith; attained = (0, omega arith, refl) }

  pub Greatest-suc :
      (n m : ℕ) → Greatest f n m → Greatest f (suc n) (if ltb m (f n) then f n else m)
  Greatest-suc n m l = record {
    above = λ k p. elim (dec_lt k n) [
      | yes q ↦ ground (arith, l.above k q)
      | no q ↦ let last : k ≡ n = omega arith in rw last (ground arith)
    ];
    attained = elim (Bool-cases (ltb m (f n))) [
      | inl e ↦ (n, omega arith, rw e)
      | inr e ↦ (l.attained.0, omega (arith, l.attained.1), rw e l.attained.2)
    ];
  }
