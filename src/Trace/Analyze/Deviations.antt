-- ===== src/Trace/Analyze/Deviations.antt =====
-- The second loop: the greatest deviation from the average, and the sum of the squares.
use libosal.Prelude.{
  ℕ, zero, suc, ◌+◌, ◌*◌, ◌^◌, ◌≤◌, ◌<◌, ◌≡◌, refl, sym, ◌∙◌, some, List, arith, ltb, if◌then◌else◌,
  length,
}
use libosal.Prelude.Word.{u64, add64}
use libosal.Prelude.Memory.{◌>>=◌, get_elem?-some}
use libosal.Trace.Analyze.{Second, abs_dev, square, dev_loop}
use libosal.Trace.Analyze.Sums.{sum_to, dist, Greatest, Greatest-one, Greatest-suc}
use libosal.Trace.Analyze.Differences.{time_at}

below-root : (a bound : ℕ) → a ≤ bound → bound * bound < 2 ^ 63 → a < 2 ^ 63
below-root a bound h k = grind arith

-- Below 2^63 the deviation is the distance of the two numbers.
abs_dev-eq-dist : (a b : ℕ) → a < 2 ^ 63 → b < 2 ^ 63 → abs_dev a b ≡ some (dist a b)
unfolding abs_dev
abs_dev-eq-dist a b h k = ground arith

square-some : (d bound : ℕ) → d ≤ bound → bound * bound < 2 ^ 63 → square d ≡ some (d * d)
unfolding square
square-some d bound h k = grind (arith)

-- The greatest of the first `n` values, 0 where there is none.
abbrev pub IsMax : (ℕ → ℕ) → ℕ → ℕ → Type 0
IsMax f zero m = m ≡ 0
IsMax f (suc n) m = Greatest f (suc n) m

IsMax-suc : (f : ℕ → ℕ) (n m : ℕ) → IsMax f n m → IsMax f (suc n) (if ltb m (f n) then f n else m)
IsMax-suc f zero m h =
    let e : (if ltb m (f 0) then f 0 else m) ≡ f 0 = ground arith in rw e (Greatest-one f)
IsMax-suc f (suc n) m h = Greatest-suc f (suc n) m h

pub IsMax-ext : (f g : ℕ → ℕ) (n m : ℕ) → ((k : ℕ) → k < n → f k ≡ g k) → IsMax f n m → IsMax g n m
IsMax-ext f g zero m h x = x
IsMax-ext f g (suc n) m h x = record {
  above = λ k p. omega (arith, h k p, x.above k p);
  attained = (x.attained.0, x.attained.1, sym (h x.attained.0 x.attained.1) ∙ x.attained.2);
}

module _ (values : List ℕ) (avg bound total : ℕ) where
  abbrev dev : ℕ → ℕ
  dev k = dist avg (time_at values k)

  -- The variables of the loop after `n` rounds.
  pub record Deviated (n : ℕ) (b : Second) : Type 0 where
    pub most : IsMax dev n b.max_jit
    pub squares : b.avg_jit ≡ u64 (sum_to (λ k. dev k * dev k) n)

  -- With values and average up to a bound whose square is a signed word, no round faults.
  pub dev_loop-Deviated :
      (rounds i : ℕ) (b : Second)
      → i + rounds ≡ total
      → total ≤ length values
      → bound * bound < 2 ^ 63
      → avg ≤ bound
      → ((k : ℕ) → k < total → time_at values k ≤ bound)
      → Deviated i b
      → (b' : Second) × (dev_loop values avg rounds i b ≡ some b') × Deviated total b'
  unfolding dev_loop
  dev_loop-Deviated zero i b e h small ha hv d =
      let last : i ≡ total = omega arith in (b, refl, rw last at d)
  dev_loop-Deviated (suc rounds) i b e h small ha hv d =
      let value : time_at values i ≤ bound = hv i (omega arith) in
      let b₁ : Second = record {
        max_jit = if ltb b.max_jit (dev i) then dev i else b.max_jit;
        avg_jit = add64 b.avg_jit (dev i * dev i);
      } in
      let next : i + 1 ≡ suc i = omega arith in
      let (b', e', d') = dev_loop-Deviated rounds (i + 1) b₁ (omega arith) h small ha hv (
        rw next (record {
          most = IsMax-suc dev i b.max_jit d.most;
          squares = omega (arith, d.squares);
        })) in
      (
        b',
        rw
            (
              get_elem?-some values i 0 (omega arith),
              abs_dev-eq-dist avg (time_at values i) (below-root avg bound ha small)
                  (below-root (time_at values i) bound value small),
              square-some (dev i) bound (ground arith) small,
              ◌>>=◌,
            )
            e',
        d',
      )
