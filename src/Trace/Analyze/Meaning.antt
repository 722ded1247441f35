-- ===== src/Trace/Analyze/Meaning.antt =====
-- What the statistics of a trace mean: bounds between them, and the average of ordered times.
use libosal.Prelude.{
  ℕ, zero, suc, ◌+◌, ◌-◌, ◌*◌, ◌/◌, ◌^◌, ◌≤◌, ◌<◌, ◌≡◌, some, List, arith, ap, ◌∙◌, length,
}
use mathlib.Core.Path.{ap₂, subst₂}
use libosal.Trace.{Trace}
use libosal.Trace.Record.{IsValid, inactive, record_all, block_lem}
use libosal.Trace.Analyze.{Out, Stats, trace_analyze_min_max}
use libosal.Trace.Analyze.Sums.{sum_to, dist, sum_to-le, le-sum_to}
use libosal.Trace.Analyze.Differences.{time_at, diff}
use libosal.Trace.Analyze.Laws.{Reports, Moderate, analyze_Reports}

-- Times that do not fall, each a 64-bit word.
pub record Ordered (times : List ℕ) (n : ℕ) : Type 0 where
  pub rises : (k : ℕ) → k < n → time_at times k ≤ time_at times (k + 1)
  pub word : (k : ℕ) → k ≤ n → time_at times k < 2 ^ 64

-- The differences of ordered times add up to the whole time.
sum-diff :
    (times : List ℕ) (n : ℕ)
    → Ordered times n
    → sum_to (diff times) n + time_at times 0 ≡ time_at times n
sum-diff times zero o = omega arith
sum-diff times (suc n) o =
    let next : n + 1 ≡ suc n = omega arith in
    let fewer : Ordered times n = record {
      rises = λ k p. o.rises k (omega arith);
      word = λ k p. o.word k (omega arith);
    } in
    omega (
      arith,
      sum-diff times n fewer,
      o.rises n (omega arith),
      o.word n (omega arith),
      o.word (suc n) (omega arith),
      ap (time_at times) next,
    )

div-le : (s n b : ℕ) → s ≤ suc n * b → s / suc n ≤ b
div-le s n b h = grind arith

le-div : (s n b : ℕ) → suc n * b ≤ s → b ≤ s / suc n
le-div s n b h = grind arith

div-le_more : (s n cnt b : ℕ) → 0 < n → n ≤ cnt → s ≤ n * b → s / cnt ≤ b
div-le_more s n cnt b pos few h = grind arith

pub square_mono : (a b : ℕ) → a ≤ b → a * a ≤ b * b
square_mono a b h = grind arith

module _ {sqrt : ℕ → ℕ} {f : ℕ → ℕ} {n cnt p q : ℕ} {r : Stats} where
  -- With pointers for both, the least value is at most the average and the greatest at least, and the
  -- greatest jitter is at most their distance.
  Reports-bounds :
      Reports sqrt f (suc n) cnt (some p) (some q) r
      → (low : ℕ) × (high : ℕ) × (r.min_val ≡ some low)
        × (r.max_val ≡ some high)
        × (low ≤ r.avg)
        × (r.avg ≤ high)
        × (r.max_jit ≤ high - low)
  Reports-bounds h =
      let (low, e, l) = h.least in
      let (high, e', g) = h.greatest in
      let above : low ≤ r.avg =
        rw h.mean (le-div (sum_to f (suc n)) n low (le-sum_to f (suc n) low l.below)) in
      let under : r.avg ≤ high =
        rw h.mean (div-le (sum_to f (suc n)) n high (sum_to-le f (suc n) high g.above)) in
      let (k, less, far) = h.most.attained in
      (low, high, e, e', above, under, ground (arith, l.below k less, g.above k less, far))

  -- The average jitter is at most the greatest, if `sqrt` does not fall and is exact on the squares
  -- below 2^53, and the square of the greatest jitter is one of these.
  avg_jit-le-max_jit :
      ((a b : ℕ) → a ≤ b → sqrt a ≤ sqrt b)
      → ((a : ℕ) → a * a < 2 ^ 53 → sqrt (a * a) ≡ a)
      → Reports sqrt f (suc n) cnt (some p) (some q) r
      → suc n ≤ cnt
      → r.max_jit * r.max_jit < 2 ^ 53
      → r.avg_jit ≤ r.max_jit
  avg_jit-le-max_jit mono exact h few small =
      let each : (k : ℕ) → k < suc n → dist r.avg (f k) * dist r.avg (f k) ≤ r.max_jit * r.max_jit =
        λ k less. square_mono (dist r.avg (f k)) r.max_jit (h.most.above k less) in
      let total : sum_to (λ k. dist r.avg (f k) * dist r.avg (f k)) (suc n)
          ≤ suc n * (r.max_jit * r.max_jit) =
        sum_to-le (λ k. dist r.avg (f k) * dist r.avg (f k)) (suc n) (r.max_jit * r.max_jit) each in
      let mean : sum_to (λ k. dist r.avg (f k) * dist r.avg (f k)) (suc n) / cnt
          ≤ r.max_jit * r.max_jit =
        div-le_more _ (suc n) cnt (r.max_jit * r.max_jit) (omega arith) few total in
      omega (arith, h.spread, mono _ _ mean, exact r.max_jit small)

-- What is documented of `sqrt` and the conversions around it: it does not fall, and it is exact on
-- the squares that a double holds exactly.
pub record IsSqrt (sqrt : ℕ → ℕ) : Type 0 where
  pub mono : (a b : ℕ) → a ≤ b → sqrt a ≤ sqrt b
  pub exact : (a : ℕ) → a * a < 2 ^ 53 → sqrt (a * a) ≡ a

-- With pointers for both extremes, on a valid trace of at least two samples whose differences go up
-- to a bound that keeps the words from overflowing: the least difference is at most the average,
-- the greatest at least, the greatest jitter is at most their distance, and the average jitter is at
-- most the greatest, if the square of the bound is below 2^53.
pub analyze_bounds :
    {sqrt : ℕ → ℕ} {t t' : Trace} {r : Stats} (min_0 max_0 bound : ℕ)
    → IsSqrt sqrt
    → IsValid t
    → 1 < t.cnt
    → Moderate (diff (inactive t)) (t.cnt - 1) bound
    → bound * bound < 2 ^ 53
    → trace_analyze_min_max sqrt t (some min_0) (some max_0) ≡ some (t', r)
    → (low high : ℕ) × (r.min_val ≡ some low)
      × (r.max_val ≡ some high)
      × (low ≤ r.avg)
      × (r.avg ≤ high)
      × (r.max_jit ≤ high - low)
      × (r.avg_jit ≤ r.max_jit)
analyze_bounds {sqrt} {t} {t'} {r} min_0 max_0 bound root v two m small e =
    let n : ℕ = t.cnt - 1 - 1 in
    let (t₁, r₁, e₁, h₁, _, _) = analyze_Reports sqrt v (some min_0) (some max_0) bound two m in
    let same : r₁ ≡ r = ground (arith, e, e₁) in
    let count : t.cnt - 1 ≡ suc n = omega arith in
    let h : Reports sqrt (diff (inactive t)) (suc n) t.cnt (some min_0) (some max_0) r =
      subst₂ (λ k s. Reports sqrt (diff (inactive t)) k t.cnt (some min_0) (some max_0) s) count
        same h₁ in
    let (low, high, p, q, above, under, jit) = Reports-bounds h in
    let (k, less, greatest) = h.greatest.2.attained in
    let highest : high ≡ h.greatest.0 = ground (arith, q, h.greatest.1) in
    let far : high ≤ bound = omega (arith, highest, greatest, m.bounded k (omega arith)) in
    (
      low,
      high,
      p,
      q,
      above,
      under,
      jit,
      avg_jit-le-max_jit root.mono root.exact h (omega arith)
          (omega (arith, square_mono r.max_jit bound (omega arith))),
    )

-- On a valid trace of at least two samples that is at the start of a block: a whole block of 64-bit
-- samples that do not fall, with intervals up to a bound whose square is below 2^63 and whose square
-- times the count of the intervals is below 2^64, about three seconds for a single one, is recorded
-- and analysed without a fault, and the average is the last sample minus the first over the count
-- of the intervals, whatever pointers the caller passes.
pub analyze-block_lem :
    (sqrt : ℕ → ℕ) (times : List ℕ) (bound : ℕ) (min_0 max_0 : Out) {t : Trace}
    → IsValid t
    → t.pos ≡ 0
    → 1 < t.cnt
    → length times ≡ t.cnt
    → Ordered times (t.cnt - 1)
    → Moderate (diff times) (t.cnt - 1) bound
    → (t₁ t₂ : Trace) × (r : Stats) × (record_all t times ≡ some t₁)
      × (trace_analyze_min_max sqrt t₁ min_0 max_0 ≡ some (t₂, r))
      × (r.avg ≡ (time_at times (t.cnt - 1) - time_at times 0) / (t.cnt - 1))
analyze-block_lem sqrt times bound min_0 max_0 {t} v start two e o m =
    let (t₁, e₁, v₁, c₁, full, _, _) = block_lem times v start e in
    let (t₂, r, e₂, h, _, _) =
      analyze_Reports sqrt v₁ min_0 max_0 bound (rw c₁ two) (rw (full, c₁) m) in
    let mean : r.avg ≡ sum_to (diff times) (t.cnt - 1) / (t.cnt - 1) =
      h.mean ∙ ap₂ (λ xs c. sum_to (diff xs) (c - 1) / (c - 1)) full c₁ in
    let whole : sum_to (diff times) (t.cnt - 1) ≡ time_at times (t.cnt - 1) - time_at times 0 =
      omega (arith, sum-diff times (t.cnt - 1) o) in
    (t₁, t₂, r, e₁, e₂, mean ∙ ap (λ s. s / (t.cnt - 1)) whole)
