-- ===== src/Trace/Analyze/Tests.antt =====
-- The statistics of a trace of three samples, and the theorems on them.
use libosal.Prelude.{
  ℕ, zero, suc, ◌+◌, ◌-◌, ◌*◌, ◌≡◌, ◌≤◌, ◌<◌, refl, none, some, [], ◌∷◌, arith, leb, if◌then◌else◌,
}
use native.Mathlib.Decide.{dec_lt}
use native.Mathlib.Nat.{le_refl}
use libosal.Trace.{Trace, fresh}
use libosal.Trace.Record.{record_all}
use libosal.Trace.Analyze.{
  Stats, trace_analyze_min_max, trace_analyze, trace_analyze_rel_min_max, trace_analyze_rel,
  diff_loop, rel_loop, dev_loop, abs_dev, square,
}
use libosal.Trace.Analyze.Differences.{diff, time_at}
use libosal.Trace.Analyze.Laws.{Reports, Moderate, analyze_rel_Reports}
use libosal.Trace.Analyze.Meaning.{Ordered, square_mono, IsSqrt, analyze_bounds, analyze-block_lem}
use libosal.Trace.Tests.{running, running-IsValid, fresh-IsValid}

-- The whole part of the root.
abbrev root : ℕ → ℕ
root zero = 0
root (suc n) = let r = root n in if leb ((r + 1) * (r + 1)) (suc n) then r + 1 else r

root_bounds : (n : ℕ) → (root n * root n ≤ n) × (n < (root n + 1) * (root n + 1))
root_bounds zero = omega arith
root_bounds (suc n) = ground (arith, root_bounds n)

root-le_suc : (n : ℕ) → root n ≤ root (suc n)
root-le_suc n = ground arith

root_mono : (a b : ℕ) → a ≤ b → root a ≤ root b
root_mono a zero h = let e : a ≡ 0 = omega arith in rw e (omega arith)
root_mono a (suc b) h = elim (dec_lt a (suc b)) [
  | yes p ↦ omega (arith, root_mono a b (omega arith), root-le_suc b)
  | no p ↦ let e : a ≡ suc b = omega arith in rw e (le_refl (root (suc b)))
]

root_exact : (r a : ℕ) → r * r ≤ a * a → a * a < (r + 1) * (r + 1) → r ≡ a
root_exact r a h k = elim (dec_lt a r) [
  | yes p ↦ absurd (omega (arith, square_mono (a + 1) r (omega arith)))
  | no p ↦ elim (dec_lt r a) [
    | yes q ↦ absurd (omega (arith, square_mono (r + 1) a (omega arith)))
    | no q ↦ omega arith
  ]
]

root-IsSqrt : IsSqrt root
root-IsSqrt = record {
  mono = root_mono;
  exact = λ a h. root_exact (root (a * a)) a (root_bounds (a * a)).0 (root_bounds (a * a)).1;
}

analyses :
    trace_analyze_min_max root running (some 0) (some 0)
    ≡ some (
      record running { tmp = 4 ∷ 6 ∷ 0 ∷ [] },
      record { avg = 5; avg_jit = 0; max_jit = 1; min_val = some 4; max_val = some 6 },
    )
unfolding trace_analyze_min_max diff_loop dev_loop abs_dev square
analyses = refl

analyses_rel :
    trace_analyze_rel_min_max root running none (some 0)
    ≡ some (record { avg = 14; avg_jit = 4; max_jit = 6; min_val = none; max_val = some 20 })
unfolding trace_analyze_rel_min_max rel_loop dev_loop abs_dev square
analyses_rel = refl

-- One sample has no differences: the average divides by zero.
one_sample : trace_analyze root (record running { cnt = 1 }) ≡ none
unfolding trace_analyze trace_analyze_min_max diff_loop
one_sample = refl

-- A deviation of four seconds has no square among the signed words.
far_off :
    trace_analyze_rel root (record running { cnt = 2; time_in_ns_0 = 0 ∷ 8_000_000_000 ∷ [] })
    ≡ none
unfolding trace_analyze_rel trace_analyze_rel_min_max rel_loop dev_loop abs_dev square
far_off = refl

diff-Moderate : Moderate (diff (10 ∷ 14 ∷ 20 ∷ [])) 2 6
diff-Moderate = record { bounded = bounded; root = omega arith; total = omega arith }
  where
    bounded : (k : ℕ) → k < 2 → diff (10 ∷ 14 ∷ 20 ∷ []) k ≤ 6
    bounded zero h = omega arith
    bounded (suc zero) h = omega arith
    bounded (suc (suc k)) h = absurd (omega arith)

time-Moderate : Moderate (time_at (10 ∷ 14 ∷ 20 ∷ [])) 3 20
time-Moderate = record { bounded = bounded; root = omega arith; total = omega arith }
  where
    bounded : (k : ℕ) → k < 3 → time_at (10 ∷ 14 ∷ 20 ∷ []) k ≤ 20
    bounded zero h = omega arith
    bounded (suc zero) h = omega arith
    bounded (suc (suc zero)) h = omega arith
    bounded (suc (suc (suc k))) h = absurd (omega arith)

ordered : Ordered (10 ∷ 14 ∷ 20 ∷ []) 2
ordered = record { rises = rises; word = word }
  where
    rises : (k : ℕ) → k < 2 → time_at (10 ∷ 14 ∷ 20 ∷ []) k ≤ time_at (10 ∷ 14 ∷ 20 ∷ []) (k + 1)
    rises zero h = omega arith
    rises (suc zero) h = omega arith
    rises (suc (suc k)) h = absurd (omega arith)

    word : (k : ℕ) → k ≤ 2 → time_at (10 ∷ 14 ∷ 20 ∷ []) k < 18446744073709551616
    word zero h = omega arith
    word (suc zero) h = omega arith
    word (suc (suc zero)) h = omega arith
    word (suc (suc (suc k))) h = absurd (omega arith)

analyze_rel_Reports_test :
    (r : Stats) × (trace_analyze_rel_min_max root running none none ≡ some r)
    × Reports root (time_at (10 ∷ 14 ∷ 20 ∷ [])) 3 3 none none r
analyze_rel_Reports_test = analyze_rel_Reports root running-IsValid none none 20 time-Moderate

analyze-block_lem_example :
    (t₁ t₂ : Trace) × (r : Stats) × (record_all (fresh 3) (10 ∷ 14 ∷ 20 ∷ []) ≡ some t₁)
    × (trace_analyze_min_max root t₁ none none ≡ some (t₂, r))
    × (r.avg ≡ 5)
analyze-block_lem_example =
    analyze-block_lem root (10 ∷ 14 ∷ 20 ∷ []) 6 none none fresh-IsValid refl (omega arith) refl
      ordered diff-Moderate

analyze_bounds_example :
    (low high : ℕ) × (some 4 ≡ some low)
    × (some 6 ≡ some high)
    × (low ≤ 5)
    × (5 ≤ high)
    × (1 ≤ high - low)
    × (0 ≤ 1)
analyze_bounds_example =
    analyze_bounds 0 0 6 root-IsSqrt running-IsValid (omega arith) diff-Moderate (omega arith)
      analyses
