-- ===== src/Trace/Analyze/Laws.antt =====
-- What the analysis of a trace reports.
use libosal.Prelude.{
  ℕ, zero, suc, ◌+◌, ◌-◌, ◌*◌, ◌/◌, ◌^◌, ◌≤◌, ◌<◌, ◌≡◌, refl, some, List, arith, length, ap,
}
use libosal.Prelude.Word.{u32}
use libosal.Trace.{Trace, buffer}
use libosal.Trace.Record.{IsValid, inactive}
use libosal.Trace.Analyze.{
  Out, First, Second, Stats, act_buffer, trace_analyze_min_max, trace_analyze_rel_min_max, dev_loop,
  diff_loop,
}
use libosal.Trace.Analyze.Sums.{sum_to, dist, sum_to-le, sum_to-ext}
use libosal.Trace.Analyze.Differences.{
  time_at, diff, IsLeast, IsGreatest, rel_loop-Sofar, diff_loop-Sofar,
}
use libosal.Trace.Analyze.Deviations.{IsMax, IsMax-ext, dev_loop-Deviated}

-- The statistics of the first `n` values of `f`, with the sum of the squares divided by `cnt`.
pub record Reports (sqrt : ℕ → ℕ) (f : ℕ → ℕ) (n cnt : ℕ) (min_0 max_0 : Out) (r : Stats)
    : Type 0 where
  pub mean : r.avg ≡ sum_to f n / n
  pub least : IsLeast f n min_0 r.min_val
  pub greatest : IsGreatest f n max_0 r.max_val
  pub most : IsMax (λ k. dist r.avg (f k)) n r.max_jit
  pub spread : r.avg_jit ≡ sqrt (sum_to (λ k. dist r.avg (f k) * dist r.avg (f k)) n / cnt)

-- Values up to a bound, so few and so small that no word overflows.
pub record Moderate (f : ℕ → ℕ) (n bound : ℕ) : Type 0 where
  pub bounded : (k : ℕ) → k < n → f k ≤ bound
  pub root : bound * bound < 2 ^ 63
  pub total : n * (bound * bound) < 2 ^ 64

dist-le : (a b bound : ℕ) → a ≤ bound → b ≤ bound → dist a b ≤ bound
dist-le a b bound h k = ground arith

mul_mono : (a bound : ℕ) → a ≤ bound → a * a ≤ bound * bound
mul_mono a bound h = grind arith

le-square : (a : ℕ) → a ≤ a * a
le-square zero = omega arith
le-square (suc a) = grind arith

mul-left_mono : (n a b : ℕ) → a ≤ b → n * a ≤ n * b
mul-left_mono n a b h = grind arith

module _ (f : ℕ → ℕ) (n bound : ℕ) (m : Moderate f n bound) where
  sum_small : sum_to f n < 2 ^ 64
  sum_small = omega (
    arith,
    sum_to-le f n bound m.bounded,
    mul-left_mono n bound (bound * bound) (le-square bound),
    m.total,
  )

  mean-le : sum_to f n / n ≤ bound
  mean-le = grind (arith, sum_to-le f n bound m.bounded)

  squares_small : (avg : ℕ) → avg ≤ bound → sum_to (λ k. dist avg (f k) * dist avg (f k)) n < 2 ^ 64
  squares_small avg h =
      let each : (k : ℕ) → k < n → dist avg (f k) * dist avg (f k) ≤ bound * bound =
        λ k p. mul_mono (dist avg (f k)) bound (dist-le avg (f k) bound h (m.bounded k p)) in
      omega
        (arith, sum_to-le (λ k. dist avg (f k) * dist avg (f k)) n (bound * bound) each, m.total)

inactive_buffer : {t : Trace} → IsValid t → buffer t (act_buffer t) ≡ some (inactive t)
inactive_buffer v = ground arith

module _ (sqrt : ℕ → ℕ) {t : Trace} (v : IsValid t) (min_0 max_0 : Out) (bound : ℕ) where
  abbrev start : List ℕ → First
  start tmp = record { tmp = tmp; avg = 0; min_val = min_0; max_val = max_0 }

  -- On a valid trace whose finished block has times up to a bound, such that no square and no sum
  -- overflows, osal_trace_analyze_rel_min_max does not fault, and reports the mean, the least and
  -- the greatest of the times, the greatest deviation from the mean, and the root of the mean
  -- squared deviation.
  pub analyze_rel_Reports :
      Moderate (time_at (inactive t)) t.cnt bound
      → (r : Stats) × (trace_analyze_rel_min_max sqrt t min_0 max_0 ≡ some r)
        × Reports sqrt (time_at (inactive t)) t.cnt t.cnt min_0 max_0 r
  unfolding trace_analyze_rel_min_max
  analyze_rel_Reports m =
      let f : ℕ → ℕ = time_at (inactive t) in
      let size : length (inactive t) ≡ t.cnt = ground arith in
      let (a, e₁, so) =
        rel_loop-Sofar (inactive t) min_0 max_0 t.cnt t.cnt 0 (start t.tmp) (omega arith)
          (omega arith) (record { sum = refl; least = refl; greatest = refl }) in
      let mean : a.avg ≡ sum_to f t.cnt = omega (arith, so.sum, sum_small f t.cnt bound m) in
      let avg : ℕ = a.avg / t.cnt in
      let low : avg ≤ bound = rw mean (mean-le f t.cnt bound m) in
      let (b, e₂, d) =
        dev_loop-Deviated (inactive t) avg bound t.cnt t.cnt 0 (record { max_jit = 0; avg_jit = 0 })
          (omega arith) (omega arith) m.root low m.bounded
          (record { most = refl; squares = refl }) in
      (
        record {
          avg = avg;
          avg_jit = sqrt (b.avg_jit / t.cnt);
          max_jit = b.max_jit;
          min_val = a.min_val;
          max_val = a.max_val;
        },
        ground (arith, inactive_buffer v, e₁, e₂),
        record {
          mean = ap (λ s. s / t.cnt) mean;
          least = so.least;
          greatest = so.greatest;
          most = d.most;
          spread =
              ap (λ s. sqrt (s / t.cnt))
                (omega (arith, d.squares, squares_small f t.cnt bound m avg low));
        },
      )

  rounds-eq : 1 < t.cnt → u32 (t.cnt + 2 ^ 32 - 1) ≡ t.cnt - 1
  rounds-eq two = omega arith

  analyze_lem :
      (a : First) (b : Second)
      → 1 < t.cnt
      → diff_loop (inactive t) (t.cnt - 1) 0 (start t.tmp) ≡ some a
      → dev_loop a.tmp (a.avg / (t.cnt - 1)) (t.cnt - 1) 0 (record { max_jit = 0; avg_jit = 0 })
        ≡ some b
      → trace_analyze_min_max sqrt t min_0 max_0
        ≡ some (
          record t { tmp = a.tmp },
          record {
            avg = a.avg / (t.cnt - 1);
            avg_jit = sqrt (b.avg_jit / t.cnt);
            max_jit = b.max_jit;
            min_val = a.min_val;
            max_val = a.max_val;
          },
        )
  unfolding trace_analyze_min_max
  analyze_lem a b two e₁ e₂ = rw (rounds-eq two) (ground (arith, inactive_buffer v, e₁, e₂))

  pub analyze_Reports :
      1 < t.cnt
      → Moderate (diff (inactive t)) (t.cnt - 1) bound
      → (t' : Trace) × (r : Stats) × (trace_analyze_min_max sqrt t min_0 max_0 ≡ some (t', r))
        × Reports sqrt (diff (inactive t)) (t.cnt - 1) t.cnt min_0 max_0 r
        × (t' ≡ record t { tmp = t'.tmp })
        × ((k : ℕ) → k < t.cnt - 1 → time_at t'.tmp k ≡ diff (inactive t) k)
  analyze_Reports two m =
      let f : ℕ → ℕ = diff (inactive t) in
      let n : ℕ = t.cnt - 1 in
      let size : length (inactive t) ≡ t.cnt = ground arith in
      let (a, e₁, so, filled) =
        diff_loop-Sofar (inactive t) min_0 max_0 n n 0 (start t.tmp) (omega arith) (omega arith)
          (record { sum = refl; least = refl; greatest = refl })
          (record { room = omega (arith, v.size_tmp); filled = λ k p. elim p [ ] }) in
      let mean : a.avg ≡ sum_to f n = omega (arith, so.sum, sum_small f n bound m) in
      let avg : ℕ = a.avg / n in
      let low : avg ≤ bound = rw mean (mean-le f n bound m) in
      let (b, e₂, d) =
        dev_loop-Deviated a.tmp avg bound n n 0 (record { max_jit = 0; avg_jit = 0 }) (omega arith)
          (filled.room) m.root low (λ k p. rw (filled.filled k p) (m.bounded k p))
          (record { most = refl; squares = refl }) in
      let squares : sum_to (λ k. dist avg (time_at a.tmp k) * dist avg (time_at a.tmp k)) n
          ≡ sum_to (λ k. dist avg (f k) * dist avg (f k)) n =
        sum_to-ext _ _ n (λ k p. ap (λ x. dist avg x * dist avg x) (filled.filled k p)) in
      (
        record t { tmp = a.tmp },
        record {
          avg = avg;
          avg_jit = sqrt (b.avg_jit / t.cnt);
          max_jit = b.max_jit;
          min_val = a.min_val;
          max_val = a.max_val;
        },
        analyze_lem a b two e₁ e₂,
        record {
          mean = ap (λ s. s / n) mean;
          least = so.least;
          greatest = so.greatest;
          most =
              IsMax-ext (λ k. dist avg (time_at a.tmp k)) (λ k. dist avg (f k)) n b.max_jit
                (λ k p. ap (dist avg) (filled.filled k p)) d.most;
          spread =
              ap (λ s. sqrt (s / t.cnt))
                (omega (arith, d.squares, squares, squares_small f n bound m avg low));
        },
        refl,
        filled.filled,
      )
