-- ===== src/Trace/Analyze/Differences.antt =====
-- The first loops: the sum, the least and the greatest of the values, and `tmp`.
use libosal.Prelude.{
  ℕ, zero, suc, ◌+◌, ◌≤◌, ◌<◌, ◌≡◌, refl, none, some, List, arith, length, get_or, set, length-set,
}
use libosal.Prelude.Word.{u64, sub64}
use libosal.Prelude.Memory.{◌>>=◌, store-some, get_elem?-some, get_or-set}
use libosal.Trace.Analyze.{First, Out, account, lower, raise, set_first, diff_loop, rel_loop}
use libosal.Trace.Analyze.Sums.{
  sum_to, Least, Greatest, Least-one, Least-suc, Greatest-one, Greatest-suc,
}

-- The i-th difference, and the i-th time.
abbrev pub diff : List ℕ → ℕ → ℕ
diff times i = sub64 (get_or times (i + 1) 0) (get_or times i 0)

abbrev pub time_at : List ℕ → ℕ → ℕ
time_at times i = get_or times i 0

-- What `*min_val` and `*max_val` are after `n` rounds over `f`, from what they were.
abbrev pub IsLeast : (ℕ → ℕ) → ℕ → Out → Out → Type 0
IsLeast f zero p q = q ≡ p
IsLeast f (suc n) none q = q ≡ none
IsLeast f (suc n) (some _) q = (m : ℕ) × (q ≡ some m) × Least f (suc n) m

abbrev pub IsGreatest : (ℕ → ℕ) → ℕ → Out → Out → Type 0
IsGreatest f zero p q = q ≡ p
IsGreatest f (suc n) none q = q ≡ none
IsGreatest f (suc n) (some _) q = (m : ℕ) × (q ≡ some m) × Greatest f (suc n) m

module _ (f : ℕ → ℕ) where
  IsLeast-suc :
      (n : ℕ) (p q : Out)
      → IsLeast f n p q
      → IsLeast f (suc n) p (lower (f n) (set_first n (f n) q))
  IsLeast-suc zero none q h = rw h
  IsLeast-suc zero (some _) q h = (f 0, ground arith, Least-one f)
  IsLeast-suc (suc n) none q h = ground arith
  IsLeast-suc (suc n) (some _) q (m, e, l) = (_, ground arith, Least-suc f (suc n) m l)

  IsGreatest-suc :
      (n : ℕ) (p q : Out)
      → IsGreatest f n p q
      → IsGreatest f (suc n) p (raise (f n) (set_first n (f n) q))
  IsGreatest-suc zero none q h = rw h
  IsGreatest-suc zero (some _) q h = (f 0, ground arith, Greatest-one f)
  IsGreatest-suc (suc n) none q h = ground arith
  IsGreatest-suc (suc n) (some _) q (m, e, l) = (_, ground arith, Greatest-suc f (suc n) m l)

-- The variables of a first loop after `n` rounds over `f`.
pub record Sofar (f : ℕ → ℕ) (n : ℕ) (min_0 max_0 : Out) (a : First) : Type 0 where
  pub sum : a.avg ≡ u64 (sum_to f n)
  pub least : IsLeast f n min_0 a.min_val
  pub greatest : IsGreatest f n max_0 a.max_val

module _ (f : ℕ → ℕ) (min_0 max_0 : Out) where
  account-Sofar :
      (n : ℕ) (a : First)
      → Sofar f n min_0 max_0 a
      → Sofar f (n + 1) min_0 max_0 (account n (f n) a)
  account-Sofar n a h =
      let next : n + 1 ≡ suc n = omega arith in
      rw next (record {
        sum = omega (arith, h.sum);
        least = IsLeast-suc f n min_0 a.min_val h.least;
        greatest = IsGreatest-suc f n max_0 a.max_val h.greatest;
      })

module _ (times : List ℕ) (min_0 max_0 : Out) (total : ℕ) where
  -- The rounds of osal_trace_analyze_rel_min_max stay in range and account for the times.
  pub rel_loop-Sofar :
      (rounds i : ℕ) (a : First)
      → i + rounds ≡ total
      → total ≤ length times
      → Sofar (time_at times) i min_0 max_0 a
      → (a' : First) × (rel_loop times rounds i a ≡ some a')
        × Sofar (time_at times) total min_0 max_0 a'
  unfolding rel_loop
  rel_loop-Sofar zero i a e h so = let last : i ≡ total = omega arith in (a, refl, rw last at so)
  rel_loop-Sofar (suc rounds) i a e h so =
      let (a', e', so') =
        rel_loop-Sofar rounds (i + 1) (account i (time_at times i) a) (omega arith) h
          (account-Sofar (time_at times) min_0 max_0 i a so) in
      (a', rw (get_elem?-some times i 0 (omega arith), ◌>>=◌) e', so')

  -- `tmp` after `n` rounds.
  pub record Filled (n : ℕ) (tmp : List ℕ) : Type 0 where
    pub room : total ≤ length tmp
    pub filled : (k : ℕ) → k < n → get_or tmp k 0 ≡ diff times k

  set-Filled :
      (n : ℕ) (tmp : List ℕ) → n < total → Filled n tmp → Filled (n + 1) (set tmp n (diff times n))
  set-Filled n tmp h g = record {
    room = omega (arith, length-set tmp n (diff times n), g.room);
    filled = λ k p. ground (arith, g.filled k, get_or-set tmp n k (diff times n) 0, g.room);
  }

  -- The rounds of osal_trace_analyze_min_max stay in range, account for the differences of the times,
  -- and leave them in `tmp`.
  pub diff_loop-Sofar :
      (rounds i : ℕ) (a : First)
      → i + rounds ≡ total
      → total < length times
      → Sofar (diff times) i min_0 max_0 a
      → Filled i a.tmp
      → (a' : First) × (diff_loop times rounds i a ≡ some a')
        × Sofar (diff times) total min_0 max_0 a'
        × Filled total a'.tmp
  unfolding diff_loop
  diff_loop-Sofar zero i a e h so g =
      let last : i ≡ total = omega arith in (a, refl, rw last at so, rw last at g)
  diff_loop-Sofar (suc rounds) i a e h so g =
      let d : ℕ = diff times i in
      let (a', e', so', g') =
        diff_loop-Sofar rounds (i + 1) (account i d (record a { tmp = set a.tmp i d }))
          (omega arith) h
          (account-Sofar (diff times) min_0 max_0 i (record a { tmp = set a.tmp i d })
            (record { sum = so.sum; least = so.least; greatest = so.greatest }))
          (set-Filled i a.tmp (omega arith) g) in
      (
        a',
        rw
            (
              get_elem?-some times (i + 1) 0 (omega arith),
              get_elem?-some times i 0 (omega arith),
              store-some a.tmp i d (omega (arith, g.room)),
              ◌>>=◌,
            )
            e',
        so',
        g',
      )
