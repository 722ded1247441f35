-- ===== src/Trace/Analyze.antt =====
-- The statistics of the finished block of a trace (src/trace.c): osal_trace_analyze_min_max over the
-- differences of its times, osal_trace_analyze_rel_min_max over the times themselves, which are
-- then differences already. Sums are 64-bit words; signed overflow, a division by zero and an
-- access out of range are faults.
mod Tests
pub mod Sums
pub mod Meaning
pub mod Laws
pub mod Deviations
pub mod Differences
use mathlib.Core.Option
use libosal.Prelude.{
  ℕ, zero, suc, ◌+◌, ◌-◌, ◌*◌, ◌/◌, ◌%◌, ◌^◌, Bool, true, false, Option, none, some, List, ltb,
  ◌==◌, if◌then◌else◌, get_elem?,
}
use libosal.Prelude.Word.{u32, add64, sub64}
use libosal.Prelude.Memory.{◌>>=◌, store}
use libosal.Trace.{Trace, buffer}

-- `int act_buffer = trace->act_buf == 1 ? 0 : 1;`
abbrev pub act_buffer : Trace → ℕ
act_buffer t = if t.act_buf == 1 then 0 else 1

-- `*min_val` and `*max_val` where the pointer is not NULL: `none` is NULL.
abbrev pub Out : Type 0
Out = Option ℕ

-- `if (i == 0) { if (p) { *p = d; } }`
abbrev pub set_first : ℕ → ℕ → Out → Out
set_first i d p = if i == 0 then Option.map (λ _. d) p else p

-- `if (min_val && (*min_val > d)) { *min_val = d; }`
abbrev pub lower : ℕ → Out → Out
lower d p = Option.map (λ m. if ltb d m then d else m) p

-- `if (max_val && (*max_val < d)) { *max_val = d; }`
abbrev pub raise : ℕ → Out → Out
raise d p = Option.map (λ m. if ltb m d then d else m) p

-- The variables of the first loop.
pub record First : Type 0 where
  pub tmp : List ℕ
  pub avg : ℕ
  pub min_val : Out
  pub max_val : Out

-- What the first loops do with the value `d` of round `i`.
abbrev pub account : ℕ → ℕ → First → First
account i d a = record a {
  avg = add64 a.avg d;
  min_val = lower d (set_first i d a.min_val);
  max_val = raise d (set_first i d a.max_val);
}

-- The first loop of osal_trace_analyze_min_max from round `i` on, with the rounds left.
pub diff_loop : List ℕ → ℕ → ℕ → First → Option First
diff_loop times zero i a = some a
diff_loop times (suc rounds) i a = do
  next ← get_elem? times (i + 1)
  time ← get_elem? times i
  tmp ← store a.tmp i (sub64 next time)
  diff_loop times rounds (i + 1) (account i (sub64 next time) (record a { tmp = tmp }))

-- The first loop of osal_trace_analyze_rel_min_max.
pub rel_loop : List ℕ → ℕ → ℕ → First → Option First
rel_loop times zero i a = some a
rel_loop times (suc rounds) i a = do
  time ← get_elem? times i
  rel_loop times rounds (i + 1) (account i time a)

-- The magnitude of `osal_int64_t dev = (osal_int64_t)(*avg) - value;`, of which the difference is
-- made over unsigned words, after `if (dev < 0) { dev *= -1; }`. The smallest integer has none.
pub abs_dev : ℕ → ℕ → Option ℕ
abs_dev avg value =
    let dev = sub64 avg value in
    if ltb dev (2 ^ 63) then some dev else if dev == 2 ^ 63 then none else some (2 ^ 64 - dev)

-- `dev * dev` over signed words.
pub square : ℕ → Option ℕ
square dev = if ltb (dev * dev) (2 ^ 63) then some (dev * dev) else none

-- The variables of the second loop.
pub record Second : Type 0 where
  pub max_jit : ℕ
  pub avg_jit : ℕ

-- The second loop of both functions, over the values that they account for.
pub dev_loop : List ℕ → ℕ → ℕ → ℕ → Second → Option Second
dev_loop values avg zero i b = some b
dev_loop values avg (suc rounds) i b = do
  value ← get_elem? values i
  dev ← abs_dev avg value
  squared ← square dev
  dev_loop values avg rounds (i + 1) (record {
    max_jit = if ltb b.max_jit dev then dev else b.max_jit;
    avg_jit = add64 b.avg_jit squared;
  })

-- What the analysis hands back.
pub record Stats : Type 0 where
  pub avg : ℕ
  pub avg_jit : ℕ
  pub max_jit : ℕ
  pub min_val : Out
  pub max_val : Out

-- `a / b`
abbrev divide : ℕ → ℕ → Option ℕ
divide a b = if b == 0 then none else some (a / b)

-- The library's `sqrt` on the conversion of a word to a double, and the word of its result.
module _ (sqrt : ℕ → ℕ) where
  -- osal_trace_analyze_min_max: the trace with its `tmp` written, and the results.
  pub trace_analyze_min_max : Trace → Out → Out → Option (Trace × Stats)
  trace_analyze_min_max t min_val max_val =
      let rounds = u32 (t.cnt + 2 ^ 32 - 1) in
      do
        times ← buffer t (act_buffer t)
        a ←
            diff_loop times rounds 0
              (record { tmp = t.tmp; avg = 0; min_val = min_val; max_val = max_val })
        avg ← divide a.avg rounds
        b ← dev_loop a.tmp avg rounds 0 (record { max_jit = 0; avg_jit = 0 })
        mean ← divide b.avg_jit t.cnt
        some (
          record t { tmp = a.tmp },
          record {
            avg = avg;
            avg_jit = sqrt mean;
            max_jit = b.max_jit;
            min_val = a.min_val;
            max_val = a.max_val;
          },
        )

  -- osal_trace_analyze
  pub trace_analyze : Trace → Option (Trace × Stats)
  trace_analyze t = trace_analyze_min_max t none none

  -- osal_trace_analyze_rel_min_max
  pub trace_analyze_rel_min_max : Trace → Out → Out → Option Stats
  trace_analyze_rel_min_max t min_val max_val = do
    times ← buffer t (act_buffer t)
    a ←
        rel_loop times t.cnt 0
          (record { tmp = t.tmp; avg = 0; min_val = min_val; max_val = max_val })
    avg ← divide a.avg t.cnt
    b ← dev_loop times avg t.cnt 0 (record { max_jit = 0; avg_jit = 0 })
    mean ← divide b.avg_jit t.cnt
    some (record {
      avg = avg;
      avg_jit = sqrt mean;
      max_jit = b.max_jit;
      min_val = a.min_val;
      max_val = a.max_val;
    })

  -- osal_trace_analyze_rel
  pub trace_analyze_rel : Trace → Option Stats
  trace_analyze_rel t = trace_analyze_rel_min_max t none none
