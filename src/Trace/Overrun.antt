-- ===== src/Trace/Overrun.antt =====
-- How long the finished block of a trace stays as it is for osal_trace_analyze_min_max and
-- osal_trace_analyze_rel_min_max, which take the number of its buffer once and then read it sample
-- by sample, while osal_trace_time goes on.
use libosal.Prelude.{
  ℕ, ◌+◌, ◌-◌, ◌≤◌, ◌<◌, ◌≡◌, refl, some, List, [], ◌∷◌, arith, length, set, ◌∙◌, ap, sym,
}
use libosal.Prelude.Memory.{◌>>=◌}
use libosal.Trace.{Trace, buffer, trace_time}
use libosal.Trace.Record.{
  IsValid, active, inactive, written, trace_time_lem, written-IsValid, record_all,
}
use libosal.Trace.Analyze.{act_buffer}

-- One sample leaves the other buffer as it is, with the last one of a block too.
kept :
    (t : Trace) (time : ℕ) → IsValid t → buffer (written t time) (act_buffer t) ≡ some (inactive t)
kept t time v = ground arith

-- A sample inside of the block that is being written.
inside :
    (t : Trace) (time : ℕ)
    → IsValid t
    → t.pos + 1 < t.cnt
    → ((written t time).pos ≡ t.pos + 1)
      × ((written t time).cnt ≡ t.cnt)
      × (inactive (written t time) ≡ inactive t)
      × (act_buffer (written t time) ≡ act_buffer t)
inside t time v h = (ground arith, ground arith, ground arith, ground arith)

-- On a valid trace, as many calls of osal_trace_time as the block that is being written has places
-- left, the one that completes it included, store their samples and leave the finished block as it
-- is, in the buffer whose number the analysis took before them.
pub stable_block :
    (times : List ℕ) (t : Trace)
    → IsValid t
    → length times ≤ t.cnt - t.pos
    → (t' : Trace) × (record_all t times ≡ some t') × (buffer t' (act_buffer t) ≡ some (inactive t))
unfolding record_all
stable_block [] t v h = (t, refl, ground arith)
stable_block (time ∷ []) t v h =
    (written t time, rw (trace_time_lem t time v, ◌>>=◌) refl, kept t time v)
stable_block (time ∷ next ∷ times) t v h =
    let (step, size, block, read) = inside t time v (omega arith) in
    let (t', e, b) =
      stable_block (next ∷ times) (written t time) (written-IsValid t time v) (omega arith) in
    (t', rw (trace_time_lem t time v, ◌>>=◌) e, ap (buffer t') (sym read) ∙ b ∙ ap some block)

-- The samples that complete the block turn the writer to the one that is being read.
turned :
    (times : List ℕ) (t : Trace)
    → IsValid t
    → length times ≡ t.cnt - t.pos
    → (t' : Trace) × (record_all t times ≡ some t')
      × IsValid t'
      × (t'.pos ≡ 0)
      × (t'.act_buf ≡ act_buffer t)
      × (active t' ≡ inactive t)
unfolding record_all
turned [] t v h = let none_left : 0 < 0 = omega arith in elim none_left [ ]
turned (time ∷ []) t v h = (
  written t time,
  rw (trace_time_lem t time v, ◌>>=◌) refl,
  written-IsValid t time v,
  ground arith,
  ground arith,
  ground arith,
)
turned (time ∷ next ∷ times) t v h =
    let (step, size, block, read) = inside t time v (omega arith) in
    let (t', e, v', start, same, b) =
      turned (next ∷ times) (written t time) (written-IsValid t time v) (omega arith) in
    (t', rw (trace_time_lem t time v, ◌>>=◌) e, v', start, same ∙ read, b ∙ block)

first_written :
    (t : Trace) (time : ℕ)
    → IsValid t
    → t.pos ≡ 0
    → buffer (written t time) t.act_buf ≡ some (set (active t) 0 time)
first_written t time v start = ground arith

-- On a valid trace, when as many samples as the block that is being written has places left are
-- stored, and one more, this one goes over the first place of the block that was finished before, in
-- the very buffer that the analysis was handed.
pub overrun_lem :
    (times : List ℕ) (time : ℕ) (t : Trace)
    → IsValid t
    → length times ≡ t.cnt - t.pos
    → (t₁ t₂ : Trace) × (record_all t times ≡ some t₁)
      × (trace_time t₁ time ≡ some t₂)
      × (buffer t₂ (act_buffer t) ≡ some (set (inactive t) 0 time))
overrun_lem times time t v h =
    let (t₁, e, v₁, start, same, b) = turned times t v h in
    (
      t₁,
      written t₁ time,
      e,
      trace_time_lem t₁ time v₁,
      ap (buffer (written t₁ time)) (sym same)
          ∙ first_written t₁ time v₁ start
          ∙ ap (λ xs. some (set xs 0 time)) b,
    )
