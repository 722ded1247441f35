-- ===== src/Trace/Alloc/Laws.antt =====
-- What osal_trace_alloc hands out, and what it gives back.
use libosal.Prelude.{
  ℕ, ◌^◌, ◌<◌, ◌≡◌, ◌≢◌, ◌⊎◌, inl, inr, refl, true, Option, none, some, arith, length-replicate,
  Bool-cases, ◌&&◌,
}
use libosal.Osal.{Retval, is_ok}
use libosal.Trace.{Trace, fresh}
use libosal.Trace.Alloc.{
  AllocAnswers, Blocks, nothing, allocated, struct_only, trace_free, trace_alloc,
}
use libosal.Trace.Record.{IsValid}

fresh-IsValid : (cnt : ℕ) → 0 < cnt → cnt < 2 ^ 32 → IsValid (fresh cnt)
fresh-IsValid cnt some_samples few = ground (arith, length-replicate {0} {A = ℕ} cnt 0)

free_all : (held : Blocks) → held.trace ≡ true → trace_free held held ≡ some nothing
unfolding trace_free
free_all held h = ground (arith, h)

-- Whether a call of osal_trace_alloc has succeeded, with a valid trace whose blocks osal_trace_free
-- all gives back, or has failed, with no block left.
abbrev pub Outcome : ℕ → Retval → Option Trace → Blocks → Type 0
Outcome cnt ret t held =
    ((ret ≡ Retval.ok)
      × (t ≡ some (fresh cnt))
      × IsValid (fresh cnt)
      × (trace_free held held ≡ some nothing))
    ⊎ ((ret ≢ Retval.ok) × (t ≡ none) × (held ≡ nothing))

-- For a count of between 1 and 2^32 - 1 samples, where the struct can be allocated, osal_trace_alloc
-- returns. Either it returns OSAL_OK and the empty trace of that size, which is valid, and
-- osal_trace_free frees every block of it once; or it returns another code and has freed all that
-- it had allocated.
pub trace_alloc_lem :
    (answers : AllocAnswers) (cnt : ℕ)
    → 0 < cnt
    → cnt < 2 ^ 32
    → answers.trace_ok ≡ true
    → (ret : Retval) × (t : Option Trace) × (held : Blocks) × (trace_alloc answers cnt
        ≡ some (ret, t, held))
      × Outcome cnt ret t held
unfolding trace_alloc
trace_alloc_lem answers cnt some_samples few struct_ok =
    let all = free_all (allocated answers) refl in
    let struct = free_all struct_only refl in
    let complete = answers.time_0_ok && answers.time_1_ok && answers.tmp_ok in
    elim (Bool-cases (is_ok answers.sem_ret)) [
      | inl e ↦ elim (Bool-cases complete) [
        | inl c ↦ (
          Retval.ok,
          some (fresh cnt),
          allocated answers,
          ground arith,
          inl (refl, refl, fresh-IsValid cnt some_samples few, all),
        )
        | inr c ↦ (Retval.out_of_memory, none, nothing, ground arith, inr ((λ f. cc), refl, refl))
      ]
      | inr e ↦ (answers.sem_ret, none, nothing, ground arith, inr (ground arith, refl, refl))
    ]
