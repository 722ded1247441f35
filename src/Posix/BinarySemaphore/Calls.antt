-- ===== src/Posix/BinarySemaphore/Calls.antt =====
-- Whole calls of one task, as the steps that it makes with the mutex free.
use libosal.Prelude.{
  ℕ, ◌+◌, ◌≡◌, ◌≢◌, refl, none, some, arith, ◌==◌, if◌then◌else◌, ◌⊎◌, inl, inr, Bool-cases, ◌∙◌,
}
use libosal.Osal.{Retval}
use libosal.Posix.BinarySemaphore.{Wait, Pc, System, Step, Reach, binary_semaphore_post, goto}

-- Some task sleeps, or none does.
abbrev pub Sleepers : System → Type 0
Sleepers s =
    ((j : ℕ) × (w : Wait) × (s.pc j ≡ Pc.blocked w)) ⊎ ((j : ℕ) (w : Wait) → s.pc j ≢ Pc.blocked w)

-- The last step of a call.
leaves :
    {s t : System} (i : ℕ) (ret : Retval)
    → Reach s t
    → t.pc i ≡ Pc.unlock ret
    → (u : System) × Reach s u
      × (u.value ≡ t.value)
      × (u.posted ≡ t.posted)
      × (u.owner ≡ none)
      × (u.pc i ≡ Pc.idle)
leaves i ret r e = (_, Reach.later r (Step.unlocks i ret e), refl, refl, refl, ground arith)

-- What a task that has called osal_binary_semaphore_post comes to: the unlock, with OSAL_OK and a set
-- value, and then the return.
pub record Posts (s : System) (i : ℕ) : Type 0 where
  at_unlock : System
  returned : System
  runs : Reach s at_unlock
  code : at_unlock.pc i ≡ Pc.unlock Retval.ok
  ends : Reach s returned
  idle : returned.pc i ≡ Pc.idle
  freed : returned.owner ≡ none
  value : returned.value ≡ binary_semaphore_post s.value
  counted : returned.posted ≡ s.posted + (if s.value == 0 then 1 else 0)

module _ (s : System) (i : ℕ) (free : s.owner ≡ none) (called : s.pc i ≡ Pc.post_lock) where
  -- Task `i` before the `if` of a post, with the mutex.
  abbrev testing : System
  testing = record s { owner = some i; pc = goto s.pc i Pc.post_test }

  to_testing : Reach s testing
  to_testing = Reach.later Reach.start (Step.lock_post i called free)

  posts :
      (t : System)
      → Reach s t
      → t.pc i ≡ Pc.unlock Retval.ok
      → t.value ≡ binary_semaphore_post s.value
      → t.posted ≡ s.posted + (if s.value == 0 then 1 else 0)
      → Posts s i
  posts t r e value counted =
      let (u, r', v, c, o, p) = leaves i Retval.ok r e in
      record {
        at_unlock = t;
        returned = u;
        runs = r;
        code = e;
        ends = r';
        idle = p;
        freed = o;
        value = v ∙ value;
        counted = c ∙ counted;
      }

  -- A task that has called osal_binary_semaphore_post, with the mutex free, while some task sleeps in
  -- a wait or none does, can run to the unlock with the code OSAL_OK, give the mutex back and return.
  -- The value is then what binary_semaphore_post makes of it, 1 from 0 and otherwise as it was, and
  -- the posts that set it are one more where it was 0.
  pub post_call : Sleepers s → Posts s i
  unfolding binary_semaphore_post
  post_call sleepers = elim (Bool-cases (s.value == 0)) [
    | inr set ↦
        posts _ (Reach.later to_testing (Step.post_again i (ground arith) (ground arith)))
          (ground arith) (ground arith) (ground arith)
    | inl unset ↦ elim sleepers [
      | inl (j, w, e) ↦
          posts _
            (Reach.later to_testing
              (Step.post_wakes i j w (ground arith) (ground arith) (ground arith)))
            (ground arith) (ground arith) (ground arith)
      | inr asleep ↦
          posts _
            (Reach.later to_testing (
              Step.post_alone i (ground arith) (ground arith) (λ j w e. asleep j w (ground arith))))
            (ground arith) (ground arith) (ground arith)
    ]
  ]

module _ (s : System) (i : ℕ) (free : s.owner ≡ none) (idle : s.pc i ≡ Pc.idle) where
  -- Task `i` before the `if` of osal_binary_semaphore_trywait, with the mutex.
  abbrev trying : System
  trying = record s { owner = some i; pc = goto (goto s.pc i Pc.try_lock) i Pc.try_test }

  to_trying : Reach s trying
  to_trying =
      Reach.later (Reach.later Reach.start (Step.call_try i idle))
        (Step.lock_try i (ground arith) free)

  -- A task that calls osal_binary_semaphore_trywait with the mutex free can run to the unlock, where
  -- it has the code OSAL_ERR_BUSY if the value was 0 and OSAL_OK otherwise, and then give the mutex
  -- back. The value is 0 afterwards.
  pub try_call :
      (t u : System) × Reach s t
      × (t.pc i ≡ Pc.unlock (if s.value == 0 then Retval.busy else Retval.ok))
      × Reach s u
      × (u.value ≡ 0)
      × (u.owner ≡ none)
      × (u.pc i ≡ Pc.idle)
  try_call = elim (Bool-cases (s.value == 0)) [
    | inl unset ↦
        let r = Reach.later to_trying (Step.try_busy i (ground arith) (ground arith)) in
        let (u, r', v, _, o, p) = leaves i Retval.busy r (ground arith) in
        (_, u, r, ground arith, r', v ∙ ground arith, o, p)
    | inr set ↦
        let r = Reach.later to_trying (Step.try_takes i (ground arith) (ground arith)) in
        let (u, r', v, _, o, p) = leaves i Retval.ok r (ground arith) in
        (_, u, r, ground arith, r', v, o, p)
  ]
