-- ===== src/Posix/Task/Handover/Ends.antt =====
-- Every start of a task can come to an end, whatever has happened so far.
use libosal.Prelude.{ℕ, ◌≡◌, refl, arith}
use libosal.Osal.{Retval}
use libosal.Posix.Task.Handover.{Creator, Wrapper, Start, begin, Step, Reach}
use libosal.Posix.Task.Handover.Laws.{Copied, Inv, Step-Inv, Reach-Inv}

module _ (handler arg attr : ℕ) where
  Reach-first :
      {s t u : Start}
      → Step handler arg attr s t
      → Reach handler arg attr t u
      → Reach handler arg attr s u
  Reach-first st Reach.start = Reach.later Reach.start st
  Reach-first st (Reach.later r st') = Reach.later (Reach-first st r) st'

  -- osal_task_create has returned OSAL_OK and the thread is in the user's handler.
  abbrev pub Ends : Start → Type 0
  Ends s =
      (t : Start) × Reach handler arg attr s t
      × (t.creator ≡ Creator.returned Retval.ok)
      × (t.wrapper ≡ Wrapper.calling handler arg)

  Ends-Step : {s t : Start} → Step handler arg attr s t → Ends t → Ends s
  Ends-Step st (u, r, c, w) = (u, Reach-first st r, c, w)

  from_calling :
      {s : Start}
      → Inv handler arg attr s
      → s.creator ≡ Creator.waiting
      → (h a : ℕ) → s.wrapper ≡ Wrapper.calling h a
      → Ends s
  from_calling {s} v waiting h a e =
      let right : Copied handler arg attr s.wrapper = v.right in
      let r =
        Reach.later Reach.start (Step.polls_done _ waiting (v.frame waiting) (ground arith)) in
      (_, r, refl, ground arith)

  from_set_running :
      {s : Start}
      → Inv handler arg attr s
      → s.creator ≡ Creator.waiting
      → (h a : ℕ) → s.wrapper ≡ Wrapper.set_running h a
      → Ends s
  from_set_running v waiting h a e =
      let st = Step.sets_running h a _ e (v.frame waiting) in
      Ends-Step st (from_calling (Step-Inv handler arg attr v st) waiting h a refl)

  from_applying :
      {s : Start}
      → Inv handler arg attr s
      → s.creator ≡ Creator.waiting
      → (h a t : ℕ) → s.wrapper ≡ Wrapper.applying h a t
      → Ends s
  from_applying v waiting h a t e =
      let st = Step.applies h a t e in
      Ends-Step st (from_set_running (Step-Inv handler arg attr v st) waiting h a refl)

  from_copy_attr :
      {s : Start}
      → Inv handler arg attr s
      → s.creator ≡ Creator.waiting
      → (h a : ℕ) → s.wrapper ≡ Wrapper.copy_attr h a
      → Ends s
  from_copy_attr v waiting h a e =
      let st = Step.copies _ (Wrapper.applying h a attr) (v.frame waiting) (ground arith) in
      Ends-Step st (from_applying (Step-Inv handler arg attr v st) waiting h a attr refl)

  from_copy_arg :
      {s : Start}
      → Inv handler arg attr s
      → s.creator ≡ Creator.waiting
      → (h : ℕ) → s.wrapper ≡ Wrapper.copy_arg h
      → Ends s
  from_copy_arg v waiting h e =
      let st = Step.copies _ (Wrapper.copy_attr h arg) (v.frame waiting) (ground arith) in
      Ends-Step st (from_copy_attr (Step-Inv handler arg attr v st) waiting h arg refl)

  from_copy_handler :
      {s : Start}
      → Inv handler arg attr s
      → s.creator ≡ Creator.waiting
      → s.wrapper ≡ Wrapper.copy_handler
      → Ends s
  from_copy_handler v waiting e =
      let st = Step.copies _ (Wrapper.copy_arg handler) (v.frame waiting) (ground arith) in
      Ends-Step st (from_copy_arg (Step-Inv handler arg attr v st) waiting handler refl)

  -- From wherever the steps of osal_task_create and of the new thread have led, as long as
  -- osal_task_create waits for the thread, steps lead to its return with OSAL_OK, with the thread in
  -- the handler that was given: the two never block each other.
  pub handover-Ends :
      {s : Start}
      → Reach handler arg attr (begin handler arg attr) s
      → s.creator ≡ Creator.waiting
      → Ends s
  handover-Ends {s} r waiting =
      let v = Reach-Inv handler arg attr r in at_wrapper s.wrapper refl v waiting
    where
      at_wrapper :
          (w : Wrapper)
          → s.wrapper ≡ w
          → Inv handler arg attr s
          → s.creator ≡ Creator.waiting
          → Ends s
      at_wrapper Wrapper.not_started e v c = absurd (v.started c e)
      at_wrapper Wrapper.copy_handler e v c = from_copy_handler v c e
      at_wrapper (Wrapper.copy_arg h) e v c = from_copy_arg v c h e
      at_wrapper (Wrapper.copy_attr h a) e v c = from_copy_attr v c h a e
      at_wrapper (Wrapper.applying h a t) e v c = from_applying v c h a t e
      at_wrapper (Wrapper.set_running h a) e v c = from_set_running v c h a e
      at_wrapper (Wrapper.calling h a) e v c = from_calling v c h a e
      at_wrapper Wrapper.faulted e v c = absurd (v.sound e)
