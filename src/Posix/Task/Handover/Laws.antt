-- ===== src/Posix/Task/Handover/Laws.antt =====
-- The start arguments are there as long as they are used, and the start comes to an end.
use libosal.Prelude.{ℕ, ◌≡◌, ◌≢◌, refl, Bool, true, false, some, arith}
use libosal.Osal.{Retval, Errno}
use libosal.Posix.Task.Lifecycle.{create_retval}
use libosal.Posix.Task.Handover.{Creator, Wrapper, Start, begin, given, Step, Reach}

abbrev is_calling : Wrapper → Bool
is_calling (Wrapper.calling h a) = true
is_calling _ = false

-- Between the start of the thread and `running = 1`.
abbrev on_its_way : Wrapper → Bool
on_its_way Wrapper.copy_handler = true
on_its_way (Wrapper.copy_arg h) = true
on_its_way (Wrapper.copy_attr h a) = true
on_its_way (Wrapper.applying h a t) = true
on_its_way (Wrapper.set_running h a) = true
on_its_way _ = false

module _ (handler arg attr : ℕ) where
  -- What the wrapper has copied so far is what osal_task_create was given.
  abbrev pub Copied : Wrapper → Type 0
  Copied (Wrapper.copy_arg h) = h ≡ handler
  Copied (Wrapper.copy_attr h a) = (h ≡ handler) × (a ≡ arg)
  Copied (Wrapper.applying h a t) = (h ≡ handler) × (a ≡ arg) × (t ≡ attr)
  Copied (Wrapper.set_running h a) = (h ≡ handler) × (a ≡ arg)
  Copied (Wrapper.calling h a) = (h ≡ handler) × (a ≡ arg)
  Copied _ = handler ≡ handler

  pub record Inv (s : Start) : Type 0 where
    pub waits : on_its_way s.wrapper ≡ true → s.creator ≡ Creator.waiting
    pub frame :
        s.creator ≡ Creator.waiting
        → s.start_args ≡ some (record (given handler arg attr) { running = is_calling s.wrapper })
    pub started : s.creator ≡ Creator.waiting → s.wrapper ≢ Wrapper.not_started
    pub right : Copied s.wrapper
    pub sound : s.wrapper ≢ Wrapper.faulted
    pub done : s.creator ≡ Creator.returned Retval.ok → is_calling s.wrapper ≡ true

  begin-Inv : Inv (begin handler arg attr)
  begin-Inv = record {
    waits = λ h. cc;
    frame = λ h. cc;
    started = λ h. cc;
    right = refl;
    sound = λ h. cc;
    done = λ h. cc;
  }

  fails : (errno : Errno) → create_retval errno ≢ Retval.ok
  fails errno = ground arith

  module _ {s : Start} (v : Inv s) where
    Step-waits :
        {t : Start}
        → Step handler arg attr s t
        → on_its_way t.wrapper ≡ true
        → t.creator ≡ Creator.waiting
    Step-waits (Step.copies args next e c) h = ground (arith, v.waits)
    Step-waits (Step.create_fails errno c) h = ground (arith, v.waits)
    Step-waits (Step.polls_done args c e r) h = ground (arith, v.frame)
    Step-waits (Step.applies h' a t e) h = ground (arith, v.waits)
    Step-waits st h = ground (arith, v.waits)

    Step-frame :
        {t : Start}
        → Step handler arg attr s t
        → t.creator ≡ Creator.waiting
        → t.start_args ≡ some (record (given handler arg attr) { running = is_calling t.wrapper })
    Step-frame (Step.copies args next e c) h = ground (arith, v.frame)
    Step-frame (Step.applies h' a t e) h = ground (arith, v.frame)
    Step-frame (Step.sets_running h' a args e c) h = ground (arith, v.frame)
    Step-frame (Step.faults u e) h = ground (arith, v.frame)
    Step-frame st h = ground (arith, v.frame)

    Step-started :
        {t : Start}
        → Step handler arg attr s t
        → t.creator ≡ Creator.waiting
        → t.wrapper ≢ Wrapper.not_started
    Step-started (Step.copies args next e c) h n = ground (arith, v.started)
    Step-started (Step.polls_again args c e r) h n = ground (arith, v.started)
    Step-started st h n = ground (arith, v.started)

    Step-right : {t : Start} → Step handler arg attr s t → Copied t.wrapper
    Step-right (Step.copies args next e c) = ground (arith, v.waits, v.frame, v.right)
    Step-right (Step.applies h' a t e) = ground (arith, v.right)
    Step-right (Step.sets_running h' a args e c) = ground (arith, v.right)
    Step-right st = ground (arith, v.right)

    Step-sound : {t : Start} → Step handler arg attr s t → t.wrapper ≢ Wrapper.faulted
    Step-sound (Step.copies args next e c) h = ground (arith, v.sound)
    Step-sound (Step.faults u e) h = ground (arith, v.waits, v.frame)
    Step-sound st h = ground (arith, v.sound)

    Step-done :
        {t : Start}
        → Step handler arg attr s t
        → t.creator ≡ Creator.returned Retval.ok
        → is_calling t.wrapper ≡ true
    Step-done (Step.create_fails errno c) h = ground (arith, fails errno)
    Step-done (Step.copies args next e c) h = ground (arith, v.done)
    Step-done (Step.applies h' a t e) h = ground (arith, v.done)
    Step-done (Step.polls_done args c e r) h = ground (arith, v.frame)
    Step-done (Step.faults u e) h = ground (arith, v.done)
    Step-done st h = ground (arith, v.done)

    pub Step-Inv : {t : Start} → Step handler arg attr s t → Inv t
    Step-Inv st = record {
      waits = Step-waits st;
      frame = Step-frame st;
      started = Step-started st;
      right = Step-right st;
      sound = Step-sound st;
      done = Step-done st;
    }

  pub Reach-Inv : {s : Start} → Reach handler arg attr (begin handler arg attr) s → Inv s
  Reach-Inv Reach.start = begin-Inv
  Reach-Inv (Reach.later r st) = Step-Inv (Reach-Inv r) st

  -- However the steps of osal_task_create and of the new thread interleave, the thread never reads
  -- or writes the start arguments after osal_task_create has returned; when osal_task_create has
  -- returned OSAL_OK the thread is in the user's handler; and the handler that it calls, and the
  -- argument, are those that osal_task_create was given.
  pub handover_safe :
      {s : Start}
      → Reach handler arg attr (begin handler arg attr) s
      → (s.wrapper ≢ Wrapper.faulted)
        × (s.creator ≡ Creator.returned Retval.ok → s.wrapper ≡ Wrapper.calling handler arg)
        × ((h a : ℕ) → s.wrapper ≡ Wrapper.calling h a → (h ≡ handler) × (a ≡ arg))
  handover_safe {s} r =
      let v = Reach-Inv r in
      let right : Copied s.wrapper = v.right in
      (v.sound, λ e. ground (arith, v.done e), λ h a e. ground arith)
