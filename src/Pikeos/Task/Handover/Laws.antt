-- ===== src/Pikeos/Task/Handover/Laws.antt =====
-- Each start of a task on PikeOS is, seen through its states, a start on POSIX that applies no
-- attributes, so what holds of every start there holds here.
use libosal.Prelude.{ℕ, ◌≡◌, ◌≢◌, refl, ap, sym, Option, some, arith}
use libosal.Osal.{Retval, Errno}
use libosal.Pikeos.{P4Error}
use libosal.Posix.Task.Lifecycle.{create_retval as posix_retval}
use libosal.Posix.Task.Handover.{Creator, StartArgs}
use libosal.Posix.Task.Handover.Laws.{handover_safe}
use libosal.Pikeos.Task.Handover.{Wrapper, Start, create_retval, copied, begin, Step, Reach}
use libosal.Posix.Task.Handover as Posix

abbrev posix_wrapper : Wrapper → Posix.Wrapper
posix_wrapper Wrapper.not_started = Posix.Wrapper.not_started
posix_wrapper Wrapper.copy_handler = Posix.Wrapper.copy_handler
posix_wrapper (Wrapper.copy_arg h) = Posix.Wrapper.copy_arg h
posix_wrapper (Wrapper.set_running h a) = Posix.Wrapper.set_running h a
posix_wrapper (Wrapper.calling h a) = Posix.Wrapper.calling h a
posix_wrapper Wrapper.faulted = Posix.Wrapper.faulted

-- The same start, as one of the POSIX port.
abbrev pub posix_start : Start → Posix.Start
posix_start s = record {
  start_args = s.start_args;
  creator = s.creator;
  wrapper = posix_wrapper s.wrapper;
}

-- An error number of pthread_create with the same code.
abbrev same_errno : P4Error → Errno
same_errno P4Error.inval = Errno.einval
same_errno _ = Errno.enomem

same_errno_lem :
    (code : P4Error) → code ≢ P4Error.ok → posix_retval (same_errno code) ≡ create_retval code
same_errno_lem code h = ground arith

module _ (handler arg attr : ℕ) where
  -- One copy of the argument here is, there, those of the argument and of the attributes, and their
  -- application.
  copies-simulated :
      {b : Posix.Start} (frame : Option StartArgs) (creator : Creator) (w : Wrapper)
      (args : StartArgs) (next : Wrapper)
      → frame ≡ some args
      → copied w args ≡ some next
      → Posix.Reach handler arg attr b
          (posix_start (record { start_args = frame; creator = creator; wrapper = w }))
      → Posix.Reach handler arg attr b
          (posix_start (record { start_args = frame; creator = creator; wrapper = next }))
  copies-simulated frame creator Wrapper.copy_handler args next e c r =
      Posix.Reach.later r (Posix.Step.copies args (posix_wrapper next) e (ground arith))
  copies-simulated frame creator (Wrapper.copy_arg h) args next e c r =
      let same : posix_wrapper next ≡ Posix.Wrapper.set_running h args.user_arg = ground arith in
      rw same (
        Posix.Reach.later
          (Posix.Reach.later (Posix.Reach.later r (Posix.Step.copies args _ e refl))
            (Posix.Step.copies args _ e refl))
          (Posix.Step.applies h args.user_arg args.user_attr refl))
  copies-simulated frame creator w args next e c r = ground arith

  Step-simulated :
      {b : Posix.Start} {s t : Start}
      → Posix.Reach handler arg attr b (posix_start s)
      → Step handler arg attr s t
      → Posix.Reach handler arg attr b (posix_start t)
  Step-simulated r (Step.create_fails code bad c) =
      rw (sym (same_errno_lem code bad))
        (Posix.Reach.later r (Posix.Step.create_fails (same_errno code) c))
  Step-simulated r (Step.create_starts c) = Posix.Reach.later r (Posix.Step.create_starts c)
  Step-simulated {b} {s} r (Step.copies args next e c) =
      copies-simulated s.start_args s.creator s.wrapper args next e c r
  Step-simulated r (Step.sets_running h a args w e) =
      Posix.Reach.later r (Posix.Step.sets_running h a args (ground arith) e)
  Step-simulated r (Step.faults u e) = Posix.Reach.later r (Posix.Step.faults (ground arith) e)
  Step-simulated r (Step.polls_again args c e f) = r
  Step-simulated r (Step.polls_done args c e f) =
      Posix.Reach.later r (Posix.Step.polls_done args c e f)

  -- Every state that a start of a task on PikeOS reaches is one that the start on POSIX reaches, with
  -- the same start arguments, the same return of osal_task_create and the thread at the same place.
  pub p4_handover_refines :
      {s : Start}
      → Reach handler arg attr (begin handler arg attr) s
      → Posix.Reach handler arg attr (Posix.begin handler arg attr) (posix_start s)
  p4_handover_refines Reach.start = Posix.Reach.start
  p4_handover_refines (Reach.later r st) = Step-simulated (p4_handover_refines r) st

  -- On PikeOS too, however the steps interleave, the new thread never touches the start arguments
  -- after osal_task_create has returned, and calls the handler with the argument that
  -- osal_task_create was given; it does so when osal_task_create has returned OSAL_OK.
  pub p4_handover_safe :
      {s : Start}
      → Reach handler arg attr (begin handler arg attr) s
      → (s.wrapper ≢ Wrapper.faulted)
        × (s.creator ≡ Creator.returned Retval.ok → s.wrapper ≡ Wrapper.calling handler arg)
        × ((h a : ℕ) → s.wrapper ≡ Wrapper.calling h a → (h ≡ handler) × (a ≡ arg))
  p4_handover_safe {s} r =
      let (sound, done, right) = handover_safe handler arg attr (p4_handover_refines r) in
      (
        λ e. sound (ap posix_wrapper e),
        λ e. ground (arith, done e),
        λ h a e. right h a (ap posix_wrapper e),
      )
