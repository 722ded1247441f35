-- ===== src/Posix/Task/Handover.antt =====
-- The start of a task as steps of two threads (src/posix/task.c): osal_task_create puts `start_args`
-- on its stack, and posix_task_wrapper reads them there. The steps interleave in any order; a read
-- or a write of `start_args` when osal_task_create has returned is a fault of the thread.
pub mod Laws
pub mod Ends
use libosal.Prelude.{ℕ, ◌≡◌, Bool, true, false, Option, none, some}
use libosal.Osal.{Retval, Errno}
use libosal.Posix.Task.Lifecycle.{create_retval}

-- `posix_start_args_t`, with the handler, its argument and the attributes as addresses.
pub record StartArgs : Type 0 where
  pub running : Bool
  pub user_handler : ℕ
  pub user_arg : ℕ
  pub user_attr : ℕ

-- osal_task_create: before pthread_create, in the loop on `running`, and after its return.
pub data Creator : Type 0 where
  creating waiting : Creator
  returned : Retval → Creator

-- posix_task_wrapper: not started, before each of the three copies, before the attributes are
-- applied, before `running = 1`, in the user's handler, or faulted.
pub data Wrapper : Type 0 where
  not_started copy_handler : Wrapper
  copy_arg : (user_handler : ℕ) → Wrapper
  copy_attr : (user_handler user_arg : ℕ) → Wrapper
  applying : (user_handler user_arg user_attr : ℕ) → Wrapper
  set_running : (user_handler user_arg : ℕ) → Wrapper
  calling : (user_handler user_arg : ℕ) → Wrapper
  faulted : Wrapper

-- `start_args`, `none` where the stack frame does not hold them, and the two threads.
pub record Start : Type 0 where
  pub start_args : Option StartArgs
  pub creator : Creator
  pub wrapper : Wrapper

-- The copies that the wrapper makes, in their order, and where each leads.
abbrev pub copied : Wrapper → StartArgs → Option Wrapper
copied Wrapper.copy_handler args = some (Wrapper.copy_arg args.user_handler)
copied (Wrapper.copy_arg h) args = some (Wrapper.copy_attr h args.user_arg)
copied (Wrapper.copy_attr h a) args = some (Wrapper.applying h a args.user_attr)
copied _ args = none

-- Whether the next step of the wrapper is a read or a write of `start_args`.
abbrev uses_args : Wrapper → Bool
uses_args Wrapper.copy_handler = true
uses_args (Wrapper.copy_arg h) = true
uses_args (Wrapper.copy_attr h a) = true
uses_args (Wrapper.set_running h a) = true
uses_args _ = false

module _ (handler arg attr : ℕ) where
  -- The call of osal_task_create.
  abbrev pub begin : Start
  begin = record { start_args = none; creator = Creator.creating; wrapper = Wrapper.not_started }

  -- `posix_start_args_t start_args = { 0, handler, arg, attr };`
  abbrev pub given : StartArgs
  given = record { running = false; user_handler = handler; user_arg = arg; user_attr = attr }

  pub data Step (s : Start) : Start → Type 0 where
    create_fails :
        (errno : Errno)
        → s.creator ≡ Creator.creating
        → Step s (record s { creator = Creator.returned (create_retval errno) })
    create_starts :
        s.creator ≡ Creator.creating
        → Step s (record {
          start_args = some given;
          creator = Creator.waiting;
          wrapper = Wrapper.copy_handler;
        })
    copies :
        (args : StartArgs) (next : Wrapper)
        → s.start_args ≡ some args
        → copied s.wrapper args ≡ some next
        → Step s (record s { wrapper = next })
    applies :
        (h a t : ℕ)
        → s.wrapper ≡ Wrapper.applying h a t
        → Step s (record s { wrapper = Wrapper.set_running h a })
    sets_running :
        (h a : ℕ) (args : StartArgs)
        → s.wrapper ≡ Wrapper.set_running h a
        → s.start_args ≡ some args
        → Step s (record s {
          start_args = some (record args { running = true });
          wrapper = Wrapper.calling h a;
        })
    faults :
        uses_args s.wrapper ≡ true
        → s.start_args ≡ none
        → Step s (record s { wrapper = Wrapper.faulted })
    -- `while (start_args.running == 0) { osal_sleep(1000000); }`
    polls_again :
        (args : StartArgs)
        → s.creator ≡ Creator.waiting
        → s.start_args ≡ some args
        → args.running ≡ false
        → Step s s
    polls_done :
        (args : StartArgs)
        → s.creator ≡ Creator.waiting
        → s.start_args ≡ some args
        → args.running ≡ true
        → Step s (record s { start_args = none; creator = Creator.returned Retval.ok })

  -- What any sequence of steps reaches from `s`.
  pub data Reach (s : Start) : Start → Type 0 where
    start : Reach s s
    later : {t u : Start} → Reach s t → Step t u → Reach s u
