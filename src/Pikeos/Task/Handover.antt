-- ===== src/Pikeos/Task/Handover.antt =====
-- The start of a task on PikeOS (src/pikeos/task.c) as steps of two threads: osal_task_create puts
-- `start_args` on its stack and asks for `running` once in a millisecond, and pikeos_task_wrapper
-- copies the handler and its argument from there. The struct is the one of the POSIX port.
pub mod Laws
use libosal.Prelude.{ℕ, zero, suc, ◌≡◌, ◌≢◌, Bool, true, false, Option, none, some, List, []}
use libosal.Osal.{Retval}
use libosal.Pikeos.{P4Error}
use libosal.Posix.Task.Handover.{StartArgs, Creator, given}

-- The attributes of osal_task_create that the port reads: a priority above 0, or not, and a name.
pub record TaskAttr : Type 0 where
  pub priority : ℕ
  pub task_name : List ℕ

-- `tattr.prio`
abbrev pub thread_prio : Option TaskAttr → ℕ
thread_prio none = 1
thread_prio (some attr) = elim attr.priority [ zero ↦ 1 | suc below ↦ suc below ]

-- The name of the thread, `none` being "thread".
abbrev pub thread_name : Option TaskAttr → Option (List ℕ)
thread_name none = none
thread_name (some attr) = elim attr.task_name [ [] ↦ none | _ ↦ some attr.task_name ]

-- The code of osal_task_create for an error of p4ext_thr_create.
abbrev create_retval : P4Error → Retval
create_retval P4Error.ok = Retval.ok
create_retval P4Error.inval = Retval.invalid_param
create_retval _ = Retval.operation_failed

-- pikeos_task_wrapper: not started, before each of the two copies, before `running = 1`, in the
-- user's handler, or faulted.
pub data Wrapper : Type 0 where
  not_started copy_handler : Wrapper
  copy_arg : (user_handler : ℕ) → Wrapper
  set_running : (user_handler user_arg : ℕ) → Wrapper
  calling : (user_handler user_arg : ℕ) → Wrapper
  faulted : Wrapper

pub record Start : Type 0 where
  pub start_args : Option StartArgs
  pub creator : Creator
  pub wrapper : Wrapper

-- The copies that the wrapper makes, and where each leads.
abbrev pub copied : Wrapper → StartArgs → Option Wrapper
copied Wrapper.copy_handler args = some (Wrapper.copy_arg args.user_handler)
copied (Wrapper.copy_arg h) args = some (Wrapper.set_running h args.user_arg)
copied _ args = none

abbrev uses_args : Wrapper → Bool
uses_args Wrapper.copy_handler = true
uses_args (Wrapper.copy_arg h) = true
uses_args (Wrapper.set_running h a) = true
uses_args _ = false

module _ (handler arg attr : ℕ) where
  -- The call of osal_task_create.
  abbrev pub begin : Start
  begin = record { start_args = none; creator = Creator.creating; wrapper = Wrapper.not_started }

  pub data Step (s : Start) : Start → Type 0 where
    create_fails :
        (code : P4Error)
        → code ≢ P4Error.ok
        → s.creator ≡ Creator.creating
        → Step s (record s { creator = Creator.returned (create_retval code) })
    create_starts :
        s.creator ≡ Creator.creating
        → Step s (record {
          start_args = some (given handler arg attr);
          creator = Creator.waiting;
          wrapper = Wrapper.copy_handler;
        })
    copies :
        (args : StartArgs) (next : Wrapper)
        → s.start_args ≡ some args
        → copied s.wrapper args ≡ some next
        → Step s (record s { wrapper = next })
    sets_running :
        (h a : ℕ) (args : StartArgs)
        → s.wrapper ≡ Wrapper.set_running h a
        → s.start_args ≡ some args
        → Step s (record s {
          start_args = some (record args { running = true });
          wrapper = Wrapper.calling h a;
        })
    faults :
        uses_args s.wrapper ≡ true
        → s.start_args ≡ none
        → Step s (record s { wrapper = Wrapper.faulted })
    -- `while (start_args.running == 0) { osal_sleep(1000000); }`
    polls_again :
        (args : StartArgs)
        → s.creator ≡ Creator.waiting
        → s.start_args ≡ some args
        → args.running ≡ false
        → Step s s
    polls_done :
        (args : StartArgs)
        → s.creator ≡ Creator.waiting
        → s.start_args ≡ some args
        → args.running ≡ true
        → Step s (record s { start_args = none; creator = Creator.returned Retval.ok })

  -- What any sequence of steps reaches from `s`.
  pub data Reach (s : Start) : Start → Type 0 where
    start : Reach s s
    later : {t u : Start} → Reach s t → Step t u → Reach s u
