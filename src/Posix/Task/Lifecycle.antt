-- ===== src/Posix/Task/Lifecycle.antt =====
-- Starting and ending tasks (src/posix/task.c): the wrapper that a new thread runs first,
-- osal_task_create, which waits for it, and the codes of the other calls. The port is built with
-- pthread_setaffinity_np, SIGSTOP and SIGCONT.
use mathlib.Core.Option
use libosal.Prelude.{ℕ, Bool, Option, none, some, ltb, ◌==◌, if◌then◌else◌}
use libosal.Prelude.Loop.{until}
use libosal.Osal.{Retval, Errno}
use libosal.Posix.Retry.{Answer}
use libosal.Posix.Task.{Sched, Threads, sched_retval, set_param, set_policy, set_priority}
use libosal.Posix.Task.Affinity.{cpuset, set_cpus, set_affinity, mask_loop, cpu_setsize}

-- `osal_task_attr_t` without the name.
pub record TaskAttr : Type 0 where
  pub policy : ℕ
  pub priority : ℕ
  pub affinity : ℕ

-- What posix_task_wrapper does before it sets `running`: an attribute of 0 is not set, and an error
-- is reported to stderr and dropped.
unfoldable pub apply_policy : Sched → Threads → ℕ → Threads
apply_policy sched threads policy =
    if policy == 0 then threads else (set_policy sched threads none policy).1

unfoldable pub apply_priority : Sched → Threads → ℕ → Threads
apply_priority sched threads priority =
    if priority == 0 then threads else (set_priority sched threads none priority).1

unfoldable pub apply_affinity : Sched → Threads → ℕ → Threads
apply_affinity sched threads affinity =
    if ltb 0 affinity then (set_affinity sched threads none affinity).1 else threads

-- posix_task_wrapper up to the call of the user's handler, `none` being no attributes.
unfoldable pub task_wrapper : Sched → Threads → Option TaskAttr → Threads
task_wrapper sched threads none = threads
task_wrapper sched threads (some attr) =
    apply_affinity sched
      (apply_priority sched (apply_policy sched threads attr.policy) attr.priority) attr.affinity

abbrev pub create_retval : Errno → Retval
create_retval Errno.eagain = Retval.system_limit_reached
create_retval Errno.eperm = Retval.permission_denied
create_retval Errno.einval = Retval.invalid_param
create_retval _ = Retval.operation_failed

-- osal_task_create, for the answer of pthread_create and the readings of `running`, between which
-- it sleeps for a millisecond.
unfoldable pub task_create : Answer → (ℕ → Bool) → ℕ → Option Retval
task_create (some errno) running fuel = some (create_retval errno)
task_create none running fuel = Option.map (λ n. Retval.ok) (until fuel running 0)

-- osal_task_join
unfoldable pub task_join : Answer → Retval
task_join none = Retval.ok
task_join (some Errno.edeadlk) = Retval.dead_lock
task_join (some Errno.einval) = Retval.invalid_param
task_join (some Errno.esrch) = Retval.not_found
task_join (some _) = Retval.operation_failed

-- osal_task_destroy
unfoldable pub task_destroy : Answer → Retval
task_destroy none = Retval.ok
task_destroy (some _) = Retval.not_found

-- osal_task_suspend and osal_task_resume, for the answer of pthread_kill.
unfoldable pub task_suspend : Answer → Retval
task_suspend none = Retval.ok
task_suspend (some _) = Retval.invalid_param

unfoldable pub task_resume : Answer → Retval
task_resume none = Retval.ok
task_resume (some _) = Retval.invalid_param

-- osal_task_get_hdl and osal_task_get_state
abbrev task_get_hdl : Retval
task_get_hdl = Retval.not_implemented

abbrev task_get_state : Retval
task_get_state = Retval.not_implemented

-- osal_task_set_task_attr: the policy of the library goes to the system as it is.
unfoldable pub set_task_attr : Sched → Threads → ℕ → TaskAttr → Retval × Threads
set_task_attr sched threads tid attr =
    let (ret, threads') = set_param sched threads tid attr.policy attr.priority in
    elim ret [
      | Retval.ok ↦ set_cpus sched threads' tid (cpuset attr.affinity)
      | other ↦ (other, threads')
    ]

-- osal_task_get_task_attr, with what it writes to the caller's attributes where all is well.
unfoldable pub get_task_attr : Sched → Threads → ℕ → Option (Retval × Option TaskAttr)
get_task_attr sched threads tid = elim (sched.getschedparam tid) [
  | some errno ↦ some (sched_retval errno, none)
  | none ↦ elim (sched.getaffinity tid) [
    | some _ ↦ some (Retval.invalid_param, none)
    | none ↦
        Option.map
          (λ mask. (
            Retval.ok,
            some (record {
              policy = (threads tid).policy;
              priority = (threads tid).priority;
              affinity = mask;
            }),
          ))
          (mask_loop (threads tid).cpus cpu_setsize 0 0)
  ]
]
