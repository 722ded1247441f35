-- ===== src/Posix/Task.antt =====
-- The scheduling of tasks in the POSIX port (src/posix/task.c). The system keeps a policy, a
-- priority and a set of CPUs for each thread, and answers a call with 0, here `none`, or with an
-- error number; a call that fails changes nothing. An `int` is a 32-bit word.
pub mod Affinity
pub mod Lifecycle
pub mod Handover
pub mod Laws
pub mod Mask
pub mod Start
pub mod Attributes
mod Tests
use libosal.Prelude.{ℕ, ◌+◌, ◌%◌, ◌^◌, Bool, Option, none, some, ltb, ◌==◌, if◌then◌else◌}
use libosal.Osal.{Retval, Errno}
use libosal.Posix.Retry.{Answer}

-- What the system keeps for a thread.
pub record Thread : Type 0 where
  pub policy : ℕ
  pub priority : ℕ
  pub cpus : ℕ → Bool

abbrev pub Threads : Type 0
Threads = ℕ → Thread

-- The answers of pthread_getschedparam, pthread_setschedparam, pthread_getaffinity_np and
-- pthread_setaffinity_np, the bounds of the priorities of a policy, and the calling thread.
pub record Sched : Type 0 where
  pub getschedparam : ℕ → Answer
  pub setschedparam : ℕ → ℕ → ℕ → Answer
  pub getaffinity : ℕ → Answer
  pub setaffinity : ℕ → (ℕ → Bool) → Answer
  pub priority_min : ℕ → ℕ
  pub priority_max : ℕ → ℕ
  pub self : ℕ

-- OSAL_SCHED_POLICY_FIFO, OSAL_SCHED_POLICY_ROUND_ROBIN and OSAL_SCHED_POLICY_OTHER.
abbrev pub policy_fifo : ℕ
policy_fifo = 1

abbrev pub policy_round_robin : ℕ
policy_round_robin = 2

abbrev pub policy_other : ℕ
policy_other = 3

-- SCHED_FIFO, SCHED_RR and SCHED_OTHER of Linux for the policies of the library, and back.
abbrev pub to_posix : ℕ → ℕ
to_posix policy = if policy == policy_fifo then 1 else if policy == policy_round_robin then 2 else 0

abbrev of_posix : ℕ → ℕ
of_posix policy =
    if policy == 1 then policy_fifo else if policy == 2 then policy_round_robin else policy_other

-- `a < b` on `int`.
abbrev lt_int : ℕ → ℕ → Bool
lt_int a b = ltb ((a + 2 ^ 31) % 2 ^ 32) ((b + 2 ^ 31) % 2 ^ 32)

-- The priority in the bounds of a policy.
abbrev pub clamp : Sched → ℕ → ℕ → ℕ
clamp sched policy priority =
    if lt_int priority (sched.priority_min policy)
    then sched.priority_min policy
    else if lt_int (sched.priority_max policy) priority
    then sched.priority_max policy
    else priority

-- The code for an error of pthread_getschedparam or pthread_setschedparam.
abbrev pub sched_retval : Errno → Retval
sched_retval Errno.esrch = Retval.invalid_param
sched_retval Errno.einval = Retval.invalid_param
sched_retval Errno.eperm = Retval.permission_denied
sched_retval _ = Retval.operation_failed

-- `hdl != NULL ? hdl->tid : pthread_self()`
abbrev pub tid_of : Sched → Option ℕ → ℕ
tid_of sched none = sched.self
tid_of sched (some tid) = tid

abbrev pub update : Threads → ℕ → Thread → Threads
update threads tid thread other = if tid == other then thread else threads other

-- pthread_setschedparam, with its answer as the code.
pub set_param : Sched → Threads → ℕ → ℕ → ℕ → Retval × Threads
set_param sched threads tid policy priority = elim (sched.setschedparam tid policy priority) [
  | none ↦ (
    Retval.ok,
    update threads tid (record (threads tid) { policy = policy; priority = priority }),
  )
  | some errno ↦ (sched_retval errno, threads)
]

-- osal_task_set_policy. The thread that is asked is the task's, the one that is set is the caller.
pub set_policy : Sched → Threads → Option ℕ → ℕ → Retval × Threads
set_policy sched threads hdl policy = elim (sched.getschedparam (tid_of sched hdl)) [
  | some errno ↦ (sched_retval errno, threads)
  | none ↦
      set_param sched threads sched.self (to_posix policy)
        (clamp sched (to_posix policy) (threads (tid_of sched hdl)).priority)
]

-- osal_task_get_policy, with what it writes to the caller's variable.
pub get_policy : Sched → Threads → ℕ → Retval × Option ℕ
get_policy sched threads tid = elim (sched.getschedparam tid) [
  | some errno ↦ (sched_retval errno, none)
  | none ↦ (Retval.ok, some (of_posix (threads tid).policy))
]

-- osal_task_set_priority
pub set_priority : Sched → Threads → Option ℕ → ℕ → Retval × Threads
set_priority sched threads hdl priority =
    let tid = tid_of sched hdl in
    elim (sched.getschedparam tid) [
      | some errno ↦ (sched_retval errno, threads)
      | none ↦
          set_param sched threads tid (threads tid).policy
            (clamp sched (threads tid).policy priority)
    ]

-- osal_task_get_priority
pub get_priority : Sched → Threads → Option ℕ → Retval × Option ℕ
get_priority sched threads hdl = elim (sched.getschedparam (tid_of sched hdl)) [
  | some errno ↦ (sched_retval errno, none)
  | none ↦ (Retval.ok, some (threads (tid_of sched hdl)).priority)
]
