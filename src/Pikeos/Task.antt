-- ===== src/Pikeos/Task.antt =====
-- Tasks on PikeOS (src/pikeos/task.c): the state of a task and osal_task_join, which asks for it
-- until the task is not active, and the codes of the other calls.
pub mod Laws
pub mod Handover
use libosal.Prelude.{ℕ, zero, suc, ◌+◌, Bool, true, false, Option, none, some}
use libosal.Osal.{Retval}
use libosal.Pikeos.{P4Error}

-- The states of include/libosal/task.h.
pub data TaskState : Type 0 where
  unknown_id active inactive blocked : TaskState

-- The states of a thread of the kernel; any other one is `other_state`.
pub data ThreadState : Type 0 where
  stopped ready current sleeping wait_rx wait_rx_ev wait_tx wait_ev wait_int other_state :
      ThreadState

-- The `switch` of osal_task_get_state, which leaves `*state` in its `default`.
abbrev state_of : ThreadState → TaskState → TaskState
state_of ThreadState.stopped old = TaskState.inactive
state_of ThreadState.ready old = TaskState.inactive
state_of ThreadState.current old = TaskState.active
state_of ThreadState.other_state old = old
state_of _ old = TaskState.blocked

-- osal_task_get_state, for what p4_thread_get_attr finds, `none` being an error, and the state that
-- stands in `*state` before.
pub task_get_state : Option ThreadState → TaskState → Retval × TaskState
task_get_state none old = (Retval.invalid_param, TaskState.unknown_id)
task_get_state (some thread) old = (Retval.ok, state_of thread old)

abbrev is_active : TaskState → Bool
is_active TaskState.active = true
is_active _ = false

-- The loop of osal_task_join from its n-th question on: the code and the number of the last one.
join_loop : (ℕ → Option ThreadState) → ℕ → ℕ → TaskState → Option (Retval × ℕ)
unfolding task_get_state
join_loop thread zero n state = none
join_loop thread (suc fuel) n state =
    let (ret, state') = task_get_state (thread n) state in
    elim ret [
      | Retval.ok ↦ elim (is_active state') [
        | true ↦ join_loop thread fuel (n + 1) state'
        | false ↦ some (Retval.ok, n)
      ]
      | other ↦ some (other, n)
    ]

-- osal_task_join, with what stands in the local `state` at first.
pub task_join : (ℕ → Option ThreadState) → ℕ → TaskState → Option (Retval × ℕ)
unfolding join_loop
task_join thread fuel state = join_loop thread fuel 0 state

-- The codes of osal_task_destroy, osal_task_suspend, osal_task_resume, osal_task_delete,
-- osal_task_set_priority and osal_task_get_priority.
abbrev task_retval : P4Error → Retval
task_retval P4Error.ok = Retval.ok
task_retval _ = Retval.operation_failed

-- osal_task_get_hdl, osal_task_set_task_attr and osal_task_get_task_attr
abbrev task_not_implemented : Retval
task_not_implemented = Retval.not_implemented
