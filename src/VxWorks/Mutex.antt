-- ===== src/VxWorks/Mutex.antt =====
-- Mutexes on VxWorks (src/vxworks/mutex.c): the codes for what the kernel answers.
use libosal.Prelude.{Bool, if◌then◌else◌}
use libosal.Osal.{Retval}
use libosal.VxWorks.{Status}

-- The `switch` of the calls on a mutex.
abbrev mutex_retval : Status → Retval
mutex_retval Status.ok = Retval.ok
mutex_retval Status.obj_id_error = Retval.invalid_param
mutex_retval _ = Retval.unavailable

-- osal_mutex_init: whether semMCreate returned SEM_ID_NULL.
abbrev mutex_init : Bool → Retval
mutex_init null = if null then Retval.out_of_memory else Retval.ok

-- osal_mutex_lock, for what semTake returns.
abbrev mutex_lock : Status → Retval
mutex_lock local_ret = mutex_retval local_ret

-- osal_mutex_trylock
abbrev mutex_trylock : Status → Retval
mutex_trylock local_ret = mutex_retval local_ret

-- osal_mutex_unlock, for what semGive returns.
abbrev mutex_unlock : Status → Retval
mutex_unlock local_ret = mutex_retval local_ret

-- osal_mutex_destroy, for what semDelete returns.
abbrev mutex_destroy : Status → Retval
mutex_destroy Status.ok = Retval.ok
mutex_destroy _ = Retval.invalid_param
