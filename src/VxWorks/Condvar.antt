-- ===== src/VxWorks/Condvar.antt =====
-- Condition variables on VxWorks (src/vxworks/condvar.c), over what the kernel's calls answer.
use libosal.Prelude.{◌≡◌, ◌≢◌, arith}
use libosal.Osal.{Retval}
use libosal.Timer.{Timer}
use libosal.VxWorks.{Status, Patience}

-- osal_condvar_init, which drops what condVarCreate returns.
abbrev condvar_init : Retval
condvar_init = Retval.ok

-- osal_condvar_signal, over condVarSignal, and osal_condvar_broadcast, over condVarBroadcast.
abbrev condvar_signal : Status → Retval
condvar_signal Status.ok = Retval.ok
condvar_signal _ = Retval.invalid_param

abbrev condvar_broadcast : Status → Retval
condvar_broadcast Status.ok = Retval.ok
condvar_broadcast _ = Retval.invalid_param

-- The codes of osal_condvar_wait.
abbrev wait_retval : Status → Retval
wait_retval Status.ok = Retval.ok
wait_retval _ = Retval.invalid_param

-- osal_condvar_wait, over condVarWait at the time that it may take.
pub condvar_wait : (Patience → Status) → Retval
condvar_wait cond_var_wait = wait_retval (cond_var_wait Patience.wait_forever)

-- The codes of osal_condvar_timedwait.
abbrev timedwait_retval : Status → Retval
timedwait_retval Status.ok = Retval.ok
timedwait_retval Status.obj_timeout = Retval.timeout
timedwait_retval _ = Retval.invalid_param

-- osal_condvar_timedwait, which does not turn its timer into ticks.
pub condvar_timedwait : (Patience → Status) → Timer → Retval
condvar_timedwait cond_var_wait to = timedwait_retval (cond_var_wait Patience.wait_forever)

-- osal_condvar_destroy drops what condVarDelete returns.
abbrev condvar_destroy : Status → Retval
condvar_destroy local_ret = Retval.ok

-- Whatever its timer, osal_condvar_timedwait answers what osal_condvar_wait does and never
-- OSAL_ERR_TIMEOUT, if a wait of the kernel without a limit does not time out.
pub timedwait-wait :
    (cond_var_wait : Patience → Status) (to : Timer)
    → cond_var_wait Patience.wait_forever ≢ Status.obj_timeout
    → (condvar_timedwait cond_var_wait to ≡ condvar_wait cond_var_wait)
      × (condvar_timedwait cond_var_wait to ≢ Retval.timeout)
unfolding condvar_timedwait condvar_wait
timedwait-wait cond_var_wait to h = (ground arith, λ e. ground arith)
