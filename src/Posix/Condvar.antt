-- ===== src/Posix/Condvar.antt =====
-- Condition variables of the POSIX port (src/posix/condvar.c). A call of the system answers with 0,
-- here `none`, or with an error number.
pub mod Laws
mod Tests
use libosal.Prelude.{ℕ, zero, suc, ◌+◌, Option, none, some}
use libosal.Osal.{Retval, Errno}
use libosal.Timer.{Timer}
use libosal.Posix.Retry.{Answer}

-- The code of osal_condvar_init for the last answer, of pthread_cond_init.
abbrev cond_init_retval : Answer → Retval
cond_init_retval none = Retval.ok
cond_init_retval (some Errno.eagain) = Retval.unavailable
cond_init_retval (some Errno.enomem) = Retval.out_of_memory
cond_init_retval (some Errno.ebusy) = Retval.busy
cond_init_retval (some Errno.einval) = Retval.invalid_param
cond_init_retval (some _) = Retval.operation_failed

-- osal_condvar_init, over pthread_condattr_init, pthread_condattr_setclock at the clock source of
-- the library, and pthread_cond_init.
pub condvar_init : Answer → (ℕ → Answer) → Answer → ℕ → Retval
condvar_init (some _) setclock cond_init global_clock_id = Retval.out_of_memory
condvar_init none setclock cond_init global_clock_id = elim (setclock global_clock_id) [
  | none ↦ cond_init_retval cond_init
  | some _ ↦ Retval.invalid_param
]

-- osal_condvar_signal, and osal_condvar_broadcast, which differ in the call alone.
pub condvar_signal : Answer → Retval
condvar_signal none = Retval.ok
condvar_signal (some _) = Retval.invalid_param

pub condvar_broadcast : Answer → Retval
condvar_broadcast none = Retval.ok
condvar_broadcast (some _) = Retval.invalid_param

-- osal_condvar_wait drops the answer of pthread_cond_wait.
pub condvar_wait : Answer → Retval
condvar_wait answer = Retval.ok

-- The `do` loop of osal_condvar_timedwait from the n-th call of pthread_cond_timedwait on, with the
-- value of `ret`: ETIMEDOUT breaks out of it, and 0 ends it.
pub timedwait_loop : (ℕ → Answer) → ℕ → ℕ → Retval → Option Retval
timedwait_loop cond_timedwait zero n ret = none
timedwait_loop cond_timedwait (suc fuel) n ret = elim (cond_timedwait n) [
  | none ↦ some ret
  | some Errno.etimedout ↦ some Retval.timeout
  | some Errno.einval ↦ timedwait_loop cond_timedwait fuel (n + 1) Retval.invalid_param
  | some Errno.eperm ↦ timedwait_loop cond_timedwait fuel (n + 1) Retval.permission_denied
  | some _ ↦ timedwait_loop cond_timedwait fuel (n + 1) ret
]

-- osal_condvar_timedwait
pub condvar_timedwait : (ℕ → Timer → Answer) → ℕ → Timer → Option Retval
condvar_timedwait cond_timedwait fuel to =
    timedwait_loop (λ n. cond_timedwait n to) fuel 0 Retval.ok

-- osal_condvar_destroy
pub condvar_destroy : Answer → Retval
condvar_destroy none = Retval.ok
condvar_destroy (some _) = Retval.busy
