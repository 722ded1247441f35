-- ===== src/Posix/Spinlock.antt =====
-- Spinlocks of the POSIX port (src/posix/spinlock.c): the codes for the error numbers. The
-- attributes are not used.
pub mod Laws
use libosal.Prelude.{none, some}
use libosal.Osal.{Retval, Errno}
use libosal.Posix.Retry.{Answer}

-- osal_spinlock_init
pub spinlock_init : Answer → Retval
spinlock_init none = Retval.ok
spinlock_init (some Errno.eagain) = Retval.system_limit_reached
spinlock_init (some Errno.enomem) = Retval.out_of_memory
spinlock_init (some Errno.eperm) = Retval.permission_denied
spinlock_init (some Errno.einval) = Retval.invalid_param
spinlock_init (some _) = Retval.unavailable

-- osal_spinlock_lock
pub spinlock_lock : Answer → Retval
spinlock_lock none = Retval.ok
spinlock_lock (some Errno.eagain) = Retval.system_limit_reached
spinlock_lock (some Errno.einval) = Retval.invalid_param
spinlock_lock (some Errno.enotrecoverable) = Retval.not_recoverable
spinlock_lock (some Errno.eownerdead) = Retval.owner_dead
spinlock_lock (some Errno.edeadlk) = Retval.dead_lock
spinlock_lock (some _) = Retval.unavailable

-- osal_spinlock_unlock
pub spinlock_unlock : Answer → Retval
spinlock_unlock none = Retval.ok
spinlock_unlock (some Errno.eperm) = Retval.permission_denied
spinlock_unlock (some _) = Retval.unavailable

-- osal_spinlock_destroy
pub spinlock_destroy : Answer → Retval
spinlock_destroy none = Retval.ok
spinlock_destroy (some _) = Retval.operation_failed
