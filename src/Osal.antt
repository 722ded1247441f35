-- ===== src/Osal.antt =====
-- Return codes (include/libosal/osal.h.in) and the error numbers of the system calls.
use libosal.Prelude.{ℕ, Bool, true, false}

-- `osal_retval_t`: OSAL_OK and the OSAL_ERR_ codes.
pub data Retval : Type 0 where
  ok operation_failed invalid_param permission_denied system_limit_reached timeout unavailable
        out_of_memory not_recoverable owner_dead dead_lock busy not_found not_implemented no_data
        interrupted mutex_is_locked :
      Retval

-- The error numbers that the library tells apart; any other one is `other`.
pub data Errno : Type 0 where
  eacces eagain ebadf ebusy edeadlk eexist einval eintr emfile emsgsize enametoolong enfile enodev
        enoent enomem enospc enosys enotrecoverable eoverflow eownerdead eperm esrch etimedout
        etxtbsy :
      Errno
  other : ℕ → Errno

-- The test `ret == OSAL_OK`.
abbrev pub is_ok : Retval → Bool
is_ok Retval.ok = true
is_ok _ = false

-- The test `ret == OSAL_ERR_TIMEOUT`.
abbrev pub is_timeout : Retval → Bool
is_timeout Retval.timeout = true
is_timeout _ = false
