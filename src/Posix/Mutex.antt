-- ===== src/Posix/Mutex.antt =====
-- Mutexes of the POSIX port (src/posix/mutex.c): the settings that osal_mutex_init makes from the
-- attributes, and the codes for the error numbers. A call of the system answers with 0, here `none`,
-- or with an error number. The port is built with robust mutexes and ENOTRECOVERABLE.
pub mod Laws
mod Tests
use libosal.Prelude.{
  ℕ, ◌+◌, ◌*◌, ◌/◌, ◌%◌, ◌^◌, Bool, true, false, Option, none, some, ◌==◌, if◌then◌else◌,
}
use libosal.Osal.{Retval, Errno}
use libosal.Posix.Retry.{Answer}

-- PTHREAD_MUTEX_NORMAL, PTHREAD_MUTEX_ERRORCHECK and PTHREAD_MUTEX_RECURSIVE.
pub data Kind : Type 0 where
  normal errorcheck recursive : Kind

-- PTHREAD_PRIO_NONE, PTHREAD_PRIO_INHERIT and PTHREAD_PRIO_PROTECT.
pub data Protocol : Type 0 where
  no_protocol inherit protect : Protocol

-- What osal_mutex_init sets in `posix_attr`; `none` and `false` where it leaves the default.
pub record Settings : Type 0 where
  pub kind : Option Kind
  pub robust : Bool
  pub process_shared : Bool
  pub protocol : Option Protocol
  pub prioceiling : Option ℕ

-- `attr & OSAL_MUTEX_ATTR__TYPE__MASK`
abbrev pub kind_of : ℕ → Option Kind
kind_of bits =
    if bits == 0
    then some Kind.normal
    else if bits == 1
    then some Kind.errorcheck
    else if bits == 2
    then some Kind.recursive
    else none

-- `attr & OSAL_MUTEX_ATTR__PROTOCOL__MASK`, by its place.
abbrev pub protocol_of : ℕ → Option Protocol
protocol_of bits =
    if bits == 0
    then some Protocol.no_protocol
    else if bits == 1
    then some Protocol.inherit
    else if bits == 2
    then some Protocol.protect
    else none

-- The decoding of the attributes: bits 0 and 1 are the type, bit 4 is ROBUST, bit 5 PROCESS_SHARED,
-- bits 8 and 9 are the protocol, bits 16 to 31 the priority ceiling, of which 0 is none.
pub mutex_settings : ℕ → Settings
mutex_settings attr = record {
  kind = kind_of (attr % 4);
  robust = attr / 16 % 2 == 1;
  process_shared = attr / 32 % 2 == 1;
  protocol = protocol_of (attr / 256 % 4);
  prioceiling = if attr / 2 ^ 16 % 2 ^ 16 == 0 then none else some (attr / 2 ^ 16 % 2 ^ 16);
}

abbrev init_retval : Answer → Retval
init_retval none = Retval.ok
init_retval (some Errno.eagain) = Retval.system_limit_reached
init_retval (some Errno.enomem) = Retval.out_of_memory
init_retval (some Errno.eperm) = Retval.permission_denied
init_retval (some Errno.einval) = Retval.invalid_param
init_retval (some _) = Retval.unavailable

abbrev settings_of : Option ℕ → Option Settings
settings_of none = none
settings_of (some attr) = some (mutex_settings attr)

-- osal_mutex_init, over pthread_mutex_init at its settings, `none` being NULL.
unfoldable pub mutex_init : (Option Settings → Answer) → Option ℕ → Retval
mutex_init system attr = init_retval (system (settings_of attr))

-- osal_mutex_lock
unfoldable pub mutex_lock : Answer → Retval
mutex_lock none = Retval.ok
mutex_lock (some Errno.eagain) = Retval.system_limit_reached
mutex_lock (some Errno.einval) = Retval.invalid_param
mutex_lock (some Errno.enotrecoverable) = Retval.not_recoverable
mutex_lock (some Errno.eownerdead) = Retval.owner_dead
mutex_lock (some Errno.edeadlk) = Retval.dead_lock
mutex_lock (some _) = Retval.unavailable

-- osal_mutex_trylock
pub mutex_trylock : Answer → Retval
mutex_trylock none = Retval.ok
mutex_trylock (some Errno.eagain) = Retval.system_limit_reached
mutex_trylock (some Errno.einval) = Retval.invalid_param
mutex_trylock (some Errno.enotrecoverable) = Retval.not_recoverable
mutex_trylock (some Errno.eownerdead) = Retval.owner_dead
mutex_trylock (some Errno.ebusy) = Retval.busy
mutex_trylock (some _) = Retval.unavailable

-- osal_mutex_unlock
unfoldable pub mutex_unlock : Answer → Retval
mutex_unlock none = Retval.ok
mutex_unlock (some Errno.eperm) = Retval.permission_denied
mutex_unlock (some _) = Retval.unavailable

-- osal_mutex_destroy
unfoldable pub mutex_destroy : Answer → Retval
mutex_destroy none = Retval.ok
mutex_destroy (some _) = Retval.operation_failed
