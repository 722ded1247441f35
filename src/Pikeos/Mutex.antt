-- ===== src/Pikeos/Mutex.antt =====
-- Mutexes and condition variables on PikeOS (src/pikeos/mutex.c and src/pikeos/condvar.c), over
-- those of the kernel. The port is built without p4_mutex_init_ext.
pub mod Laws
use libosal.Prelude.{ℕ, ◌+◌, ◌/◌, ◌%◌, Bool, true, false, Option, none, some, ◌==◌, if◌then◌else◌}
use libosal.Osal.{Retval}
use libosal.Timer.{Timer}
use libosal.Pikeos.{P4Error}
use libosal.Pikeos.Clock.{abs_time}

-- The flags for p4_mutex_init.
pub record MutexFlags : Type 0 where
  pub shared : Bool
  pub robust : Bool
  pub recursive : Bool

-- osal_mutex_init, by the flags that p4_mutex_init is given; `none` is no attributes. Bit 5 of the
-- attributes is PROCESS_SHARED, bit 4 ROBUST, and bits 0 and 1 are the type.
mutex_flags : Option ℕ → MutexFlags
mutex_flags none = record { shared = false; robust = false; recursive = false }
mutex_flags (some attr) = record {
  shared = attr / 32 % 2 == 1;
  robust = attr / 16 % 2 == 1;
  recursive = attr % 4 == 2;
}

abbrev lock_retval : P4Error → Retval
lock_retval P4Error.ok = Retval.ok
lock_retval P4Error.state = Retval.busy
lock_retval P4Error.limit = Retval.system_limit_reached
lock_retval P4Error.timeout = Retval.timeout
lock_retval P4Error.badtimeout = Retval.invalid_param
lock_retval P4Error.baduid = Retval.invalid_param
lock_retval P4Error.inval = Retval.invalid_param
lock_retval _ = Retval.unavailable

abbrev unlock_retval : P4Error → Retval
unlock_retval P4Error.ok = Retval.ok
unlock_retval P4Error.state = Retval.mutex_is_locked
unlock_retval _ = Retval.operation_failed

module _ {S : Type 0} where
  -- osal_mutex_init
  pub mutex_init : (MutexFlags → S) → Option ℕ → Retval × S
  unfolding mutex_flags
  mutex_init p4_mutex_init attr = (Retval.ok, p4_mutex_init (mutex_flags attr))

  -- osal_mutex_lock, for p4_mutex_lock by the calling task.
  unfoldable pub mutex_lock : (ℕ → S → P4Error × S) → ℕ → S → Retval × S
  mutex_lock p4_mutex_lock task mtx =
      let (local_ret, mtx') = p4_mutex_lock task mtx in (lock_retval local_ret, mtx')

  -- osal_mutex_trylock: the `if` on the code is empty.
  unfoldable pub mutex_trylock : (ℕ → S → P4Error × S) → ℕ → S → Retval × S
  mutex_trylock p4_mutex_trylock task mtx =
      let (local_ret, mtx') = p4_mutex_trylock task mtx in (Retval.ok, mtx')

  -- osal_mutex_unlock
  pub mutex_unlock : (ℕ → S → P4Error × S) → ℕ → S → Retval × S
  mutex_unlock p4_mutex_unlock task mtx =
      let (local_ret, mtx') = p4_mutex_unlock task mtx in (unlock_retval local_ret, mtx')

  -- osal_mutex_destroy
  pub mutex_destroy : S → Retval × S
  mutex_destroy mtx = (Retval.ok, mtx)

-- osal_condvar_init: whether P4_COND_SHARED is set.
abbrev condvar_shared : Option ℕ → Bool
condvar_shared none = false
condvar_shared (some attr) = attr / 32 % 2 == 1

-- osal_condvar_signal and osal_condvar_broadcast, for p4_cond_wake and p4_cond_broadcast.
abbrev condvar_signal : P4Error → Retval
condvar_signal P4Error.ok = Retval.ok
condvar_signal P4Error.inval = Retval.invalid_param
condvar_signal P4Error.noability = Retval.permission_denied
condvar_signal _ = Retval.operation_failed

-- osal_condvar_wait, for p4_cond_wait.
abbrev condvar_wait : P4Error → Retval
condvar_wait P4Error.ok = Retval.ok
condvar_wait P4Error.state = Retval.invalid_param
condvar_wait _ = Retval.operation_failed

abbrev condvar_timedwait_retval : P4Error → Retval
condvar_timedwait_retval P4Error.ok = Retval.ok
condvar_timedwait_retval P4Error.state = Retval.invalid_param
condvar_timedwait_retval P4Error.timeout = Retval.timeout
condvar_timedwait_retval _ = Retval.operation_failed

-- osal_condvar_timedwait, over p4_cond_wait with an absolute time.
pub condvar_timedwait : (ℕ → P4Error) → Timer → Option Retval
condvar_timedwait p4_cond_wait to = elim (abs_time to) [
  | none ↦ none
  | some timeout ↦ some (condvar_timedwait_retval (p4_cond_wait timeout))
]

-- osal_condvar_destroy
abbrev condvar_destroy : Retval
condvar_destroy = Retval.ok
