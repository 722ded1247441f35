-- ===== src/Pikeos/Semaphore.antt =====
-- Semaphores and binary semaphores on PikeOS (src/pikeos/semaphore.c and
-- src/pikeos/binary_semaphore.c). Both are a semaphore of the kernel, with the states `S`, and a
-- call of the kernel on it is an argument.
pub mod Laws
use libosal.Prelude.{ℕ, Option, none, some}
use libosal.Osal.{Retval}
use libosal.Timer.{Timer}
use libosal.Pikeos.{P4Error}
use libosal.Pikeos.Clock.{abs_time}

abbrev pub post_retval : P4Error → Retval
post_retval P4Error.ok = Retval.ok
post_retval P4Error.inval = Retval.invalid_param
post_retval _ = Retval.operation_failed

abbrev pub wait_retval : P4Error → Retval
wait_retval P4Error.ok = Retval.ok
wait_retval P4Error.badtimeout = Retval.invalid_param
wait_retval P4Error.timeout = Retval.invalid_param
wait_retval P4Error.inval = Retval.invalid_param
wait_retval _ = Retval.operation_failed

abbrev pub trywait_retval : P4Error → Retval
trywait_retval P4Error.ok = Retval.ok
trywait_retval _ = Retval.busy

-- The codes of osal_semaphore_timedwait.
abbrev pub timedwait_retval : P4Error → Retval
timedwait_retval P4Error.ok = Retval.ok
timedwait_retval P4Error.timeout = Retval.timeout
timedwait_retval P4Error.badtimeout = Retval.invalid_param
timedwait_retval P4Error.inval = Retval.invalid_param
timedwait_retval P4Error.limit = Retval.system_limit_reached
timedwait_retval P4Error.noability = Retval.permission_denied
timedwait_retval _ = Retval.operation_failed

-- The codes of osal_binary_semaphore_timedwait.
abbrev binary_timedwait_retval : P4Error → Retval
binary_timedwait_retval P4Error.ok = Retval.ok
binary_timedwait_retval P4Error.timeout = Retval.timeout
binary_timedwait_retval P4Error.badtimeout = Retval.invalid_param
binary_timedwait_retval P4Error.inval = Retval.invalid_param
binary_timedwait_retval _ = Retval.operation_failed

module _ {S : Type 0} where
  -- osal_semaphore_init
  pub semaphore_init : (ℕ → ℕ → S) → ℕ → Retval × S
  semaphore_init p4_sem_init initval = (Retval.ok, p4_sem_init initval 0)

  -- osal_binary_semaphore_init
  pub binary_semaphore_init : (ℕ → ℕ → S) → Retval × S
  binary_semaphore_init p4_sem_init = (Retval.ok, p4_sem_init 0 1)

  -- osal_semaphore_post, and osal_binary_semaphore_post with the same codes.
  pub semaphore_post : (S → P4Error × S) → S → Retval × S
  semaphore_post p4_sem_post sem =
      let (local_ret, sem') = p4_sem_post sem in (post_retval local_ret, sem')

  -- osal_semaphore_wait, and osal_binary_semaphore_wait with the same codes.
  pub semaphore_wait : (S → P4Error × S) → S → Retval × S
  semaphore_wait p4_sem_wait sem =
      let (local_ret, sem') = p4_sem_wait sem in (wait_retval local_ret, sem')

  -- osal_semaphore_trywait, and osal_binary_semaphore_trywait with the same codes.
  pub semaphore_trywait : (S → P4Error × S) → S → Retval × S
  semaphore_trywait p4_sem_trywait sem =
      let (local_ret, sem') = p4_sem_trywait sem in (trywait_retval local_ret, sem')

  -- osal_semaphore_timedwait, over p4_sem_wait with an absolute time.
  pub semaphore_timedwait : (ℕ → S → P4Error × S) → S → Timer → Option (Retval × S)
  semaphore_timedwait p4_sem_wait sem to = elim (abs_time to) [
    | none ↦ none
    | some timeout ↦
        let (local_ret, sem') = p4_sem_wait timeout sem in some (timedwait_retval local_ret, sem')
  ]

  -- osal_binary_semaphore_timedwait
  pub binary_semaphore_timedwait : (ℕ → S → P4Error × S) → S → Timer → Option (Retval × S)
  binary_semaphore_timedwait p4_sem_wait sem to = elim (abs_time to) [
    | none ↦ none
    | some timeout ↦
        let (local_ret, sem') = p4_sem_wait timeout sem in
        some (binary_timedwait_retval local_ret, sem')
  ]
