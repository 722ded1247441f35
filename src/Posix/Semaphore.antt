-- ===== src/Posix/Semaphore.antt =====
-- Counting semaphores of the POSIX port (src/posix/semaphore.c). The count is the system's; a call
-- of it answers with 0 or with an error number. osal_semaphore_timedwait turns a deadline of the
-- clock of the library into one of CLOCK_REALTIME, and calls again when it is interrupted.
pub mod Laws
mod Tests
use libosal.Prelude.{
  ℕ, ◌+◌, ◌-◌, ◌*◌, ◌/◌, ◌%◌, ◌^◌, Bool, true, false, Option, none, some, ltb, ◌==◌, if◌then◌else◌,
}
use libosal.Prelude.Word.{add64}
use libosal.Osal.{Retval, Errno}
use libosal.Timer.{Timer, nsec_per_sec, timer_to_nsec}
use libosal.Posix.Retry.{Answer, retry}
use libosal.Posix.Clock.{Clock, timer_gettime_nsec}

-- CLOCK_REALTIME
abbrev pub clock_realtime : ℕ
clock_realtime = 0

-- ENOSYS
abbrev pub enosys : ℕ
enosys = 38

-- `if ((attr & OSAL_SEMAPHORE_ATTR__PROCESS_SHARED) == ...) { pshared = 1; }`: the bit of value 32.
abbrev pub pshared : Option ℕ → ℕ
pshared none = 0
pshared (some attr) = if attr / 32 % 2 == 1 then 1 else 0

-- osal_semaphore_init, over sem_init at its two arguments: what it returns is a word of 32 bits.
pub semaphore_init : (ℕ → ℕ → ℕ) → Option ℕ → ℕ → Retval
semaphore_init sem_init attr initval =
    let local_ret = sem_init (pshared attr) initval in
    if local_ret == 0
    then Retval.ok
    else if local_ret == enosys
    then Retval.not_implemented
    else Retval.invalid_param

-- osal_semaphore_post
pub semaphore_post : Answer → Retval
semaphore_post none = Retval.ok
semaphore_post (some Errno.einval) = Retval.invalid_param
semaphore_post (some _) = Retval.operation_failed

-- osal_semaphore_wait
pub semaphore_wait : Answer → Retval
semaphore_wait none = Retval.ok
semaphore_wait (some Errno.eintr) = Retval.interrupted
semaphore_wait (some _) = Retval.invalid_param

-- osal_semaphore_trywait
pub semaphore_trywait : Answer → Retval
semaphore_trywait none = Retval.ok
semaphore_trywait (some Errno.eagain) = Retval.busy
semaphore_trywait (some _) = Retval.operation_failed

-- osal_semaphore_destroy
pub semaphore_destroy : Answer → Retval
semaphore_destroy none = Retval.ok
semaphore_destroy (some _) = Retval.invalid_param

-- The deadline for sem_timedwait, `none` where it is over already. The clock of the library is read
-- at one moment, CLOCK_REALTIME at a second one.
pub realtime_deadline : Clock → Clock → ℕ → Timer → Option Timer
realtime_deadline clock later global_clock_id to =
    let to_nsec = timer_to_nsec to in
    let act_nsec = timer_gettime_nsec clock global_clock_id in
    let now = later clock_realtime in
    let tv_sec = add64 now.tv_sec ((to_nsec - act_nsec) / nsec_per_sec) in
    let tv_nsec = now.tv_nsec + (to_nsec - act_nsec) % nsec_per_sec in
    if global_clock_id == clock_realtime
    then some to
    else if ltb to_nsec act_nsec
    then none
    else if ltb nsec_per_sec tv_nsec
    then some (record { sec = add64 tv_sec 1; nsec = tv_nsec - nsec_per_sec })
    else some (record { sec = tv_sec; nsec = tv_nsec })

-- The code of osal_semaphore_timedwait for the last answer.
abbrev pub timedwait_retval : Answer → Retval
timedwait_retval none = Retval.ok
timedwait_retval (some Errno.einval) = Retval.invalid_param
timedwait_retval (some Errno.etimedout) = Retval.timeout
timedwait_retval (some _) = Retval.operation_failed

-- osal_semaphore_timedwait, over sem_timedwait at its n-th call and the deadline.
pub semaphore_timedwait : Clock → Clock → ℕ → (ℕ → Timer → Answer) → ℕ → Timer → Option Retval
semaphore_timedwait clock later global_clock_id sem_timedwait fuel to =
    elim (realtime_deadline clock later global_clock_id to) [
      | none ↦ some Retval.timeout
      | some ts ↦ retry (λ n. sem_timedwait n ts) timedwait_retval fuel
    ]
