-- ===== src/Posix/Semaphore/Laws.antt =====
-- The deadline that osal_semaphore_timedwait computes, and the codes that it returns.
use libosal.Prelude.{
  ℕ, ◌+◌, ◌-◌, ◌/◌, ◌%◌, ◌^◌, ◌<◌, ◌≤◌, ◌≡◌, ◌≢◌, ◌↔◌, sym, Option, some, ltb, ◌==◌, if◌then◌else◌,
  arith, Bool-cases, ltb→lt, inl, inr, ◌⊎◌,
}
use libosal.Posix.Retry.{Answer, retry_lem}
use libosal.Osal.{Retval, Errno}
use libosal.Timer.{Timer, nsec_per_sec, nanos, IsNormal, timer_to_nsec}
use libosal.Posix.Clock.{Clock, timer_gettime_nsec}
use libosal.Posix.Clock.Laws.{Works, reading}
use libosal.Posix.Semaphore.{
  clock_realtime, realtime_deadline, pshared, semaphore_init, timedwait_retval, semaphore_timedwait,
}

timer_to_nsec-nanos : (to : Timer) → nanos to < 2 ^ 64 → timer_to_nsec to ≡ nanos to
unfolding timer_to_nsec
timer_to_nsec-nanos to h = omega arith

gettime_nsec-nanos :
    (clock : Clock) (id : ℕ)
    → Works (clock id)
    → nanos (reading (clock id)) < 2 ^ 64
    → timer_gettime_nsec clock id ≡ nanos (reading (clock id))
unfolding timer_gettime_nsec
gettime_nsec-nanos clock id w h = ground arith

-- The deadline in the words that the code computes with.
words_deadline :
    (clock later : Clock) (id : ℕ) (to : Timer)
    → id ≢ clock_realtime
    → Works (later clock_realtime)
    → timer_gettime_nsec clock id ≤ timer_to_nsec to
    → (later clock_realtime).tv_sec
        + (timer_to_nsec to - timer_gettime_nsec clock id) / nsec_per_sec
        + 1
      < 2 ^ 64
    → (ts : Timer) × (realtime_deadline clock later id to ≡ some ts)
      × (nanos ts
          ≡ nanos (reading (later clock_realtime))
            + (timer_to_nsec to - timer_gettime_nsec clock id))
      × (IsNormal ts ↔ (
          (later clock_realtime).tv_nsec
            + (timer_to_nsec to - timer_gettime_nsec clock id) % nsec_per_sec
          ≢ nsec_per_sec))
unfolding realtime_deadline
words_deadline clock later id to other w reached small =
    let left = timer_to_nsec to - timer_gettime_nsec clock id in
    let now = later clock_realtime in
    let sec = now.tv_sec + left / nsec_per_sec in
    let nsec = now.tv_nsec + left % nsec_per_sec in
    elim (Bool-cases (ltb nsec_per_sec nsec)) [
      | inl e ↦
          let more = ltb→lt nsec_per_sec nsec e in
          (
            record { sec = sec + 1; nsec = nsec - nsec_per_sec },
            ground arith,
            omega (arith, more),
            (λ p q. omega (arith, more, q), λ p. omega (arith, w.normal)),
          )
      | inr e ↦ (
        record { sec = sec; nsec = nsec },
        ground arith,
        omega arith,
        (λ p q. omega (arith, p, q), λ p. ground arith),
      )
    ]

-- With another clock than CLOCK_REALTIME, two clocks that work, a deadline and a reading of the clock
-- of the library that fit 64 bits as nanoseconds, and seconds of the sum that fit 64 bits: where the
-- deadline is not over on that clock, the deadline for sem_timedwait is as far from the reading of
-- CLOCK_REALTIME, in nanoseconds, as the given one is from the reading of that clock. It has a second
-- in its nanoseconds, which sem_timedwait refuses, exactly where the two parts below a second add
-- up to one.
pub realtime_deadline_lem :
    (clock later : Clock) (id : ℕ) (to : Timer)
    → id ≢ clock_realtime
    → Works (clock id)
    → Works (later clock_realtime)
    → nanos to < 2 ^ 64
    → nanos (reading (clock id)) ≤ nanos to
    → (later clock_realtime).tv_sec + (nanos to - nanos (reading (clock id))) / nsec_per_sec + 1
      < 2 ^ 64
    → (ts : Timer) × (realtime_deadline clock later id to ≡ some ts)
      × (nanos ts
          ≡ nanos (reading (later clock_realtime)) + (nanos to - nanos (reading (clock id))))
      × (IsNormal ts ↔ (
          (later clock_realtime).tv_nsec + (nanos to - nanos (reading (clock id))) % nsec_per_sec
          ≢ nsec_per_sec))
realtime_deadline_lem clock later id to other v w fits reached small =
    let to_exact = timer_to_nsec-nanos to fits in
    let act_exact = gettime_nsec-nanos clock id v (omega arith) in
    rw (sym to_exact, sym act_exact)
      (words_deadline clock later id to other w (rw (to_exact, act_exact) reached)
        (rw (to_exact, act_exact) small))

-- With another clock than CLOCK_REALTIME, osal_semaphore_timedwait returns OSAL_ERR_TIMEOUT without
-- a call of sem_timedwait where the deadline is over.
pub timedwait_over :
    (clock later : Clock) (id : ℕ) (sem_timedwait : ℕ → Timer → Answer) (fuel : ℕ) (to : Timer)
    → id ≢ clock_realtime
    → timer_to_nsec to < timer_gettime_nsec clock id
    → semaphore_timedwait clock later id sem_timedwait fuel to ≡ some Retval.timeout
unfolding semaphore_timedwait realtime_deadline
timedwait_over clock later id sem_timedwait fuel to other over = ground arith

-- Where there is a deadline, osal_semaphore_timedwait calls sem_timedwait with it, again as long as
-- it is interrupted, and returns the code of the first other answer.
pub timedwait_lem :
    (clock later : Clock) (id : ℕ) (sem_timedwait : ℕ → Timer → Answer) (fuel n : ℕ) (to ts : Timer)
    → realtime_deadline clock later id to ≡ some ts
    → n < fuel
    → ((m : ℕ) → m < n → sem_timedwait m ts ≡ some Errno.eintr)
    → sem_timedwait n ts ≢ some Errno.eintr
    → semaphore_timedwait clock later id sem_timedwait fuel to
      ≡ some (timedwait_retval (sem_timedwait n ts))
unfolding semaphore_timedwait
timedwait_lem clock later id sem_timedwait fuel n to ts e h go stop =
    let first = retry_lem (λ m. sem_timedwait m ts) timedwait_retval fuel n h go stop in
    ground (arith, e, first)

-- osal_semaphore_init over a sem_init that answers as documented, with 0 or with -1, returns OK
-- after 0 and OSAL_ERR_INVALID_PARAM after -1, whatever the cause: the test for ENOSYS, which is
-- positive, is never true.
pub semaphore_init_lem :
    (sem_init : ℕ → ℕ → ℕ) (attr : Option ℕ) (initval : ℕ)
    → (sem_init (pshared attr) initval ≡ 0) ⊎ (sem_init (pshared attr) initval ≡ 2 ^ 32 - 1)
    → semaphore_init sem_init attr initval
      ≡ (if sem_init (pshared attr) initval == 0 then Retval.ok else Retval.invalid_param)
unfolding semaphore_init
semaphore_init_lem sem_init attr initval documented = ground arith
