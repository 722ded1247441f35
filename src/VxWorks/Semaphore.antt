-- ===== src/VxWorks/Semaphore.antt =====
-- Semaphores and binary semaphores on VxWorks (src/vxworks/semaphore.c and
-- src/vxworks/binary_semaphore.c), over a semaphore of the kernel with the states `S`. What the
-- kernel answers is dropped.
use libosal.Prelude.{ℕ, ◌≡◌, refl, Bool, true, false, arith}
use libosal.Osal.{Retval}
use libosal.Timer.{Timer}
use libosal.Contract.Counting.{CountingContract}
use libosal.VxWorks.{Status, Patience}

module _ {S : Type 0} where
  -- osal_semaphore_init, over semCCreate.
  unfoldable pub semaphore_init : (ℕ → S) → ℕ → Retval × S
  semaphore_init sem_c_create initval = (Retval.ok, sem_c_create initval)

  -- osal_binary_semaphore_init, over semBCreate.
  pub binary_semaphore_init : S → Retval × S
  binary_semaphore_init sem_b_create = (Retval.ok, sem_b_create)

  -- osal_semaphore_post and osal_binary_semaphore_post
  unfoldable pub semaphore_post : (S → Status × S) → S → Retval × S
  semaphore_post sem_give sem = (Retval.ok, (sem_give sem).1)

  -- osal_semaphore_wait and osal_binary_semaphore_wait
  pub semaphore_wait : (Patience → S → Status × S) → S → Retval × S
  semaphore_wait sem_take sem = (Retval.ok, (sem_take Patience.wait_forever sem).1)

  -- osal_semaphore_trywait and osal_binary_semaphore_trywait
  pub semaphore_trywait : (Patience → S → Status × S) → S → Retval × S
  semaphore_trywait sem_take sem = (Retval.ok, (sem_take Patience.no_wait sem).1)

  -- osal_semaphore_timedwait and osal_binary_semaphore_timedwait. The ticks of the timer, which the
  -- code computes in `double`, are a parameter.
  pub semaphore_timedwait : (Timer → ℕ) → (Patience → S → Status × S) → S → Timer → Retval × S
  semaphore_timedwait ticks_of sem_take sem to =
      (Retval.ok, (sem_take (Patience.ticks (ticks_of to)) sem).1)

  -- osal_semaphore_destroy and osal_binary_semaphore_destroy
  pub semaphore_destroy : (S → Status) → S → Retval
  semaphore_destroy sem_delete sem = Retval.ok

abbrev pub is_done : Status → Bool
is_done Status.ok = true
is_done _ = false

module _ {S : Type 0} (kernel : CountingContract is_done is_done S)
    (blocking : Patience → S → Status × S) where
  abbrev pub sem_take : Patience → S → Status × S
  sem_take Patience.no_wait = kernel.trywait
  sem_take patience = blocking patience

  -- On a semaphore whose count is 0 osal_semaphore_trywait returns OSAL_OK though the kernel refuses
  -- the call, and takes nothing: the count stays 0. The kernel's semaphore counts.
  pub trywait_takes_nothing :
      (sem : S)
      → kernel.count sem ≡ 0
      → ((semaphore_trywait sem_take sem).0 ≡ Retval.ok)
        × (is_done (sem_take Patience.no_wait sem).0 ≡ false)
        × (kernel.count (semaphore_trywait sem_take sem).1 ≡ 0)
  unfolding semaphore_trywait
  trywait_takes_nothing sem empty =
      (refl, ground (arith, kernel.trywait_answers sem), ground (arith, kernel.trywait_counts sem))
