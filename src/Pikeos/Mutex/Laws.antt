-- ===== src/Pikeos/Mutex/Laws.antt =====
-- Who has a mutex on PikeOS.
use libosal.Prelude.{ℕ, ◌≡◌, Option, none, some, arith}
use libosal.Osal.{Retval}
use libosal.Pikeos.{P4Error}
use libosal.Pikeos.Mutex.{mutex_lock, mutex_unlock}

-- What the kernel documents of a mutex that is not recursive: `owner` is the task that has it. A
-- lock of a free one takes it, and the unlock by its owner frees it.
pub record KernelMutex (S : Type 0) : Type 0 where
  pub owner : S → Option ℕ
  pub lock : ℕ → S → P4Error × S
  pub unlock : ℕ → S → P4Error × S
  pub lock_free :
      (i : ℕ) (s : S) → owner s ≡ none → ((lock i s).0 ≡ P4Error.ok) × (owner (lock i s).1 ≡ some i)
  pub unlock_owner :
      (i : ℕ) (s : S)
      → owner s ≡ some i
      → ((unlock i s).0 ≡ P4Error.ok) × (owner (unlock i s).1 ≡ none)

module _ {S : Type 0} (kernel : KernelMutex S) where
  -- A task that locks a free mutex gets OSAL_OK and has it, and after its unlock, which also returns
  -- OSAL_OK, the mutex is free again. The kernel keeps its mutex as documented.
  pub unlock-lock :
      (i : ℕ) (mtx : S)
      → kernel.owner mtx ≡ none
      → let locked = mutex_lock kernel.lock i mtx in
        let unlocked = mutex_unlock kernel.unlock i locked.1 in
        (locked.0 ≡ Retval.ok)
        × (kernel.owner locked.1 ≡ some i)
        × (unlocked.0 ≡ Retval.ok)
        × (kernel.owner unlocked.1 ≡ none)
  unfolding mutex_lock mutex_unlock
  unlock-lock i mtx free =
      let (ok, taken) = kernel.lock_free i mtx free in
      let (ok', left) = kernel.unlock_owner i (kernel.lock i mtx).1 taken in
      (ground (arith, ok), taken, ground (arith, ok'), left)
