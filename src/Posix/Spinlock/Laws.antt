-- ===== src/Posix/Spinlock/Laws.antt =====
-- Spinlocks and mutexes have the same codes.
use libosal.Prelude.{◌≡◌, none, arith}
use libosal.Posix.Retry.{Answer}
use libosal.Posix.Mutex.{mutex_init, mutex_lock, mutex_unlock, mutex_destroy}
use libosal.Posix.Spinlock.{spinlock_init, spinlock_lock, spinlock_unlock, spinlock_destroy}

-- For every answer of the system, the functions of a spinlock return the code of the functions of a
-- mutex with the same names.
spinlock-mutex :
    (answer : Answer)
    → (spinlock_init answer ≡ mutex_init (λ settings. answer) none)
      × (spinlock_lock answer ≡ mutex_lock answer)
      × (spinlock_unlock answer ≡ mutex_unlock answer)
      × (spinlock_destroy answer ≡ mutex_destroy answer)
unfolding spinlock_init spinlock_lock spinlock_unlock spinlock_destroy mutex_init mutex_lock
    mutex_unlock mutex_destroy
spinlock-mutex answer = (ground arith, ground arith, ground arith, ground arith)
