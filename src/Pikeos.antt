-- ===== src/Pikeos.antt =====
-- The port to PikeOS (src/pikeos). The kernel answers a call with a code of type `P4_e_t`.
pub mod Clock
pub mod Mutex
pub mod Task
pub mod Semaphore
pub mod Shm
mod Tests
use libosal.Prelude.{ℕ}

-- The codes of the kernel that the port tells apart; any other one is `other`.
pub data P4Error : Type 0 where
  ok inval badtimeout timeout limit noability state perm restricted notimpl name noent oofile
        nocontainer cancel size overflow nokmem baduid :
      P4Error
  other : ℕ → P4Error
