-- ===== src/VxWorks.antt =====
-- The port to VxWorks (src/vxworks). What the calls of the kernel return is a number, of
-- which the port tells four apart.
pub mod Semaphore
pub mod Mutex
pub mod Clock
pub mod Condvar
pub mod Task
mod Tests
use libosal.Prelude.{ℕ}

-- OK, the three numbers of objLib, and any other one.
pub data Status : Type 0 where
  ok obj_unavailable obj_id_error obj_timeout other_status : Status

-- The time of a semTake: NO_WAIT, WAIT_FOREVER or a number of ticks.
pub data Patience : Type 0 where
  no_wait wait_forever : Patience
  ticks : ℕ → Patience
