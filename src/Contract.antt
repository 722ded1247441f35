-- ===== src/Contract.antt =====
-- What the interface promises of semaphores, for any port: include/libosal/binary_semaphore.h and
-- include/libosal/semaphore.h as records of operations and laws, which the ports fill.
pub mod Binary
pub mod Counting
pub mod Samples
