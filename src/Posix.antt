-- ===== src/Posix.antt =====
-- The POSIX port (src/posix). What the kernel and the C library answer is an argument.
pub mod Retry
pub mod Clock
pub mod Sleep
pub mod BinarySemaphore
pub mod Semaphore
pub mod Condvar
pub mod Mq
pub mod Mutex
pub mod Spinlock
pub mod Shm
pub mod Task
