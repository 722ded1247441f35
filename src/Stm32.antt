-- ===== src/Stm32.antt =====
-- The port to STM32 microcontrollers (src/stm32), one core without an operating system.
pub mod BinarySemaphore
pub mod Clock
pub mod Semaphore
pub mod Sleep
mod Tests
