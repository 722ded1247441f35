-- ===== src/Win32.antt =====
-- The port to Windows (src/win32).
pub mod Semaphore
mod Tests

-- What WaitForSingleObject returns; `other_wait` is any other value.
pub data Waited : Type 0 where
  object abandoned timeout failed other_wait : Waited
