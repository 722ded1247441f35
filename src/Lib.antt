-- ===== src/Lib.antt =====
-- libosal: an operating system abstraction layer, modelled and proved.
--
-- The library gives a program one interface for clocks, sleeping, locks, semaphores, shared memory,
-- message queues, traces of times and printing; this development is about the code that all ports
-- share, about the POSIX port, and about the clocks, locks, semaphores and tasks of the others. A
-- function of the program is a function here, with its state as an argument and as a result; `none`
-- is a fault (an access out of range, a null pointer, a division by zero, a signed overflow) or,
-- where a function takes fuel, a loop that has not returned. Where tasks run at the same time, the
-- code between two accesses to what they share is a step, and the steps interleave in any order.
--
-- - Prelude: names that the modules share. Prelude/Word has machine words, Prelude/Loop the loops
--   over answers of the system, Prelude/Memory arrays, Prelude/Bytes memory as bytes and strncpy.
-- - Osal: the return codes of include/libosal/osal.h.in and the error numbers of system calls.
-- - Timer: `osal_timer_t` and the macros of include/libosal/timer.h. Seconds and nanoseconds are
--   64-bit words; a comparison with 1E9 converts to double, which is written out.
-- - Posix/Clock: the clock, deadlines and expiry of src/posix/timer.c. The clock of the system is a
--   parameter.
-- - Posix/Sleep: osal_sleep, osal_sleep_until and osal_sleep_until_nsec of src/posix/timer.c, and
--   osal_busy_wait_until_nsec of src/timer.c. Their loops take fuel, one unit for a call; the
--   theorems say how much is enough.
-- - Posix/BinarySemaphore: src/posix/binary_semaphore.c as steps of any number of tasks between the
--   calls of a mutex and a condition variable. osal_trace_time posts to it.
-- - Posix/Retry: the loop that calls again after EINTR, of src/posix/semaphore.c, src/posix/mq.c and
--   osal_sleep_until.
-- - Posix/Semaphore, Posix/Condvar, Posix/Mq, Posix/Mutex, Posix/Spinlock, Posix/Shm: the files of
--   these names under src/posix. What they guard or carry is the system's, so they are functions of
--   its answers: flags and attributes that reach it, deadlines, loops and return codes.
-- - Posix/Task: src/posix/task.c over the policies, priorities and CPUs that the system keeps for
--   each thread. Affinity has the masks, Lifecycle the start and the end of tasks; Mask, Start
--   and Attributes are about them. Handover is the start as steps of osal_task_create and of posix_task_wrapper.
-- - Trace: src/trace.c. Alloc is the memory of a trace, Record the double buffer against a log of
--   samples, Analyze the four functions that compute statistics, with the rounding of `sqrt` as a
--   parameter. Overrun has the recording that goes on while the analysis reads.
-- - Io: src/io.c, the ring of messages in shared memory. Queue is the queue that the ring
--   implements, Slots the bytes, Ring and History the refinement, Setup osal_io_shm_setup. The text
--   that vsnprintf formats is a parameter. Concurrent has the steps of tasks that print and read at
--   the same time: the code takes no lock. Logger is src/tools/logger/main.c, the loop that reads the
--   ring and puts its messages out.
-- - Contract: what include/libosal/binary_semaphore.h and include/libosal/semaphore.h promise, as
--   records of operations and laws, and what every sequence of calls then answers. The ports below
--   fill them, over kernels that keep the same contract with their own codes.
-- - Stm32: timer.c, semaphore.c and binary_semaphore.c of src/stm32. Clock and Sleep read the two
--   hardware counters; Semaphore is a step relation between the atomic builtins; BinarySemaphore has
--   its operations as functions of the 32-bit value, and Waiting is about its two waits.
-- - Pikeos: timer.c, semaphore.c, binary_semaphore.c, mutex.c, condvar.c, shm.c and task.c of
--   src/pikeos. Task/Handover is the start of a task, which Posix/Task/Handover simulates.
-- - Win32: semaphore.c, binary_semaphore.c and mutex.c of src/win32. VxWorks: timer.c, semaphore.c,
--   binary_semaphore.c, mutex.c, condvar.c and task.c of src/vxworks; Clock has its signed
--   nanoseconds.
--
-- The system calls are answers: what they return is an argument, a stream or a function, and what a
-- theorem needs of them is a hypothesis; so are the ticks and milliseconds that the ports to VxWorks
-- and Windows compute in fractional doubles. Not modelled: the other files of src/stm32, which are
-- stubs that return a constant, io.c and osal.c of the ports, which put text out or are empty, the
-- list macros of include/libosal/queue.h (a BSD copy), the names of tasks, src/tools/shmtest and the
-- tests. The values of flags and policies are those of Linux. A shared memory is the contents that
-- one process sees; what other processes did is in the parameter of the wait.
pub mod Prelude
pub mod Osal
pub mod Timer
pub mod Posix
pub mod Trace
pub mod Io
pub mod Contract
pub mod Stm32
pub mod Pikeos
pub mod Win32
pub mod VxWorks
