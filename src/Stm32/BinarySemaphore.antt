-- ===== src/Stm32/BinarySemaphore.antt =====
-- The binary semaphore of the STM32 port (src/stm32/binary_semaphore.c): an `int` of 32 bits that
-- is read and written by the atomic builtins of the compiler. `__atomic_clear` and
-- `__atomic_test_and_set` work on the byte that the pointer names, the lowest one. Between
-- ENTER_CRITICAL_SECTION and LEAVE_CRITICAL_SECTION no interrupt runs, so nothing else does.
pub mod Laws
pub mod Waiting
use libosal.Prelude.{
  ℕ, zero, suc, ◌+◌, ◌-◌, ◌%◌, true, false, Option, none, some, ◌==◌, if◌then◌else◌,
}
use mathlib.Core.Option
use libosal.Osal.{Retval, is_timeout}

-- `__atomic_clear`
abbrev atomic_clear : ℕ → ℕ
atomic_clear value = value - value % 256

-- `__atomic_test_and_set`, by what it leaves.
abbrev atomic_test_and_set : ℕ → ℕ
atomic_test_and_set value = value - value % 256 + 1

-- osal_binary_semaphore_init, on the memory as it is.
unfoldable pub binary_semaphore_init : ℕ → Retval × ℕ
binary_semaphore_init value = (Retval.ok, atomic_clear value)

-- osal_binary_semaphore_post
unfoldable pub binary_semaphore_post : ℕ → Retval × ℕ
binary_semaphore_post value = (Retval.ok, atomic_test_and_set value)

-- osal_binary_semaphore_trywait
pub binary_semaphore_trywait : ℕ → Retval × ℕ
binary_semaphore_trywait value =
    let old_value = value in (if old_value == 0 then Retval.busy else Retval.ok, 0)

-- The loop of osal_binary_semaphore_wait, inside the critical section: only its own exchange
-- changes the value.
wait_loop : ℕ → ℕ → Option ℕ
wait_loop zero value = none
wait_loop (suc fuel) value = elim (value == 0) [ true ↦ wait_loop fuel 0 | false ↦ some 0 ]

-- osal_binary_semaphore_wait
pub binary_semaphore_wait : ℕ → ℕ → Option (Retval × ℕ)
unfolding wait_loop
binary_semaphore_wait fuel value = Option.map (λ left. (Retval.ok, left)) (wait_loop fuel value)

-- The loop of osal_binary_semaphore_timedwait from its n-th round on. `expired n` is what
-- osal_timer_expired returns there, and `interrupts n` what the interrupts make of the value before
-- the critical section.
timedwait_loop : (ℕ → Retval) → (ℕ → ℕ → ℕ) → ℕ → ℕ → ℕ → Option (Retval × ℕ)
timedwait_loop expired interrupts zero n value = none
timedwait_loop expired interrupts (suc fuel) n value = elim (is_timeout (expired n)) [
  | true ↦ some (Retval.timeout, value)
  | false ↦ elim (interrupts n value == 0) [
    | true ↦ timedwait_loop expired interrupts fuel (n + 1) 0
    | false ↦ some (Retval.ok, 0)
  ]
]

-- osal_binary_semaphore_timedwait
unfoldable pub binary_semaphore_timedwait : (ℕ → Retval) → (ℕ → ℕ → ℕ) → ℕ → ℕ → Option (Retval × ℕ)
unfolding timedwait_loop
binary_semaphore_timedwait expired interrupts fuel value =
    timedwait_loop expired interrupts fuel 0 value

-- osal_binary_semaphore_destroy
binary_semaphore_destroy : ℕ → Retval × ℕ
binary_semaphore_destroy value = (Retval.ok, value)
