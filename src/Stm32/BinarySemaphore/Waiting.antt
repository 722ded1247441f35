-- ===== src/Stm32/BinarySemaphore/Waiting.antt =====
-- The two waits of the binary semaphore of this port.
use libosal.Prelude.{
  ℕ, zero, suc, ◌+◌, ◌<◌, ◌≡◌, ◌≢◌, refl, subst, true, false, Option, none, some, ◌==◌,
  if◌then◌else◌, arith, ◌⊎◌, inl, inr, Bool-cases,
}
use libosal.Osal.{Retval, is_timeout}
use libosal.Stm32.BinarySemaphore.{
  wait_loop, binary_semaphore_wait, timedwait_loop, binary_semaphore_timedwait,
}

wait_loop-zero : (fuel : ℕ) → wait_loop fuel 0 ≡ none
unfolding wait_loop
wait_loop-zero zero = refl
wait_loop-zero (suc fuel) = wait_loop-zero fuel

-- osal_binary_semaphore_wait returns OSAL_OK at once and takes the value where it is set. Where it
-- is clear it does not return, whatever the fuel: it waits with the interrupts disabled, and no
-- post can come.
pub stm32_wait_lem :
    (fuel value : ℕ)
    → binary_semaphore_wait (suc fuel) value ≡ (if value == 0 then none else some (Retval.ok, 0))
unfolding binary_semaphore_wait wait_loop
stm32_wait_lem fuel value = ground (arith, wait_loop-zero fuel)

-- How a round of osal_binary_semaphore_timedwait ends the loop: the timer has expired, and the
-- value is left as it is; or it has not, and a value that is set is taken.
abbrev pub Ends : Retval → ℕ → ℕ → Option (Retval × ℕ) → Type 0
Ends expired held seen result =
    ((is_timeout expired ≡ true) × (result ≡ some (Retval.timeout, held)))
    ⊎ ((is_timeout expired ≡ false) × (seen ≢ 0) × (result ≡ some (Retval.ok, 0)))

-- The value before round `n`, after rounds that found it clear.
abbrev pub held : ℕ → ℕ → ℕ
held value zero = value
held value (suc n) = 0

held-zero : (n : ℕ) → held 0 n ≡ 0
held-zero zero = refl
held-zero (suc n) = refl

module _ (expired : ℕ → Retval) (interrupts : ℕ → ℕ → ℕ) where
  later :
      (i value : ℕ)
      → is_timeout (expired i) ≡ false
      → interrupts i value ≡ 0
      → (n : ℕ)
      → ((m : ℕ)
          → m < n
          → (is_timeout (expired (i + 1 + m)) ≡ false) × (interrupts (i + 1 + m) (held 0 m) ≡ 0))
      → (m : ℕ) → m < suc n
      → (is_timeout (expired (i + m)) ≡ false) × (interrupts (i + m) (held value m) ≡ 0)
  later i value soon clear n before zero p = (ground arith, ground arith)
  later i value soon clear n before (suc m) p =
      let b = before m (omega arith) in (ground arith, ground (arith, held-zero m))

  Ends-later :
      (fuel i n value : ℕ)
      → is_timeout (expired i) ≡ false
      → interrupts i value == 0 ≡ true
      → Ends
          (expired (i + 1 + n))
          (held 0 n)
          (interrupts (i + 1 + n) (held 0 n))
          (timedwait_loop expired interrupts fuel (i + 1) 0)
      → Ends
          (expired (i + suc n))
          0
          (interrupts (i + suc n) 0)
          (timedwait_loop expired interrupts (suc fuel) i value)
  unfolding timedwait_loop
  Ends-later fuel i n value soon clear ends =
      let shift : i + suc n ≡ i + 1 + n = omega arith in
      let step : timedwait_loop expired interrupts (suc fuel) i value
          ≡ timedwait_loop expired interrupts fuel (i + 1) 0 =
        ground arith in
      rw (step, shift)
        (subst
          (λ x.
            Ends (expired (i + 1 + n)) x (interrupts (i + 1 + n) x)
              (timedwait_loop expired interrupts fuel (i + 1) 0))
          (held-zero n) ends)

  timedwait_loop_lem :
      (fuel i k value : ℕ)
      → k < fuel
      → is_timeout (expired (i + k)) ≡ true
      → (n : ℕ) × ((m : ℕ)
          → m < n
          → (is_timeout (expired (i + m)) ≡ false) × (interrupts (i + m) (held value m) ≡ 0))
        × Ends
            (expired (i + n))
            (held value n)
            (interrupts (i + n) (held value n))
            (timedwait_loop expired interrupts fuel i value)
  unfolding timedwait_loop
  timedwait_loop_lem zero i k value h e = elim h [ ]
  timedwait_loop_lem (suc fuel) i zero value h e =
      (0, λ m p. absurd (omega arith), inl (ground arith, ground arith))
  timedwait_loop_lem (suc fuel) i (suc k) value h e = elim (Bool-cases (is_timeout (expired i))) [
    | inl late ↦ (0, λ m p. absurd (omega arith), inl (ground arith, ground arith))
    | inr soon ↦ elim (Bool-cases (interrupts i value == 0)) [
      | inr set ↦ (0, λ m p. absurd (omega arith), inr (ground arith, ground arith, ground arith))
      | inl clear ↦
          let (n, before, ends) =
            timedwait_loop_lem fuel (i + 1) k 0 (omega arith) (ground arith) in
          (
            suc n,
            later i value soon (ground arith) n before,
            Ends-later fuel i n value soon clear ends,
          )
    ]
  ]

-- osal_binary_semaphore_timedwait returns where the clock reaches the deadline in some round, with
-- more fuel than rounds before it. The round that ends it is the first at which the timer has
-- expired or the value, as the interrupts have left it, is set. If the timer has expired the code is
-- OSAL_ERR_TIMEOUT and the value is kept, so no post is lost, and otherwise it is OSAL_OK and the
-- value is taken.
pub stm32_timedwait_lem :
    (expired : ℕ → Retval) (interrupts : ℕ → ℕ → ℕ) (fuel k value : ℕ)
    → k < fuel
    → expired k ≡ Retval.timeout
    → (n : ℕ) × ((m : ℕ)
        → m < n
        → (is_timeout (expired m) ≡ false) × (interrupts m (held value m) ≡ 0))
      × Ends
          (expired n)
          (held value n)
          (interrupts n (held value n))
          (binary_semaphore_timedwait expired interrupts fuel value)
unfolding binary_semaphore_timedwait
stm32_timedwait_lem expired interrupts fuel k value h e =
    let (n, before, ends) = timedwait_loop_lem expired interrupts fuel 0 k value h (ground arith) in
    let left : (m : ℕ) → 0 + m ≡ m = λ m. omega arith in
    (
      n,
      λ m p.
          subst (λ x. (is_timeout (expired x) ≡ false) × (interrupts x (held value m) ≡ 0)) (left m)
            (before m p),
      subst
          (λ x.
            Ends (expired x) (held value n) (interrupts x (held value n))
              (timedwait_loop expired interrupts fuel 0 value))
          (left n) ends,
    )
