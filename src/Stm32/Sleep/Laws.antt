-- ===== src/Stm32/Sleep/Laws.antt =====
-- When the sleeps of this port return.
use libosal.Prelude.{ℕ, ◌+◌, ◌/◌, ◌^◌, ◌≤◌, ◌<◌, ◌≡◌, Bool, true, false, some, arith}
use native.Mathlib.Decide.{dec_le}
use libosal.Prelude.Loop.{until-least}
use libosal.Osal.{Retval, is_timeout}
use libosal.Timer.{Timer, nsec_per_sec, nanos, IsNormal}
use libosal.Stm32.Clock.{Counters, timer_init, timer_expired}
use libosal.Stm32.Clock.Laws.{elapsed, Ticks, expired-eq, expired-late, nanos-timer_init}
use libosal.Stm32.Sleep.{sleep_until, sleep}

is_timeout-eq : (ret : Retval) → is_timeout ret ≡ true → ret ≡ Retval.timeout
is_timeout-eq ret e = ground arith

from_start : (stop : ℕ → Bool) (n : ℕ) → stop (0 + n) ≡ true → stop n ≡ true
from_start stop n e = ground (arith, e)

-- A loop does not go on after an answer that would stop it.
first-le :
    (stop : ℕ → Bool) (n k : ℕ) → stop k ≡ true → ((m : ℕ) → m < n → stop (0 + m) ≡ false) → n ≤ k
first-le stop n k e before = elim (dec_le n k) [
  | yes p ↦ p
  | no p ↦ absurd (ground (arith, before k (omega arith)))
]

-- osal_sleep_until ends where, at one of the readings of the clock, with more fuel than readings
-- before it, TIM2 has counted less than a second and the timer has passed: it returns OK at that
-- reading or before it, with a reading at which the timer has passed, and at none before it at which
-- TIM2 had counted less than a second had the timer passed. The timer is normal.
pub stm32_sleep_until_lem :
    (readings : ℕ → Counters) (fuel k : ℕ) (timer : Timer)
    → Ticks (readings k)
    → IsNormal timer
    → k < fuel
    → nanos timer ≤ elapsed (readings k)
    → (n : ℕ) × (sleep_until readings fuel timer ≡ some (Retval.ok, n))
      × (n ≤ k)
      × (nanos timer ≤ elapsed (readings n))
      × ((m : ℕ) → m < n → Ticks (readings m) → elapsed (readings m) < nanos timer)
unfolding sleep_until
stm32_sleep_until_lem readings fuel k timer ticks normal h reached =
    let stop : ℕ → Bool = λ n. is_timeout (timer_expired (readings n) timer) in
    let last : stop k ≡ true = ground (arith, expired-eq (readings k) timer ticks normal) in
    let (n, e, t, b) = until-least fuel stop 0 k h (ground (arith, last)) in
    let over : timer_expired (readings n) timer ≡ Retval.timeout =
      is_timeout-eq (timer_expired (readings n) timer) (from_start stop n t) in
    (
      n,
      rw e (ground arith),
      first-le stop n k last b,
      expired-late (readings n) timer normal over,
      λ m p u. ground (arith, b m p, expired-eq (readings m) timer u normal),
    )

-- osal_sleep, called at the first reading with a TIM2 that has counted less than a second, ends where
-- the clock goes on for the time given: if at one of the later readings TIM2 has counted less than
-- a second and it is so much later, it returns OK at that reading or before it. It returns at a
-- reading that is so much later than the first one, wherever TIM2 stands then, and none before it at
-- which TIM2 had counted less than a second was so late. The seconds of the deadline fit 64 bits.
pub stm32_sleep_lem :
    (readings : ℕ → Counters) (fuel k nsec : ℕ)
    → Ticks (readings 0)
    → Ticks (readings (k + 1))
    → (readings 0).tim4_cnt + nsec / nsec_per_sec + 1 < 2 ^ 64
    → k < fuel
    → elapsed (readings 0) + nsec ≤ elapsed (readings (k + 1))
    → (n : ℕ) × (sleep readings fuel nsec ≡ some (Retval.ok, n))
      × (n ≤ k)
      × (elapsed (readings 0) + nsec ≤ elapsed (readings (n + 1)))
      × ((m : ℕ)
          → m < n
          → Ticks (readings (m + 1))
          → elapsed (readings (m + 1)) < elapsed (readings 0) + nsec)
unfolding sleep
stm32_sleep_lem readings fuel k nsec first last fits h reached =
    let (normal, e) = nanos-timer_init (readings 0) nsec first fits in
    let timer = timer_init (readings 0) nsec in
    let (n, r, early, t, b) =
      stm32_sleep_until_lem (λ i. readings (i + 1)) fuel k timer last normal h (omega arith) in
    (n, r, early, omega arith, λ m p u. omega (arith, b m p u))
