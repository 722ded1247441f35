-- ===== src/Stm32/Clock/Laws.antt =====
-- The clock of this port in nanoseconds.
use libosal.Prelude.{ℕ, ◌+◌, ◌*◌, ◌/◌, ◌%◌, ◌^◌, ◌<◌, ◌≤◌, ◌≡◌, refl, leb, if◌then◌else◌, arith}
use libosal.Prelude.Word.{u32}
use libosal.Osal.{Retval}
use libosal.Timer.{Timer, nsec_per_sec, timer_add, timer_lt, nanos, IsNormal}
use libosal.Timer.Laws.{timer_lt-eq, nanos-timer_add}
use libosal.Stm32.Clock.{Counters, timer_gettime, timer_gettime_nsec, timer_init, timer_expired}

-- The nanoseconds that the counters stand for.
abbrev pub elapsed : Counters → ℕ
elapsed now = now.tim4_cnt * nsec_per_sec + now.tim2_cnt * 5

-- TIM2 has counted less than a second, as `nsec` of a timer stands for. The set-up of the timers,
-- which is not in the repository, decides whether it starts again with every second of TIM4.
abbrev pub Ticks : Counters → Type 0
Ticks now = now.tim2_cnt * 5 < nsec_per_sec

pub expired-eq :
    (now : Counters) (timer : Timer)
    → Ticks now
    → IsNormal timer
    → timer_expired now timer
      ≡ (if leb (nanos timer) (elapsed now) then Retval.timeout else Retval.ok)
unfolding timer_expired timer_gettime
expired-eq now timer t normal =
    ground (arith, timer_lt-eq (record { sec = now.tim4_cnt; nsec = u32 (now.tim2_cnt * 5) }) timer)

pub nanos-timer_init :
    (now : Counters) (timeout : ℕ)
    → Ticks now
    → now.tim4_cnt + timeout / nsec_per_sec + 1 < 2 ^ 64
    → IsNormal (timer_init now timeout) × (nanos (timer_init now timeout) ≡ elapsed now + timeout)
unfolding timer_init timer_gettime
nanos-timer_init now timeout t h =
    let split : Timer = record { sec = timeout / nsec_per_sec; nsec = timeout % nsec_per_sec } in
    let reading : Timer = record { sec = now.tim4_cnt; nsec = u32 (now.tim2_cnt * 5) } in
    let sum : IsNormal (timer_add reading split)
        × (nanos (timer_add reading split) ≡ nanos reading + nanos split) =
      nanos-timer_add reading split (omega arith) (omega arith) h in
    (sum.0, omega arith)

-- If TIM2 has counted less than a second at both moments, TIM4 has 32 bits and the seconds of the
-- deadline fit 64 bits, osal_timer_gettime_nsec is the time of the counters in nanoseconds, and a
-- timer set by osal_timer_init is reported as expired exactly from the time of the call plus the
-- timeout on.
pub stm32_clock_lem :
    (start now : Counters) (timeout : ℕ)
    → Ticks start
    → Ticks now
    → now.tim4_cnt < 2 ^ 32
    → start.tim4_cnt + timeout / nsec_per_sec + 1 < 2 ^ 64
    → (timer_gettime_nsec now ≡ elapsed now)
      × (timer_expired now (timer_init start timeout)
          ≡ (if leb (elapsed start + timeout) (elapsed now) then Retval.timeout else Retval.ok))
unfolding timer_gettime_nsec timer_gettime
stm32_clock_lem start now timeout t u small fits =
    let (normal, e) = nanos-timer_init start timeout t fits in
    (ground arith, rw (expired-eq now (timer_init start timeout) u normal, e) refl)

-- A normal timer that is reported as expired has passed, wherever TIM2 stands.
pub expired-late :
    (now : Counters) (timer : Timer)
    → IsNormal timer
    → timer_expired now timer ≡ Retval.timeout
    → nanos timer ≤ elapsed now
unfolding timer_expired timer_gettime timer_lt
expired-late now timer normal e = ground arith
