-- ===== src/Timer.antt =====
-- Points in time (include/libosal/timer.h): `osal_timer_t` and the macros that add, compare and
-- convert, over 64-bit words. `1E9` is a `double`, so what it meets is converted first.
pub mod Laws
mod Tests
use libosal.Prelude.{ℕ, ◌+◌, ◌-◌, ◌*◌, ◌/◌, ◌%◌, ◌^◌, ◌<◌, Bool, ltb, leb, ◌==◌, if◌then◌else◌}
use libosal.Prelude.Word.{add64, mul64, to_double}

-- NSEC_PER_SEC, and the value of 1E9.
abbrev pub nsec_per_sec : ℕ
nsec_per_sec = 1_000_000_000

-- `osal_timer_t`.
pub record Timer : Type 0 where
  pub sec : ℕ
  pub nsec : ℕ

-- The carry that both additions end with: `if (nsec >= 1E9) { ++sec; nsec -= 1E9; }`.
unfoldable pub carry : Timer → Timer
carry r =
    if leb nsec_per_sec (to_double r.nsec)
    then record { sec = add64 r.sec 1; nsec = to_double (to_double r.nsec - nsec_per_sec) }
    else r

-- osal_timer_add
unfoldable pub timer_add : Timer → Timer → Timer
timer_add a b = carry (record { sec = add64 a.sec b.sec; nsec = add64 a.nsec b.nsec })

-- osal_timer_add_nsec
pub timer_add_nsec : Timer → ℕ → Timer
timer_add_nsec a n = carry (record { sec = a.sec; nsec = add64 a.nsec n })

-- osal_timer_cmp with `<` for the comparator.
unfoldable pub timer_lt : Timer → Timer → Bool
timer_lt a b = if a.sec == b.sec then ltb a.nsec b.nsec else ltb a.sec b.sec

-- osal_timer_to_nsec
unfoldable pub timer_to_nsec : Timer → ℕ
timer_to_nsec a = add64 (mul64 a.sec nsec_per_sec) a.nsec

-- The split of a count of nanoseconds that `osal_sleep_until_nsec` and `osal_timer_init` make.
unfoldable pub timer_of_nsec : ℕ → Timer
timer_of_nsec n = record { sec = n / nsec_per_sec; nsec = n % nsec_per_sec }

-- The nanoseconds that a timer stands for, with no bound.
abbrev pub nanos : Timer → ℕ
nanos t = t.sec * nsec_per_sec + t.nsec

-- A timer whose nanoseconds are less than a second.
abbrev pub IsNormal : Timer → Type 0
IsNormal t = t.nsec < nsec_per_sec

-- A timer whose nanoseconds fit a 64-bit word.
abbrev pub Fits : Timer → Type 0
Fits t = nanos t < 2 ^ 64
