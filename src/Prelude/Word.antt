-- ===== src/Prelude/Word.antt =====
-- Machine words: 32-bit and 64-bit unsigned arithmetic with its wrap-around, and the
-- conversions between 64-bit words and `double` that a comparison with `1E9` brings in.
use Prim.Native.Nat.{ℕ, zero, suc, ◌+◌, ◌-◌, ◌*◌, ◌/◌, ◌%◌, ◌^◌, ◌<◌, ◌≤◌}
use mathlib.Core.Path.{◌≡◌}
use native.Mathlib.Omega.{arith}
use libosal.Prelude.Tests.{ltb, ◌==◌, if◌then◌else◌}

abbrev pub u32 : ℕ → ℕ
u32 n = n % 2 ^ 32

abbrev pub u64 : ℕ → ℕ
u64 n = n % 2 ^ 64

abbrev pub add64 : ℕ → ℕ → ℕ
add64 a b = u64 (a + b)

abbrev pub sub64 : ℕ → ℕ → ℕ
sub64 a b = u64 (a + 2 ^ 64 - b)

abbrev pub mul64 : ℕ → ℕ → ℕ
mul64 a b = u64 (a * b)

-- The spacing of the doubles around `n`, at least 1: the first `unit`, doubling, at which `n` is
-- below 2^53 units.
spacing : ℕ → ℕ → ℕ → ℕ
spacing zero unit n = unit
spacing (suc f) unit n =
    let wider = spacing f (2 * unit) n in if ltb n (unit * 2 ^ 53) then unit else wider

-- The multiple of `unit` that is nearest to `n`, the even one at a tie.
nearest : ℕ → ℕ → ℕ
nearest unit n =
    let q = n / unit in
    let r = n % unit in
    if ltb (2 * r) unit
    then q * unit
    else if ltb unit (2 * r)
    then (q + 1) * unit
    else if q % 2 == 0
    then q * unit
    else (q + 1) * unit

-- `(double)n`, as the whole number that it is. Eleven doublings reach 2^64.
unfoldable pub to_double : ℕ → ℕ
unfolding nearest spacing
to_double n = if ltb n (2 ^ 53) then n else nearest (spacing 11 1 n) n

-- Below 2^53 the conversion is exact.
pub to_double-eq_of_lt : (n : ℕ) → n < 2 ^ 53 → to_double n ≡ n
unfolding to_double
to_double-eq_of_lt n h = ground arith

nearest-le :
    (unit n : ℕ)
    → 0 < unit
    → (2 * nearest unit n ≤ 2 * n + unit) × (2 * n ≤ 2 * nearest unit n + unit)
unfolding nearest
nearest-le unit n h =
    let parts : n / unit * unit + n % unit ≡ n = omega arith in
    let small : n % unit < unit = omega arith in
    let next : (n / unit + 1) * unit ≡ n / unit * unit + unit = omega arith in ground arith

-- `unit`, doubled `f` times.
abbrev widest : ℕ → ℕ → ℕ
widest zero unit = unit
widest (suc f) unit = widest f (2 * unit)

widest-le : (f unit : ℕ) → unit ≤ widest f unit
widest-le zero unit = omega arith
widest-le (suc f) unit = omega (arith, widest-le f (2 * unit))

spacing-le : (f unit n : ℕ) → (unit ≤ spacing f unit n) × (spacing f unit n ≤ widest f unit)
unfolding spacing
spacing-le zero unit n = (omega arith, omega arith)
spacing-le (suc f) unit n = ground (arith, spacing-le f (2 * unit) n, widest-le f (2 * unit))

-- `to_double` is off by at most 1024.
pub to_double-le : (n : ℕ) → (to_double n ≤ n + 1024) × (n ≤ to_double n + 1024)
unfolding to_double
to_double-le n =
    let wide : spacing 11 1 n ≤ 2048 = (spacing-le 11 1 n).1 in
    let near = nearest-le (spacing 11 1 n) n (omega (arith, spacing-le 11 1 n)) in ground arith
