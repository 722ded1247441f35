-- ===== src/Prelude/Loop.antt =====
-- Loops of the form `do { answer = call(); } while (test(answer));`, over a stream of answers.
use Prim.Native.Nat.{ℕ, zero, suc, ◌+◌, ◌-◌, ◌<◌}
use native.Mathlib.Decide.{dec_lt}
use mathlib.Core.Logic.{inl, inr}
use libosal.Prelude.Tests.{Bool-cases}
use mathlib.Core.Path.{◌≡◌, refl}
use mathlib.Core.Bool.{Bool, true, false}
use mathlib.Core.Option.{Option, none, some}
use native.Mathlib.Omega.{arith}

-- The first index from `i` on at which the loop stops; `none` means that the fuel ran out.
unfoldable pub until : ℕ → (ℕ → Bool) → ℕ → Option ℕ
until zero stop i = none
until (suc f) stop i = elim (stop i) [ true ↦ some i | false ↦ until f stop (i + 1) ]

-- A loop that goes on at `n` answers and stops at the next one, with more fuel than `n`.
pub until-first :
    (f : ℕ) (stop : ℕ → Bool) (i n : ℕ)
    → n < f
    → ((m : ℕ) → m < n → stop (i + m) ≡ false)
    → stop (i + n) ≡ true
    → until f stop i ≡ some (i + n)
unfolding until
until-first zero stop i n h go halt = elim h [ ]
until-first (suc f) stop i zero h go halt = ground (arith)
until-first (suc f) stop i (suc n) h go halt = ground (
  arith,
  go 0,
  until-first f stop (i + 1) n (omega arith) (λ m p. ground (arith, go (suc m))) (ground arith),
)

-- A loop that never sees the answer it waits for does not return, whatever the fuel.
pub until-never :
    (f : ℕ) (stop : ℕ → Bool) (i : ℕ) → ((m : ℕ) → stop m ≡ false) → until f stop i ≡ none
unfolding until
until-never zero stop i go = refl
until-never (suc f) stop i go = ground (arith, go i, until-never f stop (i + 1) go)

-- A loop that would stop at `i + k`, with more fuel than `k`, stops at the first index that it can.
pub until-least :
    (f : ℕ) (stop : ℕ → Bool) (i k : ℕ)
    → k < f
    → stop (i + k) ≡ true
    → (n : ℕ) × (until f stop i ≡ some (i + n))
      × (stop (i + n) ≡ true)
      × ((m : ℕ) → m < n → stop (i + m) ≡ false)
unfolding until
until-least zero stop i k h halt = elim h [ ]
until-least (suc f) stop i zero h halt = (0, ground arith, halt, λ m p. absurd (omega arith))
until-least (suc f) stop i (suc k) h halt = elim (Bool-cases (stop i)) [
  | inl now ↦ (0, ground arith, ground arith, λ m p. absurd (omega arith))
  | inr later ↦
      let (n, e, t, b) = until-least f stop (i + 1) k (omega arith) (ground arith) in
      (
        n + 1,
        ground (arith, e),
        ground (arith, t),
        λ m p. elim (dec_lt 0 m) [ yes q ↦ ground (arith, b (m - 1)) | no q ↦ ground arith ],
      )
]
