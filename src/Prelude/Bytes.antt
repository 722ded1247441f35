-- ===== src/Prelude/Bytes.antt =====
-- Memory as a list of bytes, with copies of blocks and of C strings. What runs out of the memory is
-- a fault, `none`.
use Prim.Native.Nat.{ℕ, zero, suc, ◌+◌, ◌≤◌, ◌<◌}
use mathlib.Core.Path.{◌≡◌, refl, ap, sym, ◌∙◌, subst}
use mathlib.Core.Logic.{inl, inr, ◌≢◌}
use mathlib.Core.Option
use mathlib.Core.Option.{Option, none, some}
use mathlib.Core.List.{List, [], ◌∷◌, ◌++◌}
use native.Mathlib.Omega.{arith}
use libosal.Prelude.Tests.{leb, ◌==◌, if◌then◌else◌, Bool-cases, Option-cases}
use libosal.Prelude.Lists.{
  length, take, drop, replicate, length-replicate, length-drop, length-append,
}

-- The `n` bytes that `strncpy(to, from, n)` writes: up to the end of the string at `from`, then NULs.
abbrev pub strncpy : ℕ → List ℕ → Option (List ℕ)
strncpy zero from = some []
strncpy (suc n) [] = none
strncpy (suc n) (c ∷ from) =
    let rest = strncpy n from in
    if c == 0 then some (replicate (suc n) 0) else Option.map (λ cs. c ∷ cs) rest

-- The memory with a block in place of what stood at an offset.
abbrev pub overwrite : List ℕ → ℕ → List ℕ → List ℕ
overwrite memory zero block = block ++ drop (length block) memory
overwrite [] (suc offset) block = []
overwrite (x ∷ memory) (suc offset) block = x ∷ overwrite memory offset block

abbrev pub write : List ℕ → ℕ → List ℕ → Option (List ℕ)
write memory offset block =
    if leb (offset + length block) (length memory)
    then some (overwrite memory offset block)
    else none

pub length-strncpy :
    (n : ℕ) (from : List ℕ) {cs : List ℕ} → strncpy n from ≡ some cs → length cs ≡ n
length-strncpy zero from e = ground arith
length-strncpy (suc n) [] e = cc
length-strncpy (suc n) (c ∷ from) {cs} e = elim (Option-cases (strncpy n from)) [
  | inl f ↦ ground (arith, length-replicate {0} {A = ℕ} n 0)
  | inr (rest, f) ↦ ground (arith, length-strncpy n from f, length-replicate {0} {A = ℕ} n 0)
]

-- Enough memory is enough.
pub strncpy-total :
    (n : ℕ) (from : List ℕ) → n ≤ length from → (cs : List ℕ) × (strncpy n from ≡ some cs)
strncpy-total zero from h = ([], refl)
strncpy-total (suc n) [] h = absurd (omega arith)
strncpy-total (suc n) (c ∷ from) h =
    let (rest, f) = strncpy-total n from (omega arith) in
    (if c == 0 then replicate (suc n) 0 else c ∷ rest, ground arith)

-- What was copied is copied as it is.
pub strncpy_again :
    (n : ℕ) (from rest : List ℕ) {cs : List ℕ}
    → strncpy n from ≡ some cs
    → strncpy n (cs ++ rest) ≡ some cs
strncpy_again zero from rest e = ground arith
strncpy_again (suc n) [] rest e = cc
strncpy_again (suc n) (c ∷ from) rest {cs} e = elim (Bool-cases (c == 0)) [
  | inl z ↦
      let same : replicate (suc n) 0 ≡ cs = ground arith in
      subst (λ xs. strncpy (suc n) (xs ++ rest) ≡ some xs) same refl
  | inr z ↦ elim (Option-cases (strncpy n from)) [
    | inl f ↦ absurd (ground arith)
    | inr (cs', f) ↦
        let same : c ∷ cs' ≡ cs = ground arith in
        subst (λ xs. strncpy (suc n) (xs ++ rest) ≡ some xs) same
          (ground (arith, strncpy_again n from rest f))
  ]
]

-- Only the first `n` bytes matter.
pub strncpy-take :
    (n : ℕ) (from : List ℕ) → n ≤ length from → strncpy n (take n from) ≡ strncpy n from
strncpy-take zero from h = refl
strncpy-take (suc n) [] h = refl
strncpy-take (suc n) (c ∷ from) h = ground (arith, strncpy-take n from (omega arith))

pub length-overwrite :
    (memory : List ℕ) (offset : ℕ) (block : List ℕ)
    → offset + length block ≤ length memory
    → length (overwrite memory offset block) ≡ length memory
length-overwrite memory zero block h =
    omega
      (arith, length-append block (drop (length block) memory), length-drop (length block) memory)
length-overwrite [] (suc offset) block h = absurd (omega arith)
length-overwrite (x ∷ memory) (suc offset) block h =
    omega (arith, length-overwrite memory offset block (omega arith))

drop-nil : (n : ℕ) → drop {A = ℕ} n [] ≡ []
drop-nil zero = refl
drop-nil (suc n) = refl

drop-block :
    (block memory : List ℕ) (n : ℕ)
    → length block ≤ n
    → drop n (block ++ drop (length block) memory) ≡ drop n memory
drop-block [] memory n h = refl
drop-block (b ∷ block) memory zero h = elim h [ ]
drop-block (b ∷ block) [] (suc n) h =
    ap (λ m. drop n (block ++ m)) (sym (drop-nil (length block)))
    ∙ drop-block block [] n (omega arith)
    ∙ drop-nil n
drop-block (b ∷ block) (x ∷ memory) (suc n) h = drop-block block memory n (omega arith)

-- The block is read back,
pub drop-overwrite_self :
    (memory : List ℕ) (offset : ℕ) (block : List ℕ)
    → offset + length block ≤ length memory
    → (rest : List ℕ) × (drop offset (overwrite memory offset block) ≡ block ++ rest)
drop-overwrite_self memory zero block h = (drop (length block) memory, refl)
drop-overwrite_self [] (suc offset) block h = absurd (omega arith)
drop-overwrite_self (x ∷ memory) (suc offset) block h =
    drop-overwrite_self memory offset block (omega arith)

-- what stands behind it is as before,
pub drop-overwrite_after :
    (memory : List ℕ) (offset : ℕ) (block : List ℕ) (n : ℕ)
    → offset + length block ≤ n
    → drop n (overwrite memory offset block) ≡ drop n memory
drop-overwrite_after memory zero block n h = drop-block block memory n (omega arith)
drop-overwrite_after [] (suc offset) block n h = refl
drop-overwrite_after (x ∷ memory) (suc offset) block zero h = absurd (omega arith)
drop-overwrite_after (x ∷ memory) (suc offset) block (suc n) h =
    drop-overwrite_after memory offset block n (omega arith)

-- and what stands before it.
pub take-overwrite_before :
    (memory : List ℕ) (offset : ℕ) (block : List ℕ) (m n : ℕ)
    → m + n ≤ offset
    → take n (drop m (overwrite memory offset block)) ≡ take n (drop m memory)
take-overwrite_before memory zero block zero zero h = refl
take-overwrite_before memory zero block zero (suc n) h = absurd (omega arith)
take-overwrite_before memory zero block (suc m) n h = absurd (omega arith)
take-overwrite_before [] (suc offset) block m n h = refl
take-overwrite_before (x ∷ memory) (suc offset) block (suc m) n h =
    take-overwrite_before memory offset block m n (omega arith)
take-overwrite_before (x ∷ memory) (suc offset) block zero zero h = refl
take-overwrite_before (x ∷ memory) (suc offset) block zero (suc n) h =
    ap (λ xs. x ∷ xs) (take-overwrite_before memory offset block zero n (omega arith))

-- A string, without the NUL that ends it.
abbrev pub NoNul : List ℕ → Type 0
NoNul [] = Unit
NoNul (c ∷ cs) = (c ≢ 0) × NoNul cs

-- The string that stands at the start of some memory.
abbrev pub string : List ℕ → Option (List ℕ)
string [] = none
string (c ∷ cs) =
    let rest = string cs in if c == 0 then some [] else Option.map (λ text. c ∷ text) rest

-- A string that strncpy copies with its NUL is read back.
pub string-strncpy :
    (n : ℕ) (text rest : List ℕ)
    → NoNul text
    → length text < n
    → (cs : List ℕ) × (strncpy n (text ++ (0 ∷ rest)) ≡ some cs) × (string cs ≡ some text)
string-strncpy zero text rest h short = absurd (omega arith)
string-strncpy (suc n) [] rest h short = (replicate (suc n) 0, ground arith, refl)
string-strncpy (suc n) (c ∷ text) rest h short =
    let (cs, e, f) = string-strncpy n text rest h.1 (omega arith) in
    (c ∷ cs, ground (arith, e, h.0), ground (arith, f, h.0))
