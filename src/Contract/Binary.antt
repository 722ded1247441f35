-- ===== src/Contract/Binary.antt =====
-- The contract of a binary semaphore (include/libosal/binary_semaphore.h), and what every sequence
-- of calls of a port that keeps it answers.
use libosal.Prelude.{
  ℕ, ◌+◌, ◌≤◌, ◌≡◌, refl, Bool, true, false, List, [], ◌∷◌, ap, ◌∙◌, if◌then◌else◌, arith,
}
use libosal.Osal.{Retval, is_ok}

-- The calls that do not block.
pub data Call : Type 0 where
  post trywait : Call

-- A semaphore with the states `S`, of which those that can occur are `Valid`: one flag, which a
-- post sets and a trywait takes, with OSAL_OK exactly where it was set.
pub record BinaryContract (S : Type 0) (Valid : S → Type 0) : Type 0 where
  pub flag : S → Bool
  pub post : S → Retval × S
  pub trywait : S → Retval × S
  pub post_valid : (s : S) → Valid s → Valid (post s).1
  pub post_sets : (s : S) → Valid s → flag (post s).1 ≡ true
  pub trywait_valid : (s : S) → Valid s → Valid (trywait s).1
  pub trywait_answers : (s : S) → Valid s → is_ok (trywait s).0 ≡ flag s
  pub trywait_takes : (s : S) → Valid s → flag (trywait s).1 ≡ false

-- The trywaits that succeed, for a flag on its own.
pub answers : List Call → Bool → List Bool
answers [] set = []
answers (Call.post ∷ calls) set = answers calls true
answers (Call.trywait ∷ calls) set = set ∷ answers calls false

pub posts : List Call → ℕ
posts [] = 0
posts (Call.post ∷ calls) = posts calls + 1
posts (Call.trywait ∷ calls) = posts calls

pub successes : List Bool → ℕ
successes [] = 0
successes (true ∷ oks) = successes oks + 1
successes (false ∷ oks) = successes oks

abbrev pub bit : Bool → ℕ
bit set = if set then 1 else 0

successes-answers :
    (calls : List Call) (set : Bool) → successes (answers calls set) ≤ posts calls + bit set
unfolding answers posts successes
successes-answers [] set = omega arith
successes-answers (Call.post ∷ calls) set = ground (arith, successes-answers calls true)
successes-answers (Call.trywait ∷ calls) true = omega (arith, successes-answers calls false)
successes-answers (Call.trywait ∷ calls) false = omega (arith, successes-answers calls false)

module _ {S : Type 0} {Valid : S → Type 0} (b : BinaryContract S Valid) where
  -- Whether each trywait of a sequence of calls returned OSAL_OK.
  pub serve : List Call → S → List Bool
  serve [] s = []
  serve (Call.post ∷ calls) s = serve calls (b.post s).1
  serve (Call.trywait ∷ calls) s = is_ok (b.trywait s).0 ∷ serve calls (b.trywait s).1

  serve-answers : (calls : List Call) (s : S) → Valid s → serve calls s ≡ answers calls (b.flag s)
  unfolding serve answers
  serve-answers [] s v = refl
  serve-answers (Call.post ∷ calls) s v =
      serve-answers calls (b.post s).1 (b.post_valid s v) ∙ ap (answers calls) (b.post_sets s v)
  serve-answers (Call.trywait ∷ calls) s v =
      let rest = serve-answers calls (b.trywait s).1 (b.trywait_valid s v) in
      rw (b.trywait_answers s v)
        (ap (λ l. b.flag s ∷ l) (rest ∙ ap (answers calls) (b.trywait_takes s v)))

  serve_le_posts :
      (calls : List Call) (s : S)
      → Valid s
      → successes (serve calls s) ≤ posts calls + bit (b.flag s)
  serve_le_posts calls s v = rw (serve-answers calls s v) (successes-answers calls (b.flag s))

  -- From a clear flag.
  pub serve-clear :
      (calls : List Call) (s : S)
      → Valid s
      → b.flag s ≡ false
      → (serve calls s ≡ answers calls false) × (successes (serve calls s) ≤ posts calls)
  serve-clear calls s v clear =
      let same : serve calls s ≡ answers calls false =
        serve-answers calls s v ∙ ap (answers calls) clear in
      (same, ground (arith, serve_le_posts calls s v))
