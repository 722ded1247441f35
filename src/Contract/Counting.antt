-- ===== src/Contract/Counting.antt =====
-- The contract of a counting semaphore (include/libosal/semaphore.h), at the level of the kernel and
-- at the level of a port: the same laws, with the codes of each. A semaphore that counts to 1 keeps
-- the contract of a binary semaphore.
use libosal.Prelude.{ℕ, ◌+◌, ◌≤◌, ◌≡◌, Bool, false, List, [], ◌∷◌, ltb, arith}
use libosal.Osal.{is_ok}
use libosal.Contract.Binary.{
  Call, BinaryContract, bit, serve, answers, successes, posts, serve-clear,
}

-- A semaphore with the states `S`, where the codes of a post and of a trywait that are successes are
-- those of `post_ok` and `take_ok`. A post
-- adds 1 to the count below the limit and fails at it; a trywait takes 1 from a count above 0 and
-- fails at 0; a call that fails leaves the count.
pub record CountingContract {P T : Type 0} (post_ok : P → Bool) (take_ok : T → Bool) (S : Type 0)
    : Type 0 where
  pub count : S → ℕ
  pub limit : S → ℕ
  pub post : S → P × S
  pub trywait : S → T × S
  pub bounded : (s : S) → count s ≤ limit s
  pub post_answers : (s : S) → post_ok (post s).0 ≡ ltb (count s) (limit s)
  pub post_counts : (s : S) → count (post s).1 ≡ count s + bit (ltb (count s) (limit s))
  pub post_limit : (s : S) → limit (post s).1 ≡ limit s
  pub trywait_answers : (s : S) → take_ok (trywait s).0 ≡ ltb 0 (count s)
  pub trywait_counts : (s : S) → count (trywait s).1 + bit (ltb 0 (count s)) ≡ count s
  pub trywait_limit : (s : S) → limit (trywait s).1 ≡ limit s

-- The posts and the trywaits that succeeded, and the state at the end.
pub record Outcome (S : Type 0) : Type 0 where
  pub posted : ℕ
  pub taken : ℕ
  pub left : S

module _ {P T : Type 0} {post_ok : P → Bool} {take_ok : T → Bool} {S : Type 0}
    (c : CountingContract post_ok take_ok S) where
  pub run : List Call → S → Outcome S
  run [] s = record { posted = 0; taken = 0; left = s }
  run (Call.post ∷ calls) s =
      let rest = run calls (c.post s).1 in
      record rest { posted = rest.posted + bit (post_ok (c.post s).0) }
  run (Call.trywait ∷ calls) s =
      let rest = run calls (c.trywait s).1 in
      record rest { taken = rest.taken + bit (take_ok (c.trywait s).0) }

  -- The trywaits that succeed and what is left are the count at first and the posts that succeed.
  pub run-conserves :
      (calls : List Call) (s : S)
      → ((run calls s).taken + c.count (run calls s).left ≡ c.count s + (run calls s).posted)
        × (c.count (run calls s).left ≤ c.limit s)
  unfolding run
  run-conserves [] s = (omega arith, c.bounded s)
  run-conserves (Call.post ∷ calls) s =
      let ih = run-conserves calls (c.post s).1 in
      (
        rw (c.post_answers s) (omega (arith, c.post_counts s, ih.0)),
        omega (arith, c.post_limit s, ih.1),
      )
  run-conserves (Call.trywait ∷ calls) s =
      let ih = run-conserves calls (c.trywait s).1 in
      (
        rw (c.trywait_answers s) (omega (arith, c.trywait_counts s, ih.0)),
        omega (arith, c.trywait_limit s, ih.1),
      )

module _ {S : Type 0} (c : CountingContract is_ok is_ok S) where
  -- A count that goes to 1 is a flag.
  pub binary_of_counting : BinaryContract S (λ s. c.limit s ≡ 1)
  binary_of_counting = record {
    flag = λ s. ltb 0 (c.count s);
    post = c.post;
    trywait = c.trywait;
    post_valid = λ s v. omega (arith, c.post_limit s);
    post_sets = λ s v. ground (arith, c.post_counts s, c.bounded s);
    trywait_valid = λ s v. omega (arith, c.trywait_limit s);
    trywait_answers = λ s v. c.trywait_answers s;
    trywait_takes = λ s v. ground (arith, c.trywait_counts s, c.bounded s);
  }

  pub binary_of_counting-clear :
      (calls : List Call) (s : S)
      → c.limit s ≡ 1
      → c.count s ≡ 0
      → (serve binary_of_counting calls s ≡ answers calls false)
        × (successes (serve binary_of_counting calls s) ≤ posts calls)
  unfolding binary_of_counting
  binary_of_counting-clear calls s one zero =
      serve-clear binary_of_counting calls s one (ground arith)
