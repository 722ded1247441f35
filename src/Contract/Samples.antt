-- ===== src/Contract/Samples.antt =====
-- A counting semaphore that keeps the contract, for any codes, to try the ports on.
use libosal.Prelude.{ℕ, ◌+◌, ◌-◌, ◌≤◌, ◌≡◌, Bool, true, false, ltb, leb, if◌then◌else◌, arith}
use libosal.Contract.Binary.{bit}
use libosal.Contract.Counting.{CountingContract}

pub record Sample : Type 0 where
  pub held : ℕ
  pub largest : ℕ

abbrev pub held_count : Sample → ℕ
held_count s = if leb s.held s.largest then s.held else s.largest

abbrev pub up : Sample → Sample
up s = if ltb (held_count s) s.largest then record s { held = held_count s + 1 } else s

abbrev pub down : Sample → Sample
down s = if ltb 0 (held_count s) then record s { held = held_count s - 1 } else s

pub held_count-le : (s : Sample) → held_count s ≤ s.largest
held_count-le s = ground arith

pub held_count-up :
    (s : Sample)
    → (held_count (up s) ≡ held_count s + bit (ltb (held_count s) s.largest))
      × ((up s).largest ≡ s.largest)
held_count-up s = (ground arith, ground arith)

pub held_count-down :
    (s : Sample)
    → (held_count (down s) + bit (ltb 0 (held_count s)) ≡ held_count s)
      × ((down s).largest ≡ s.largest)
held_count-down s = (ground arith, ground arith)

module _ {P T : Type 0} (post_ok : P → Bool) (take_ok : T → Bool) (posted full : P)
    (taken empty : T) (posted_ok : post_ok posted ≡ true) (full_ok : post_ok full ≡ false)
    (taken_ok : take_ok taken ≡ true) (empty_ok : take_ok empty ≡ false) where
  pub post_codes : (b : Bool) → post_ok (if b then posted else full) ≡ b
  post_codes true = posted_ok
  post_codes false = full_ok

  pub take_codes : (b : Bool) → take_ok (if b then taken else empty) ≡ b
  take_codes true = taken_ok
  take_codes false = empty_ok

  abbrev pub sample_contract : CountingContract post_ok take_ok Sample
  sample_contract = record {
    count = held_count;
    limit = λ s. s.largest;
    post = λ s. (if ltb (held_count s) s.largest then posted else full, up s);
    trywait = λ s. (if ltb 0 (held_count s) then taken else empty, down s);
    bounded = held_count-le;
    post_answers = λ s. post_codes (ltb (held_count s) s.largest);
    post_counts = λ s. (held_count-up s).0;
    post_limit = λ s. (held_count-up s).1;
    trywait_answers = λ s. take_codes (ltb 0 (held_count s));
    trywait_counts = λ s. (held_count-down s).0;
    trywait_limit = λ s. (held_count-down s).1;
  }
