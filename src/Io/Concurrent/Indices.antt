-- ===== src/Io/Concurrent/Indices.antt =====
-- The ring stays valid, whatever the tasks do.
use libosal.Prelude.{ℕ, ◌<◌, ◌≡◌, refl, Bool, true, false, some, List, arith}
use libosal.Prelude.Bytes.{length-overwrite}
use libosal.Io.{IoShm, next_index, offset, count_up}
use libosal.Io.Queue.{after}
use libosal.Io.Slots.{IsValid, message, next_index-after, offset_lem, with_block, length-message}
use libosal.Io.Concurrent.{Pc, System, Step}

abbrev pub is_printing : Pc → Bool
is_printing (Pc.testing w text) = true
is_printing (Pc.copying w text) = true
is_printing (Pc.storing w text) = true
is_printing _ = false

-- The slot that a printer writes.
abbrev pub target : Pc → ℕ
target (Pc.testing w text) = w
target (Pc.copying w text) = w
target (Pc.storing w text) = w
target _ = 0

-- An index that is in range steps to the next one in range.
pub next_lem :
    (shm : IoShm) (i next : ℕ)
    → IsValid shm
    → i < shm.max_messages
    → next_index shm i ≡ some next
    → (next ≡ after shm.max_messages i) × (next < shm.max_messages)
next_lem shm i next v h e =
    let same : next ≡ after shm.max_messages i = ground (arith, next_index-after i v h) in
    (same, ground arith)

IsValid-printed :
    (shm : IoShm) (next : ℕ)
    → IsValid shm
    → next < shm.max_messages
    → IsValid (record shm { act_printed = next })
IsValid-printed shm next v h = record {
  some_slot = v.some_slot;
  few_slots = v.few_slots;
  printed_in_range = h;
  written_in_range = v.written_in_range;
  room = v.room;
  small = v.small;
}

IsValid-written :
    (shm : IoShm) (w : ℕ)
    → IsValid shm
    → w < shm.max_messages
    → IsValid (record shm { act_written = w; sem = count_up shm.sem })
IsValid-written shm w v h = record {
  some_slot = v.some_slot;
  few_slots = v.few_slots;
  printed_in_range = v.printed_in_range;
  written_in_range = h;
  room = v.room;
  small = v.small;
}

pub IsValid-with_block :
    (shm : IoShm) (w : ℕ) (text : List ℕ)
    → IsValid shm
    → w < shm.max_messages
    → IsValid (with_block shm w (message shm.max_message_size text))
IsValid-with_block shm w text v h =
    let same =
      length-overwrite shm.msgs (offset shm w) (message shm.max_message_size text)
        (omega (arith, offset_lem w v h, length-message shm w text v h)) in
    record {
      some_slot = v.some_slot;
      few_slots = v.few_slots;
      printed_in_range = v.printed_in_range;
      written_in_range = v.written_in_range;
      room = omega (arith, v.room, same);
      small = v.small;
    }

-- The ring is valid, and every printer writes to one of its slots.
pub record Inv (s : System) : Type 0 where
  pub valid : IsValid s.shm
  pub in_range : (i : ℕ) → is_printing (s.pc i) ≡ true → target (s.pc i) < s.shm.max_messages

module _ {s : System} (v : Inv s) where
  pub target_lem :
      (i w : ℕ) (p : Pc) → s.pc i ≡ p → is_printing p ≡ true → target p ≡ w → w < s.shm.max_messages
  target_lem i w p e pr t = let b = v.in_range i in ground arith

module _ {prints reads : ℕ → Bool} {s : System} (v : Inv s) where
  Step-IsValid : {t : System} → Step prints reads s t → IsValid t.shm
  Step-IsValid (Step.drops i w d text e p n) =
      IsValid-printed s.shm d v.valid
        (next_lem s.shm s.shm.act_printed d v.valid v.valid.printed_in_range n).1
  Step-IsValid (Step.copies i w text e p) =
      IsValid-with_block s.shm w text v.valid (target_lem v i w (Pc.copying w text) e refl refl)
  Step-IsValid (Step.stores i w text e) =
      IsValid-written s.shm w v.valid (target_lem v i w (Pc.storing w text) e refl refl)
  Step-IsValid (Step.marks i n e p q r) =
      IsValid-printed s.shm n v.valid
        (next_lem s.shm s.shm.act_printed n v.valid v.valid.printed_in_range r).1
  Step-IsValid st = v.valid

  Step-in_range :
      {t : System}
      → Step prints reads s t
      → (k : ℕ) → is_printing (t.pc k) ≡ true
      → target (t.pc k) < t.shm.max_messages
  Step-in_range (Step.begins i w text e p n) k h =
      let (same, below) = next_lem s.shm s.shm.act_written w v.valid v.valid.written_in_range n in
      ground (arith, v.in_range k)
  Step-in_range (Step.drops i w d text e p n) k h = ground (arith, v.in_range k, v.in_range i)
  Step-in_range (Step.finds_space i w text e p) k h = ground (arith, v.in_range k, v.in_range i)
  Step-in_range (Step.copies i w text e p) k h = ground (arith, v.in_range k, v.in_range i)
  Step-in_range st k h = ground (arith, v.in_range k)

  pub Step-Inv : {t : System} → Step prints reads s t → Inv t
  Step-Inv st = record { valid = Step-IsValid st; in_range = Step-in_range st }
