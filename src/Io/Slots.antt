-- ===== src/Io/Slots.antt =====
-- The slots of the ring in its bytes: the slot that is written holds the message, the others are as
-- they were.
use libosal.Prelude.{
  ℕ, zero, suc, ◌+◌, ◌*◌, ◌^◌, ◌≤◌, ◌<◌, ◌≡◌, ◌≢◌, refl, sym, ap, ◌∙◌, Option, none, some, List, [],
  ◌∷◌, ◌++◌, arith, ltb, length, take, drop, length-drop, if◌then◌else◌, ◌==◌, replicate,
  Bool-cases, inl, inr, ltb→lt, ◌%◌,
}
use native.Mathlib.Nat.{mod-eq_of_lt, mod_self}
use libosal.Prelude.Word.{u32}
use libosal.Prelude.Bytes.{
  strncpy, overwrite, length-overwrite, length-strncpy, strncpy-total, strncpy_again, strncpy-take,
  drop-overwrite_self, drop-overwrite_after, take-overwrite_before,
}
use libosal.Io.{IoShm, offset, next_index, formatted}
use libosal.Io.Queue.{after}

pub record IsValid (shm : IoShm) : Type 0 where
  pub some_slot : 0 < shm.max_messages
  pub few_slots : shm.max_messages < 2 ^ 32
  pub printed_in_range : shm.act_printed < shm.max_messages
  pub written_in_range : shm.act_written < shm.max_messages
  pub room : shm.max_messages * shm.max_message_size ≤ length shm.msgs
  pub small : shm.max_messages * shm.max_message_size < 2 ^ 64

abbrev bytes_of : Option (List ℕ) → List ℕ
bytes_of none = []
bytes_of (some bytes) = bytes

-- What a reader of a slot gets.
abbrev pub slot : IoShm → ℕ → List ℕ
slot shm i = bytes_of (strncpy shm.max_message_size (drop (offset shm i) shm.msgs))

-- What a slot of a size holds of a text.
abbrev pub message : ℕ → List ℕ → List ℕ
message size text = bytes_of (strncpy size (formatted text))

pub next_index-after :
    {shm : IoShm} (i : ℕ)
    → IsValid shm
    → i < shm.max_messages
    → next_index shm i ≡ some (after shm.max_messages i)
unfolding next_index
next_index-after {shm} i v h = elim (Bool-cases (i + 1 == shm.max_messages)) [
  | inl e ↦
      let same : u32 (i + 1) ≡ shm.max_messages = ground arith in
      ground (arith, ap (λ a. a % shm.max_messages) same, mod_self shm.max_messages)
  | inr e ↦
      let same : u32 (i + 1) ≡ i + 1 = ground arith in
      let next_below : i + 1 < shm.max_messages = ground arith in
      ground (arith, ap (λ a. a % shm.max_messages) same, mod-eq_of_lt next_below)
]

mul_add_le : (i j n : ℕ) → i < j → i * n + n ≤ j * n
mul_add_le zero zero n h = elim h [ ]
mul_add_le (suc i) zero n h = elim h [ ]
mul_add_le zero (suc j) n h = ground arith
mul_add_le (suc i) (suc j) n h = ground (arith, mul_add_le i j n (omega arith))

-- A slot lies in the memory.
pub offset_lem :
    {shm : IoShm} (i : ℕ)
    → IsValid shm
    → i < shm.max_messages
    → (offset shm i ≡ i * shm.max_message_size)
      × (offset shm i + shm.max_message_size ≤ length shm.msgs)
offset_lem {shm} i v h =
    let below = mul_add_le i shm.max_messages shm.max_message_size h in ground (arith, below)

-- A slot is read in range.
pub slot_lem :
    {shm : IoShm} (i : ℕ)
    → IsValid shm
    → i < shm.max_messages
    → strncpy shm.max_message_size (drop (offset shm i) shm.msgs) ≡ some (slot shm i)
slot_lem {shm} i v h =
    let (bytes, e) =
      strncpy-total shm.max_message_size (drop (offset shm i) shm.msgs)
        (omega (arith, offset_lem i v h, length-drop (offset shm i) shm.msgs)) in
    e ∙ ap (λ o. some (bytes_of o)) (sym e)

strncpy-formatted :
    (n : ℕ) (text : List ℕ) → (cs : List ℕ) × (strncpy n (text ++ (0 ∷ [])) ≡ some cs)
strncpy-formatted zero text = ([], refl)
strncpy-formatted (suc n) [] = (_, refl)
strncpy-formatted (suc n) (c ∷ text) =
    let (rest, f) = strncpy-formatted n text in
    (if c == 0 then replicate (suc n) 0 else c ∷ rest, ground arith)

-- The buffer of osal_printf is read in range, since the text in it ends with a NUL.
pub message_lem :
    (shm : IoShm) (text : List ℕ)
    → strncpy shm.max_message_size (formatted text) ≡ some (message shm.max_message_size text)
message_lem shm text =
    let (bytes, e) = strncpy-formatted shm.max_message_size (take 529 text) in
    e ∙ ap (λ o. some (bytes_of o)) (sym e)

abbrev pub with_block : IoShm → ℕ → List ℕ → IoShm
with_block shm w block = record shm { msgs = overwrite shm.msgs (offset shm w) block }

module _ (shm : IoShm) (w : ℕ) (text : List ℕ) (v : IsValid shm) (h : w < shm.max_messages) where
  pub length-message : length (message shm.max_message_size text) ≡ shm.max_message_size
  length-message = length-strncpy shm.max_message_size (formatted text) (message_lem shm text)

  pub slot-with_block_self :
      slot (with_block shm w (message shm.max_message_size text)) w
      ≡ message shm.max_message_size text
  slot-with_block_self =
      let (rest, e) =
        drop-overwrite_self shm.msgs (offset shm w) (message shm.max_message_size text)
          (omega (arith, offset_lem w v h, length-message)) in
      ap (λ m. bytes_of (strncpy shm.max_message_size m)) e
      ∙ ap bytes_of
          (strncpy_again shm.max_message_size (formatted text) rest (message_lem shm text))

  pub slot-with_block_ne :
      (k : ℕ)
      → k < shm.max_messages
      → k ≢ w
      → slot (with_block shm w (message shm.max_message_size text)) k ≡ slot shm k
  slot-with_block_ne k hk ne = elim (Bool-cases (ltb k w)) [
    | inl e ↦
        let below = mul_add_le k w shm.max_message_size (ltb→lt k w e) in
        ap bytes_of (
          sym (
            strncpy-take shm.max_message_size _ (
              omega (
                arith,
                offset_lem k v hk,
                length-drop (offset shm k)
                    (with_block shm w (message shm.max_message_size text)).msgs,
                length-overwrite shm.msgs (offset shm w) (message shm.max_message_size text)
                    (omega (arith, offset_lem w v h, length-message)),
              )))
          ∙ ap (strncpy shm.max_message_size) (
              take-overwrite_before shm.msgs (offset shm w) (message shm.max_message_size text)
                (offset shm k) shm.max_message_size
                (omega (arith, below, offset_lem k v hk, offset_lem w v h)))
          ∙ strncpy-take shm.max_message_size _
              (omega (arith, offset_lem k v hk, length-drop (offset shm k) shm.msgs)))
    | inr e ↦
        let below = mul_add_le w k shm.max_message_size (ground arith) in
        ap (λ m. bytes_of (strncpy shm.max_message_size m))
          (drop-overwrite_after shm.msgs (offset shm w) (message shm.max_message_size text)
            (offset shm k)
            (omega (arith, below, offset_lem k v hk, offset_lem w v h, length-message)))
  ]
