-- ===== src/Io/Ring.antt =====
-- The ring of messages against a queue that keeps the newest ones.
use libosal.Prelude.{
  ℕ, ◌-◌, ◌≤◌, ◌<◌, ◌≡◌, refl, sym, ap, ◌∙◌, Option, some, List, [], ◌∷◌, arith, ◌==◌, Bool-cases,
  inl, inr,
}
use libosal.Prelude.Bytes.{length-overwrite}
use libosal.Osal.{Retval}
use libosal.Io.{
  IoShm, offset, count_up, shm_printf, take_message, get_message, waited, max_msg_size,
}
use libosal.Io.Queue.{push, after, used, oldest, window, window-push, window_nil, window_cons}
use libosal.Io.Slots.{
  IsValid, slot, message, next_index-after, offset_lem, slot_lem, message_lem, with_block,
  length-message, slot-with_block_self, slot-with_block_ne,
}

-- The messages that are not read yet, the oldest first.
abbrev pub messages : IoShm → List (List ℕ)
messages shm =
    window shm.max_messages (slot shm) shm.act_printed
      (used shm.max_messages shm.act_printed shm.act_written)

-- The ring after osal_printf.
abbrev printed : IoShm → List ℕ → IoShm
printed shm text =
    let w = after shm.max_messages shm.act_written in
    record (with_block shm w (message shm.max_message_size text)) {
      sem = count_up shm.sem;
      act_printed = oldest shm.max_messages shm.act_printed shm.act_written;
      act_written = w;
    }

shm_printf_lem :
    (shm : IoShm) (text : List ℕ) → IsValid shm → shm_printf shm text ≡ some (printed shm text)
unfolding shm_printf
shm_printf_lem shm text v =
    let w : after shm.max_messages shm.act_written < shm.max_messages = ground arith in
    let room = offset_lem (after shm.max_messages shm.act_written) v w in
    ground (
      arith,
      next_index-after shm.act_written v v.written_in_range,
      next_index-after shm.act_printed v v.printed_in_range,
      message_lem shm text,
      room,
      length-message shm (after shm.max_messages shm.act_written) text v w,
    )

printed-IsValid : (shm : IoShm) (text : List ℕ) → IsValid shm → IsValid (printed shm text)
printed-IsValid shm text v =
    let w : after shm.max_messages shm.act_written < shm.max_messages = ground arith in
    let same =
      length-overwrite shm.msgs (offset shm (after shm.max_messages shm.act_written))
        (message shm.max_message_size text)
        (omega (arith, offset_lem _ v w, length-message shm _ text v w)) in
    record {
      some_slot = v.some_slot;
      few_slots = v.few_slots;
      printed_in_range = ground arith;
      written_in_range = w;
      room = omega (arith, v.room, same);
      small = v.small;
    }

messages-printed :
    (shm : IoShm) (text : List ℕ)
    → IsValid shm
    → messages (printed shm text)
      ≡ push (shm.max_messages - 1) (messages shm) (message shm.max_message_size text)
messages-printed shm text v =
    let w : after shm.max_messages shm.act_written < shm.max_messages = ground arith in
    window-push shm.max_messages (slot shm) (slot (printed shm text))
      (message shm.max_message_size text) shm.act_printed shm.act_written v.printed_in_range
      v.written_in_range (slot-with_block_self shm _ text v w) (slot-with_block_ne shm _ text v w)

-- On a valid ring osal_printf writes in range and keeps the ring valid. It adds the message, as a
-- slot holds it, to the unread ones, and drops the oldest of these where there would be as many as
-- slots.
pub shm_printf_refines :
    (shm : IoShm) (text : List ℕ)
    → IsValid shm
    → (shm' : IoShm) × (shm_printf shm text ≡ some shm')
      × IsValid shm'
      × (shm'.max_messages ≡ shm.max_messages)
      × (shm'.max_message_size ≡ shm.max_message_size)
      × (messages shm'
          ≡ push (shm.max_messages - 1) (messages shm) (message shm.max_message_size text))
shm_printf_refines shm text v = (
  printed shm text,
  shm_printf_lem shm text v,
  printed-IsValid shm text v,
  refl,
  refl,
  messages-printed shm text v,
)

-- What a reader of a queue gets, and what is left.
abbrev pub pop : List (List ℕ) → Retval × List ℕ × List (List ℕ)
pop [] = (Retval.unavailable, [], [])
pop (m ∷ ms) = (Retval.ok, m, ms)

-- The ring that osal_io_shm_get_message reads from: where no message is unread, the one after the
-- wait.
abbrev pub seen : IoShm → Option (IoShm → IoShm) → IoShm
seen shm to = elim (messages shm) [ [] ↦ waited shm to | _ ∷ _ ↦ shm ]

next_lem : (shm : IoShm) → IsValid shm → after shm.max_messages shm.act_printed < shm.max_messages
next_lem shm v = ground arith

abbrev popped : IoShm → IoShm
popped shm = record shm { act_printed = after shm.max_messages shm.act_printed }

popped-IsValid : (shm : IoShm) → IsValid shm → IsValid (popped shm)
popped-IsValid shm v = record {
  some_slot = v.some_slot;
  few_slots = v.few_slots;
  printed_in_range = next_lem shm v;
  written_in_range = v.written_in_range;
  room = v.room;
  small = v.small;
}

pub take_message_refines :
    (shm : IoShm)
    → IsValid shm
    → shm.max_message_size ≤ max_msg_size
    → (ret : Retval) × (bytes : List ℕ) × (shm' : IoShm) × (take_message shm
        ≡ some (ret, bytes, shm'))
      × IsValid shm'
      × ((ret, bytes, messages shm') ≡ pop (messages shm))
unfolding take_message
take_message_refines shm v fits = elim (Bool-cases (shm.act_printed == shm.act_written)) [
  | inl e ↦
      let empty =
        window_nil shm.max_messages (slot shm) shm.act_printed shm.act_written (ground arith) in
      (Retval.unavailable, [], shm, ground arith, v, ground (arith, empty))
  | inr e ↦
      let first =
        window_cons shm.max_messages (slot shm) shm.act_printed shm.act_written v.printed_in_range
          v.written_in_range (ground arith) in
      (
        Retval.ok,
        slot shm (after shm.max_messages shm.act_printed),
        popped shm,
        ground (
          arith,
          next_index-after shm.act_printed v v.printed_in_range,
          slot_lem (after shm.max_messages shm.act_printed) v (next_lem shm v),
        ),
        popped-IsValid shm v,
        ap pop (sym first),
      )
]

pub seen_lem :
    (shm : IoShm) (to : Option (IoShm → IoShm))
    → IsValid shm
    → get_message shm to ≡ take_message (seen shm to)
unfolding get_message
seen_lem shm to v = elim (Bool-cases (shm.act_printed == shm.act_written)) [
  | inl e ↦
      let empty =
        window_nil shm.max_messages (slot shm) shm.act_printed shm.act_written (ground arith) in
      ground (arith, empty)
  | inr e ↦
      let first =
        window_cons shm.max_messages (slot shm) shm.act_printed shm.act_written v.printed_in_range
          v.written_in_range (ground arith) in
      ground (arith, first)
]

-- Where the ring and the ring after the wait are valid, with messages that the caller's buffer
-- holds, osal_io_shm_get_message returns and keeps the ring valid. It takes the oldest unread
-- message and leaves the others. Where none is unread, it does so on the ring after the wait, and
-- returns OSAL_ERR_UNAVAILABLE and no bytes where none is unread there either.
pub get_message_refines :
    (shm : IoShm) (to : Option (IoShm → IoShm))
    → IsValid shm
    → IsValid (seen shm to)
    → (seen shm to).max_message_size ≤ max_msg_size
    → (ret : Retval) × (bytes : List ℕ) × (shm' : IoShm) × (get_message shm to
        ≡ some (ret, bytes, shm'))
      × IsValid shm'
      × ((ret, bytes, messages shm') ≡ pop (messages (seen shm to)))
get_message_refines shm to v w fits =
    let (ret, bytes, shm', e, valid, popped) = take_message_refines (seen shm to) w fits in
    (ret, bytes, shm', seen_lem shm to v ∙ e, valid, popped)

-- A reader changes nothing but the index of the messages that are read.
pub take_message-keeps :
    (shm shm' : IoShm) (ret : Retval) (bytes : List ℕ)
    → IsValid shm
    → take_message shm ≡ some (ret, bytes, shm')
    → (shm'.max_messages ≡ shm.max_messages) × (shm'.max_message_size ≡ shm.max_message_size)
unfolding take_message
take_message-keeps shm shm' ret bytes v e = ground (
  arith,
  next_index-after shm.act_printed v v.printed_in_range,
  slot_lem (after shm.max_messages shm.act_printed) v (next_lem shm v),
)
