-- ===== src/Io/Concurrent/Window.antt =====
-- What the separate steps of a printer and of a reader do to the unread messages.
use libosal.Prelude.{
  ℕ, zero, suc, ◌+◌, ◌<◌, ◌≤◌, ◌≡◌, ◌≢◌, refl, ap, ap₂, ◌∙◌, List, [], ◌∷◌, ◌++◌, arith, ltb,
  if◌then◌else◌, ◌-◌,
}
use libosal.Io.{IoShm, count_up}
use libosal.Io.Queue.{after, used, window, window-snoc, window_cons}
use libosal.Io.Slots.{IsValid, slot, message, with_block, slot-with_block_ne}
use libosal.Io.Ring.{messages}

-- A slot outside of a window may change.
window-same :
    (max : ℕ) (slot slot' : ℕ → List ℕ) (i n w : ℕ)
    → i < max
    → n + 1 ≤ max
    → w ≡ (if ltb (i + n + 1) max then i + n + 1 else i + n + 1 - max)
    → ((k : ℕ) → k < max → k ≢ w → slot' k ≡ slot k)
    → window max slot' i n ≡ window max slot i n
unfolding window
window-same max slot slot' i zero w hi hn e same = refl
window-same max slot slot' i (suc n) w hi hn e same =
    ap₂ ◌∷◌ (same (after max i) (ground arith) (ground arith)) (
      window-same max slot slot' (after max i) n w (ground arith) (omega arith) (ground arith) same)

module _ (shm : IoShm) (v : IsValid shm) (w : ℕ)
    (next : w ≡ after shm.max_messages shm.act_written) where
  w_below : w < shm.max_messages
  w_below = let h = v.written_in_range in ground arith

  -- The copy into the slot that is not visible yet.
  pub messages-with_block :
      (text : List ℕ)
      → messages (with_block shm w (message shm.max_message_size text)) ≡ messages shm
  messages-with_block text =
      window-same shm.max_messages (slot shm)
        (slot (with_block shm w (message shm.max_message_size text))) shm.act_printed
        (used shm.max_messages shm.act_printed shm.act_written) w v.printed_in_range
        (ground (arith, v.printed_in_range, v.written_in_range))
        (ground (arith, v.printed_in_range, v.written_in_range))
        (slot-with_block_ne shm w text v w_below)

  -- The store of `act_written`, where the ring is not full.
  pub messages-written :
      w ≢ shm.act_printed
      → messages (record shm { act_written = w; sem = count_up shm.sem })
        ≡ messages shm ++ (slot shm w ∷ [])
  messages-written free =
      let more : used shm.max_messages shm.act_printed w
          ≡ suc (used shm.max_messages shm.act_printed shm.act_written) =
        ground (arith, v.printed_in_range, v.written_in_range) in
      ap (window shm.max_messages (slot shm) shm.act_printed) more
      ∙ window-snoc shm.max_messages (slot shm) (slot shm) shm.act_printed
          (used shm.max_messages shm.act_printed shm.act_written) w v.printed_in_range
          (ground (arith, v.printed_in_range, v.written_in_range))
          (ground (arith, v.printed_in_range, v.written_in_range)) (λ k h d. refl)

-- The store of `act_printed` by a reader.
pub messages-marked :
    (shm : IoShm) (next : ℕ)
    → IsValid shm
    → shm.act_printed ≢ shm.act_written
    → next ≡ after shm.max_messages shm.act_printed
    → messages shm ≡ slot shm next ∷ messages (record shm { act_printed = next })
messages-marked shm next v unread e = rw e (
    window_cons shm.max_messages (slot shm) shm.act_printed shm.act_written v.printed_in_range
      v.written_in_range unread)
