-- ===== src/Io/Concurrent/Lost.antt =====
-- Two printers that write one slot.
use libosal.Prelude.{ℕ, ◌<◌, ◌≡◌, ◌≢◌, refl, ap, ◌∙◌, Bool, true, List, [], ◌∷◌, ◌++◌, arith}
use libosal.Io.{IoShm, count_up}
use libosal.Io.Queue.{after}
use libosal.Io.Slots.{
  IsValid, slot, message, with_block, next_index-after, offset_lem, slot-with_block_self,
}
use libosal.Io.Ring.{messages}
use libosal.Io.Concurrent.{Pc, System, Step, Reach, goto}
use libosal.Io.Concurrent.Indices.{IsValid-with_block}
use libosal.Io.Concurrent.Window.{messages-with_block, messages-written}

module _ (s : System) (i j : ℕ) (a b : List ℕ) where
  -- The slot that both printers find.
  abbrev w : ℕ
  w = after s.shm.max_messages s.shm.act_written

  -- Both before the test, before the copy, before the store, and after it.
  abbrev tested : System
  tested = record s { pc = goto (goto s.pc i (Pc.testing w a)) j (Pc.testing w b) }

  abbrev spaced : System
  spaced = record s { pc = goto (goto tested.pc i (Pc.copying w a)) j (Pc.copying w b) }

  abbrev once : IoShm
  once = with_block s.shm w (message s.shm.max_message_size a)

  abbrev twice : IoShm
  twice = with_block once w (message s.shm.max_message_size b)

  abbrev overwritten : System
  overwritten = record s {
    shm = twice;
    pc = goto (goto spaced.pc i (Pc.storing w a)) j (Pc.storing w b);
  }

  abbrev both_stored : System
  both_stored = record s {
    shm = record twice { act_written = w; sem = count_up (count_up s.shm.sem) };
    pc = goto (goto overwritten.pc i Pc.idle) j Pc.idle;
    sent =
        s.sent
        ++ (message s.shm.max_message_size a ∷ [])
        ++ (message s.shm.max_message_size b ∷ []);
  }

module _ (s : System) (i j : ℕ) (a b : List ℕ) (v : IsValid s.shm) where
  slot_in_range : w s i j a b < s.shm.max_messages
  slot_in_range = let h = v.written_in_range in ground arith

  messages-both_stored :
      w s i j a b ≢ s.shm.act_printed
      → messages (both_stored s i j a b).shm
        ≡ messages s.shm ++ (message s.shm.max_message_size b ∷ [])
  messages-both_stored free =
      let v1 = IsValid-with_block s.shm (w s i j a b) a v slot_in_range in
      let v2 = IsValid-with_block (once s i j a b) (w s i j a b) b v1 slot_in_range in
      messages-written (twice s i j a b) v2 (w s i j a b) refl free
      ∙ ap (λ l. l ++ (slot (twice s i j a b) (w s i j a b) ∷ []))
          (messages-with_block (once s i j a b) v1 (w s i j a b) refl b
            ∙ messages-with_block s.shm v (w s i j a b) refl a)
      ∙ ap (λ m. messages s.shm ++ (m ∷ []))
          (slot-with_block_self (once s i j a b) (w s i j a b) b v1 slot_in_range)

module _ {prints reads : ℕ → Bool} (s : System) (i j : ℕ) (a b : List ℕ) (v : IsValid s.shm)
    (distinct : i ≢ j) where
  to_tested :
      s.pc i ≡ Pc.idle
      → s.pc j ≡ Pc.idle
      → prints i ≡ true
      → prints j ≡ true
      → Reach prints reads s (tested s i j a b)
  to_tested p q c d =
      let found = next_index-after s.shm.act_written v v.written_in_range in
      Reach.later (Reach.later Reach.start (Step.begins i _ a p c found))
        (Step.begins j _ b (ground arith) d found)

  to_spaced :
      w s i j a b ≢ s.shm.act_printed
      → Reach prints reads s (tested s i j a b)
      → Reach prints reads s (spaced s i j a b)
  to_spaced free r =
      Reach.later (Reach.later r (Step.finds_space i _ a (ground arith) free))
        (Step.finds_space j _ b (ground arith) free)

  to_overwritten :
      Reach prints reads s (spaced s i j a b) → Reach prints reads s (overwritten s i j a b)
  to_overwritten r =
      let room = (offset_lem (w s i j a b) v (slot_in_range s i j a b v)).1 in
      let w' = IsValid-with_block s.shm (w s i j a b) a v (slot_in_range s i j a b v) in
      let room' = (offset_lem (w s i j a b) w' (slot_in_range s i j a b v)).1 in
      Reach.later (Reach.later r (Step.copies i (w s i j a b) a (ground arith) room))
        (Step.copies j (w s i j a b) b (ground arith) room')

  to_stored :
      Reach prints reads s (overwritten s i j a b) → Reach prints reads s (both_stored s i j a b)
  to_stored r =
      Reach.later (Reach.later r (Step.stores i (w s i j a b) a (ground arith)))
        (Step.stores j (w s i j a b) b (ground arith))

  -- Two tasks outside of any call that both print to a valid ring with space can run so that both
  -- calls end, no message is dropped from a full ring, and of the two messages only the second one is
  -- there to be read: both have read the same index, since nothing locks the mutex of the ring.
  pub two_printers_lose_one :
      s.pc i ≡ Pc.idle
      → s.pc j ≡ Pc.idle
      → prints i ≡ true
      → prints j ≡ true
      → after s.shm.max_messages s.shm.act_written ≢ s.shm.act_printed
      → (t : System) × Reach prints reads s t
        × (t.pc i ≡ Pc.idle)
        × (t.pc j ≡ Pc.idle)
        × (t.dropped ≡ s.dropped)
        × (t.sent
            ≡ s.sent
              ++ (message s.shm.max_message_size a ∷ [])
              ++ (message s.shm.max_message_size b ∷ []))
        × (messages t.shm ≡ messages s.shm ++ (message s.shm.max_message_size b ∷ []))
  two_printers_lose_one p q c d free = (
    both_stored s i j a b,
    to_stored (to_overwritten (to_spaced free (to_tested p q c d))),
    ground arith,
    ground arith,
    refl,
    refl,
    messages-both_stored s i j a b v free,
  )
