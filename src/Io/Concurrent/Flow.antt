-- ===== src/Io/Concurrent/Flow.antt =====
-- Every step of one printer and one reader keeps the messages in order, as long as none is dropped.
use libosal.Prelude.{
  ℕ, ◌≡◌, ◌≢◌, refl, sym, ap, ◌∙◌, Bool, true, false, some, ap₂, List, [], ◌∷◌, ◌++◌, arith, ◌==◌,
  Bool-cases, inl, inr,
}
use mathlib.Core.List.{append_assoc, append-nil}
use libosal.Io.{next_index, count_up}
use libosal.Io.Queue.{after}
use libosal.Io.Slots.{slot, message, with_block, slot-with_block_self, slot-with_block_ne}
use libosal.Io.Ring.{messages}
use libosal.Io.Concurrent.{Pc, System, Step, goto}
use libosal.Io.Concurrent.Indices.{is_printing, next_lem, Inv, target_lem}
use libosal.Io.Concurrent.Window.{messages-with_block, messages-written, messages-marked}
use libosal.Io.Concurrent.Order.{OneTask, is_reading, Roles, Flow}

snoc :
    (got pending unread : List (List ℕ)) (m : List ℕ)
    → got ++ pending ++ (unread ++ (m ∷ [])) ≡ (got ++ pending ++ unread) ++ (m ∷ [])
snoc got pending unread m = sym (append_assoc (got ++ pending) unread (m ∷ []))

marked :
    (got pending unread : List (List ℕ)) (m : List ℕ)
    → got ++ (pending ++ (m ∷ [])) ++ unread ≡ got ++ pending ++ (m ∷ unread)
marked got pending unread m =
    ap (λ l. l ++ unread) (sym (append_assoc got pending (m ∷ [])))
    ∙ append_assoc (got ++ pending) (m ∷ []) unread

module _ {prints reads : ℕ → Bool} {s : System} (v : Inv s) (r : Roles prints reads s) (f : Flow s)
    (printers : OneTask prints) (readers : OneTask reads) where
  -- A second printer would be the first one.
  alone : (i k : ℕ) → is_printing (s.pc i) ≡ true → is_printing (s.pc k) ≡ true → i ≡ k
  alone i k h p = printers i k (r.printer i h) (r.printer k p)

  -- A second reader would be the first one.
  sole : (i k : ℕ) → is_reading (s.pc i) ≡ true → is_reading (s.pc k) ≡ true → i ≡ k
  sole i k h p = readers i k (r.reader i h) (r.reader k p)

  Flow-begins :
      (i w : ℕ) (text : List ℕ)
      → s.pc i ≡ Pc.idle
      → next_index s.shm s.shm.act_written ≡ some w
      → Flow (record s { pc = goto s.pc i (Pc.testing w text) })
  Flow-begins i w text e n =
      let (same, below) = next_lem s.shm s.shm.act_written w v.valid v.valid.written_in_range n in
      record {
        next = λ k h. ground (arith, f.next k);
        free = λ k h d. ground (arith, f.free k);
        stored = λ k w' text' h. ground (arith, f.stored k w' text');
        busy = λ k h. ground (arith, f.busy k);
        flow = f.flow;
      }

  Flow-finds_space :
      (i w : ℕ) (text : List ℕ)
      → s.pc i ≡ Pc.testing w text
      → w ≢ s.shm.act_printed
      → Flow (record s { pc = goto s.pc i (Pc.copying w text) })
  Flow-finds_space i w text e p = record {
    next = λ k h. ground (arith, f.next k, f.next i);
    free = λ k h d. ground (arith, f.free k);
    stored = λ k w' text' h. ground (arith, f.stored k w' text');
    busy = λ k h. ground (arith, f.busy k);
    flow = f.flow;
  }

  Flow-copies :
      (i w : ℕ) (text : List ℕ)
      → s.pc i ≡ Pc.copying w text
      → Flow (record s {
        shm = with_block s.shm w (message s.shm.max_message_size text);
        pc = goto s.pc i (Pc.storing w text);
      })
  Flow-copies i w text e =
      let below = target_lem v i w (Pc.copying w text) e refl refl in
      let last : w ≡ after s.shm.max_messages s.shm.act_written = ground (arith, f.next i) in
      let apart : w ≢ s.shm.act_printed = λ d. ground (arith, f.free i) in
      let here = slot-with_block_self s.shm w text v.valid below in
      let there = slot-with_block_ne s.shm w text v.valid below in
      record {
        next = λ k h. ground (arith, f.next k);
        free = λ k h d. ground (arith, f.free k);
        stored = λ k w' text' h. elim (Bool-cases (i == k)) [
          | inl mine ↦
              let same_w : w' ≡ w = ground arith in
              let same_text : text' ≡ text = ground arith in rw (same_w, same_text) here
          | inr other ↦ absurd (ground (arith, alone i k))
        ];
        busy = λ k h.
            let was : s.pending ≡ slot s.shm s.shm.act_printed ∷ [] = f.busy k (ground arith) in
            was
            ∙ ap (λ x. x ∷ [])
                (sym (there s.shm.act_printed v.valid.printed_in_range (λ d. apart (sym d))));
        flow =
            ap (λ m. s.got ++ s.pending ++ m) (messages-with_block s.shm v.valid w last text)
            ∙ f.flow;
      }

  Flow-stores :
      (i w : ℕ) (text : List ℕ)
      → s.pc i ≡ Pc.storing w text
      → Flow (record s {
        shm = record s.shm { act_written = w; sem = count_up s.shm.sem };
        pc = goto s.pc i Pc.idle;
        sent = s.sent ++ (message s.shm.max_message_size text ∷ []);
      })
  Flow-stores i w text e =
      let last : w ≡ after s.shm.max_messages s.shm.act_written = ground (arith, f.next i) in
      let apart : w ≢ s.shm.act_printed = λ d. ground (arith, f.free i) in
      let here : slot s.shm w ≡ message s.shm.max_message_size text = f.stored i w text e in
      record {
        next = λ k h. absurd (ground (arith, alone i k));
        free = λ k h d. ground (arith, f.free k);
        stored = λ k w' text' h. f.stored k w' text' (ground arith);
        busy = λ k h. f.busy k (ground arith);
        flow =
            ap (λ m. s.got ++ s.pending ++ m) (messages-written s.shm v.valid w last apart)
            ∙ snoc s.got s.pending (messages s.shm) (slot s.shm w)
            ∙ ap₂ (λ all m. all ++ (m ∷ [])) f.flow here;
      }

  Flow-marks :
      (i n : ℕ)
      → s.pc i ≡ Pc.idle
      → reads i ≡ true
      → s.shm.act_printed ≢ s.shm.act_written
      → next_index s.shm s.shm.act_printed ≡ some n
      → Flow (record s {
        shm = record s.shm { act_printed = n };
        pc = goto s.pc i Pc.reading;
        pending = s.pending ++ (slot s.shm n ∷ []);
      })
  Flow-marks i n e p q x =
      let (same, below) = next_lem s.shm s.shm.act_printed n v.valid v.valid.printed_in_range x in
      let none_read : (k : ℕ) → is_reading (s.pc k) ≡ false = λ k.
        elim (Bool-cases (is_reading (s.pc k))) [
          | inl busy ↦ absurd (ground (arith, readers i k p (r.reader k busy)))
          | inr free ↦ free
        ] in
      let empty : s.pending ≡ [] = r.quiet none_read in
      record {
        next = λ k h. ground (arith, f.next k);
        free =
            λ k h d. ground (arith, f.next k, v.valid.printed_in_range, v.valid.written_in_range);
        stored = λ k w' text' h. f.stored k w' text' (ground arith);
        busy = λ k h. ap (λ m. m ++ (slot s.shm n ∷ [])) empty;
        flow =
            marked s.got s.pending (messages (record s.shm { act_printed = n })) (slot s.shm n)
            ∙ ap (λ m. s.got ++ s.pending ++ m) (sym (messages-marked s.shm n v.valid q same))
            ∙ f.flow;
      }

  Flow-reads_slot :
      (i : ℕ)
      → s.pc i ≡ Pc.reading
      → Flow (record s {
        pc = goto s.pc i Pc.idle;
        got = s.got ++ (slot s.shm s.shm.act_printed ∷ []);
        pending = [];
      })
  Flow-reads_slot i e =
      let was : s.pending ≡ slot s.shm s.shm.act_printed ∷ [] = f.busy i (ground arith) in
      record {
        next = λ k h. ground (arith, f.next k);
        free = λ k h d. ground (arith, f.free k);
        stored = λ k w' text' h. f.stored k w' text' (ground arith);
        busy = λ k h. absurd (ground (arith, sole i k));
        flow =
            ap (λ l. l ++ messages s.shm)
              (append-nil (s.got ++ (slot s.shm s.shm.act_printed ∷ [])))
            ∙ ap (λ l. s.got ++ l ++ messages s.shm) (sym was)
            ∙ f.flow;
      }

  pub Step-Flow : {t : System} → Step prints reads s t → t.dropped ≡ s.dropped → Flow t
  Step-Flow (Step.begins i w text e p n) same = Flow-begins i w text e n
  Step-Flow (Step.drops i w d text e p n) same = absurd (omega arith)
  Step-Flow (Step.finds_space i w text e p) same = Flow-finds_space i w text e p
  Step-Flow (Step.copies i w text e p) same = Flow-copies i w text e
  Step-Flow (Step.stores i w text e) same = Flow-stores i w text e
  Step-Flow (Step.finds_none i e p q) same = f
  Step-Flow (Step.marks i n e p q x) same = Flow-marks i n e p q x
  Step-Flow (Step.reads_slot i e) same = Flow-reads_slot i e
