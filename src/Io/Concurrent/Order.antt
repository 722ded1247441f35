-- ===== src/Io/Concurrent/Order.antt =====
-- One printer and one reader need no lock, as long as no message is dropped.
use libosal.Prelude.{ℕ, ◌≡◌, ◌≢◌, refl, Bool, true, false, List, [], ◌∷◌, ◌++◌, arith}
use libosal.Io.Queue.{after}
use libosal.Io.Slots.{slot, message}
use libosal.Io.Ring.{messages}
use libosal.Io.Concurrent.{Pc, System, Step}
use libosal.Io.Concurrent.Indices.{is_printing, target}

-- No two tasks do it.
abbrev pub OneTask : (ℕ → Bool) → Type 0
OneTask does = (i j : ℕ) → does i ≡ true → does j ≡ true → i ≡ j

abbrev pub is_reading : Pc → Bool
is_reading Pc.reading = true
is_reading _ = false

abbrev has_space : Pc → Bool
has_space (Pc.copying w text) = true
has_space (Pc.storing w text) = true
has_space _ = false

-- Whose steps are whose.
pub record Roles (prints reads : ℕ → Bool) (s : System) : Type 0 where
  pub printer : (i : ℕ) → is_printing (s.pc i) ≡ true → prints i ≡ true
  pub reader : (i : ℕ) → is_reading (s.pc i) ≡ true → reads i ≡ true
  pub quiet : ((i : ℕ) → is_reading (s.pc i) ≡ false) → s.pending ≡ []

-- With one printer and one reader, and no message dropped.
pub record Flow (s : System) : Type 0 where
  pub next :
      (i : ℕ)
      → is_printing (s.pc i) ≡ true
      → target (s.pc i) ≡ after s.shm.max_messages s.shm.act_written
  pub free : (i : ℕ) → has_space (s.pc i) ≡ true → target (s.pc i) ≢ s.shm.act_printed
  pub stored :
      (i w : ℕ) (text : List ℕ)
      → s.pc i ≡ Pc.storing w text
      → slot s.shm w ≡ message s.shm.max_message_size text
  pub busy : (i : ℕ) → is_reading (s.pc i) ≡ true → s.pending ≡ slot s.shm s.shm.act_printed ∷ []
  pub flow : s.got ++ s.pending ++ messages s.shm ≡ s.sent

module _ {prints reads : ℕ → Bool} {s : System} (r : Roles prints reads s) where
  Step-printer :
      {t : System} → Step prints reads s t → (k : ℕ) → is_printing (t.pc k) ≡ true → prints k ≡ true
  Step-printer (Step.begins i w text e p n) k h = ground (arith, r.printer k)
  Step-printer (Step.drops i w d text e p n) k h = ground (arith, r.printer k, r.printer i)
  Step-printer (Step.finds_space i w text e p) k h = ground (arith, r.printer k, r.printer i)
  Step-printer (Step.copies i w text e p) k h = ground (arith, r.printer k, r.printer i)
  Step-printer st k h = ground (arith, r.printer k)

  Step-reader :
      {t : System} → Step prints reads s t → (k : ℕ) → is_reading (t.pc k) ≡ true → reads k ≡ true
  Step-reader (Step.marks i n e p q x) k h = ground (arith, r.reader k)
  Step-reader st k h = ground (arith, r.reader k)

  Step-quiet :
      {t : System}
      → Step prints reads s t
      → ((k : ℕ) → is_reading (t.pc k) ≡ false)
      → t.pending ≡ []
  Step-quiet (Step.begins i w text e p n) h = r.quiet (λ k. ground (arith, h k))
  Step-quiet (Step.drops i w d text e p n) h = r.quiet (λ k. ground (arith, h k))
  Step-quiet (Step.finds_space i w text e p) h = r.quiet (λ k. ground (arith, h k))
  Step-quiet (Step.copies i w text e p) h = r.quiet (λ k. ground (arith, h k))
  Step-quiet (Step.stores i w text e) h = r.quiet (λ k. ground (arith, h k))
  Step-quiet (Step.finds_none i e p q) h = r.quiet h
  Step-quiet (Step.marks i n e p q x) h = absurd (ground (arith, h i))
  Step-quiet (Step.reads_slot i e) h = refl

  pub Step-Roles : {t : System} → Step prints reads s t → Roles prints reads t
  Step-Roles st = record {
    printer = Step-printer st;
    reader = Step-reader st;
    quiet = Step-quiet st;
  }
