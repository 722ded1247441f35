-- ===== src/Io/Concurrent/Fifo.antt =====
-- A printer and a reader that run at the same time, from a ring at rest.
use libosal.Prelude.{ℕ, ◌≤◌, ◌≡◌, refl, Bool, [], ◌++◌, arith}
use libosal.Io.{IoShm}
use libosal.Io.Slots.{IsValid}
use libosal.Io.Ring.{messages}
use libosal.Io.Concurrent.{Pc, System, Step, Reach}
use libosal.Io.Concurrent.Indices.{Inv, Step-Inv}
use libosal.Io.Concurrent.Order.{OneTask, Roles, Flow, Step-Roles}
use libosal.Io.Concurrent.Flow.{Step-Flow}

-- A ring that no task uses. Its unread messages count as printed.
abbrev pub at_rest : IoShm → System
at_rest shm = record {
  shm = shm;
  pc = λ _. Pc.idle;
  sent = messages shm;
  got = [];
  pending = [];
  dropped = 0;
}

at_rest-Flow : (shm : IoShm) → Flow (at_rest shm)
at_rest-Flow shm = record {
  next = λ i h. cc;
  free = λ i h d. cc;
  stored = λ i w text h. cc;
  busy = λ i h. cc;
  flow = refl;
}

module _ {prints reads : ℕ → Bool} (shm : IoShm) (v : IsValid shm) where
  Reach-Inv : {s : System} → Reach prints reads (at_rest shm) s → Inv s
  Reach-Inv Reach.start = record { valid = v; in_range = λ i h. cc }
  Reach-Inv (Reach.later r st) = Step-Inv (Reach-Inv r) st

  Reach-Roles : {s : System} → Reach prints reads (at_rest shm) s → Roles prints reads s
  Reach-Roles Reach.start = record { printer = λ i h. cc; reader = λ i h. cc; quiet = λ h. refl }
  Reach-Roles (Reach.later r st) = Step-Roles (Reach-Roles r) st

  dropped-le : {s t : System} → Step prints reads s t → s.dropped ≤ t.dropped
  dropped-le (Step.drops i w d text e p n) = omega arith
  dropped-le st = omega arith

  Reach-Flow :
      {s : System}
      → OneTask prints
      → OneTask reads
      → Reach prints reads (at_rest shm) s
      → s.dropped ≡ 0
      → Flow s
  Reach-Flow printers readers Reach.start none_dropped = at_rest-Flow shm
  Reach-Flow printers readers (Reach.later r st) none_dropped =
      let f = Reach-Flow printers readers r (omega (arith, dropped-le st)) in
      Step-Flow (Reach-Inv r) (Reach-Roles r) f printers readers st (omega (arith, dropped-le st))

-- However the steps of one printer and one reader interleave, on a valid ring that no task has used
-- yet, the ring stays valid; and as long as no message was dropped from a full ring, the messages
-- that the reader has got, then the one that it is reading, then the unread ones are exactly the
-- messages printed, in their order: none is lost, read twice or torn.
pub ring_in_order :
    {prints reads : ℕ → Bool} {s : System} (shm : IoShm)
    → IsValid shm
    → OneTask prints
    → OneTask reads
    → Reach prints reads (at_rest shm) s
    → IsValid s.shm × (s.dropped ≡ 0 → s.got ++ s.pending ++ messages s.shm ≡ s.sent)
ring_in_order shm v printers readers r = (
  (Reach-Inv shm v r).valid,
  λ none_dropped. (Reach-Flow shm v printers readers r none_dropped).flow,
)
