-- ===== src/Io/Concurrent/Tests.antt =====
-- Runs of tasks on a ring of three slots of four bytes, and the theorems on them.
use libosal.Prelude.{ℕ, ◌≡◌, refl, Bool, true, some, List, [], ◌∷◌, ◌++◌, ◌==◌, arith}
use libosal.Io.{IoShm, next_index}
use libosal.Io.Slots.{IsValid, message}
use libosal.Io.Ring.{messages}
use libosal.Io.Concurrent.{Pc, System, Step, Reach}
use libosal.Io.Concurrent.Order.{OneTask}
use libosal.Io.Concurrent.Fifo.{at_rest, ring_in_order}
use libosal.Io.Concurrent.Lost.{two_printers_lose_one}

abbrev ring : IoShm
ring = record {
  magic = 11533824;
  max_messages = 3;
  max_message_size = 4;
  sem = 0;
  new_msg = 0;
  act_printed = 0;
  act_written = 0;
  msgs = 0 ∷ 0 ∷ 0 ∷ 0 ∷ 0 ∷ 0 ∷ 0 ∷ 0 ∷ 0 ∷ 0 ∷ 0 ∷ 0 ∷ [];
}

ring-IsValid : IsValid ring
ring-IsValid = record {
  some_slot = omega arith;
  few_slots = omega arith;
  printed_in_range = omega arith;
  written_in_range = omega arith;
  room = omega arith;
  small = omega arith;
}

abbrev only : ℕ → ℕ → Bool
only i j = i == j

only-OneTask : (i : ℕ) → OneTask (only i)
only-OneTask i j k p q = ground arith

abbrev hi : List ℕ
hi = 104 ∷ 105 ∷ []

first_slot : next_index ring 0 ≡ some 1
unfolding next_index
first_slot = refl

-- Task 0 prints, and task 1 marks the message as read while task 0 begins with the next one.
half_read :
    (s : System) × Reach (only 0) (only 1) (at_rest ring) s
    × (s.dropped ≡ 0)
    × (s.pending ≡ (104 ∷ 105 ∷ 0 ∷ 0 ∷ []) ∷ [])
    × (s.pc 0 ≡ Pc.testing 2 hi)
unfolding next_index
half_read = (
  _,
  Reach.later
      (Reach.later
        (Reach.later
          (Reach.later
            (Reach.later (Reach.later Reach.start (Step.begins 0 1 hi refl refl refl))
              (Step.finds_space 0 1 hi refl (λ e. omega arith)))
            (Step.copies 0 1 hi refl (omega arith)))
          (Step.stores 0 1 hi refl))
        (Step.marks 1 1 refl refl (λ e. omega arith) refl))
      (Step.begins 0 2 hi refl refl refl),
  refl,
  refl,
  refl,
)

ring_in_order_example :
    IsValid half_read.0.shm
    × (half_read.0.dropped ≡ 0
        → half_read.0.got ++ half_read.0.pending ++ messages half_read.0.shm ≡ half_read.0.sent)
ring_in_order_example =
    ring_in_order ring ring-IsValid (only-OneTask 0) (only-OneTask 1) half_read.1

abbrev anyone : ℕ → Bool
anyone i = true

two_printers_lose_one_example :
    (t : System) × Reach anyone anyone (at_rest ring) t
    × (t.pc 4 ≡ Pc.idle)
    × (t.pc 5 ≡ Pc.idle)
    × (t.dropped ≡ 0)
    × (t.sent ≡ messages ring ++ (message 4 hi ∷ []) ++ (message 4 [] ∷ []))
    × (messages t.shm ≡ messages ring ++ (message 4 [] ∷ []))
two_printers_lose_one_example =
    two_printers_lose_one (at_rest ring) 4 5 hi [] ring-IsValid (λ e. omega arith) refl refl refl
      refl (λ e. omega arith)
