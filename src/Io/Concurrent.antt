-- ===== src/Io/Concurrent.antt =====
-- The ring of messages as tasks use it at the same time (src/io.c). osal_printf and
-- osal_io_shm_get_message take no lock: a task makes a call in several steps, and the steps of the
-- tasks interleave in any order. The computation of an index, the test of the indices together with
-- the store to act_printed that follows it, the copy of a message, and the store to act_written are
-- one step each. A reader that finds no message may wait on the semaphore, which changes no index.
pub mod Indices
pub mod Window
pub mod Order
pub mod Flow
pub mod Fifo
pub mod Lost
mod Tests
use libosal.Prelude.{
  ℕ, ◌+◌, ◌≡◌, ◌≢◌, Bool, true, Option, some, List, [], ◌∷◌, ◌++◌, ◌==◌, if◌then◌else◌, ◌≤◌, length,
}
use libosal.Io.{IoShm, next_index, offset, count_up}
use libosal.Io.Slots.{slot, message, with_block}

-- Where a task stands. A printer keeps `next_write` and its text.
pub data Pc : Type 0 where
  idle : Pc
  testing : (next_write : ℕ) → List ℕ → Pc  -- before `if (next_write == act_printed)`
  copying : (next_write : ℕ) → List ℕ → Pc  -- before strncpy into the slot
  storing : (next_write : ℕ) → List ℕ → Pc  -- before `act_written = next_write`
  reading : Pc  -- of a reader: before strncpy from the slot

-- The ring, the tasks, and what the code does not keep: the messages printed, in the order in which
-- they were made visible, the messages that readers have got, in their order, the message that is
-- being read, and the number of messages dropped from a full ring.
pub record System : Type 0 where
  pub shm : IoShm
  pub pc : ℕ → Pc
  pub sent : List (List ℕ)
  pub got : List (List ℕ)
  pub pending : List (List ℕ)
  pub dropped : ℕ

abbrev pub goto : (ℕ → Pc) → ℕ → Pc → ℕ → Pc
goto pc i p j = if i == j then p else pc j

-- One step of one task, where the tasks that print are those of `prints` and the tasks that read
-- are those of `reads`.
pub data Step (prints reads : ℕ → Bool) (s : System) : System → Type 0 where
  -- osal_printf: `next_write = (act_written + 1) % max_messages`,
  begins :
      (i next_write : ℕ) (text : List ℕ)
      → s.pc i ≡ Pc.idle
      → prints i ≡ true
      → next_index s.shm s.shm.act_written ≡ some next_write
      → Step prints reads s (record s { pc = goto s.pc i (Pc.testing next_write text) })
  -- the ring is full, and its oldest message is dropped,
  drops :
      (i next_write dropped : ℕ) (text : List ℕ)
      → s.pc i ≡ Pc.testing next_write text
      → next_write ≡ s.shm.act_printed
      → next_index s.shm s.shm.act_printed ≡ some dropped
      → Step prints reads s (record s {
        shm = record s.shm { act_printed = dropped };
        pc = goto s.pc i (Pc.copying next_write text);
        dropped = s.dropped + 1;
      })
  -- or it has space,
  finds_space :
      (i next_write : ℕ) (text : List ℕ)
      → s.pc i ≡ Pc.testing next_write text
      → next_write ≢ s.shm.act_printed
      → Step prints reads s (record s { pc = goto s.pc i (Pc.copying next_write text) })
  -- the message is copied into its slot, in range,
  copies :
      (i next_write : ℕ) (text : List ℕ)
      → s.pc i ≡ Pc.copying next_write text
      → offset s.shm next_write + s.shm.max_message_size ≤ length s.shm.msgs
      → Step prints reads s (record s {
        shm = with_block s.shm next_write (message s.shm.max_message_size text);
        pc = goto s.pc i (Pc.storing next_write text);
      })
  -- and made visible.
  stores :
      (i next_write : ℕ) (text : List ℕ)
      → s.pc i ≡ Pc.storing next_write text
      → Step prints reads s (record s {
        shm = record s.shm { act_written = next_write; sem = count_up s.shm.sem };
        pc = goto s.pc i Pc.idle;
        sent = s.sent ++ (message s.shm.max_message_size text ∷ []);
      })
  -- osal_io_shm_get_message: no message is unread,
  finds_none :
      (i : ℕ)
      → s.pc i ≡ Pc.idle
      → reads i ≡ true
      → s.shm.act_printed ≡ s.shm.act_written
      → Step prints reads s s
  -- or the oldest one is marked as read,
  marks :
      (i next : ℕ)
      → s.pc i ≡ Pc.idle
      → reads i ≡ true
      → s.shm.act_printed ≢ s.shm.act_written
      → next_index s.shm s.shm.act_printed ≡ some next
      → Step prints reads s (record s {
        shm = record s.shm { act_printed = next };
        pc = goto s.pc i Pc.reading;
        pending = s.pending ++ (slot s.shm next ∷ []);
      })
  -- and then copied from the slot that `act_printed` names by now.
  reads_slot :
      (i : ℕ)
      → s.pc i ≡ Pc.reading
      → Step prints reads s (record s {
        pc = goto s.pc i Pc.idle;
        got = s.got ++ (slot s.shm s.shm.act_printed ∷ []);
        pending = [];
      })

-- What any sequence of steps reaches from `s`.
pub data Reach (prints reads : ℕ → Bool) (s : System) : System → Type 0 where
  start : Reach prints reads s s
  later : {t u : System} → Reach prints reads s t → Step prints reads t u → Reach prints reads s u
