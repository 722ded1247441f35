-- ===== src/Io.antt =====
-- Printing through a ring of messages in shared memory (src/io.c): the printer of every task, and
-- the reader that a logger calls. The messages of `osal_io_shm_t` are one array of bytes, in which a
-- message has `max_message_size` bytes; a division by zero and an access out of range are faults.
pub mod Slots
pub mod Ring
pub mod Queue
pub mod History
pub mod Setup
pub mod Concurrent
pub mod Logger
mod Tests
use libosal.Prelude.{
  ℕ, ◌+◌, ◌-◌, ◌*◌, ◌/◌, ◌%◌, ◌^◌, Bool, true, false, Option, none, some, List, [], ◌∷◌, ◌++◌, ltb,
  ◌==◌, if◌then◌else◌, take, drop,
}
use libosal.Prelude.Word.{u32, add64, mul64}
use libosal.Prelude.Memory.{◌>>=◌}
use libosal.Prelude.Bytes.{strncpy, write}
use libosal.Osal.{Retval}

-- `osal_io_shm_t`, with the count of its semaphore.
pub record IoShm : Type 0 where
  pub magic : ℕ
  pub max_messages : ℕ
  pub max_message_size : ℕ
  pub sem : ℕ
  pub new_msg : ℕ
  pub act_printed : ℕ
  pub act_written : ℕ
  pub msgs : List ℕ

-- LIBOSAL_IO_SHM_MAX_MSG_SIZE, the bytes of the buffer that a reader passes.
abbrev pub max_msg_size : ℕ
max_msg_size = 512

-- `(index + 1) % max_messages`, kept in 32 bits.
pub next_index : IoShm → ℕ → Option ℕ
next_index shm index =
    if shm.max_messages == 0 then none else some (u32 (u32 (index + 1) % shm.max_messages))

-- The offset of a message in `msgs`.
abbrev pub offset : IoShm → ℕ → ℕ
offset shm index = mul64 index shm.max_message_size

-- osal_semaphore_post on the semaphore of the ring: it counts up to SEM_VALUE_MAX, and an overflow
-- is ignored.
abbrev pub count_up : ℕ → ℕ
count_up sem = if ltb sem (2 ^ 31 - 1) then sem + 1 else sem

-- What osal_printf does with the formatted text in its buffer of 530 bytes.
abbrev pub formatted : List ℕ → List ℕ
formatted text = take 529 text ++ (0 ∷ [])

-- osal_printf with a ring.
pub shm_printf : IoShm → List ℕ → Option IoShm
shm_printf shm text = do
  next_write ← next_index shm shm.act_written
  dropped ← next_index shm shm.act_printed
  block ← strncpy shm.max_message_size (formatted text)
  msgs ← write shm.msgs (offset shm next_write) block
  some (record shm {
    sem = count_up shm.sem;
    act_printed = if next_write == shm.act_printed then dropped else shm.act_printed;
    act_written = next_write;
    msgs = msgs;
  })

-- The static variable `osal_io_shm_buffer`, and what was put out where it is NULL.
pub record Io : Type 0 where
  pub buffer : Option IoShm
  pub stdout : List (List ℕ)

-- osal_printf
pub printf : Io → List ℕ → Option (Retval × Io)
printf io text = elim io.buffer [
  | none ↦ some (Retval.ok, record io { stdout = io.stdout ++ (take 529 text ∷ []) })
  | some shm ↦ (shm_printf shm text >>= λ shm'. some (Retval.ok, record io { buffer = some shm' }))
]

-- The ring after `if (to != NULL) { osal_semaphore_timedwait(); }`: with a timeout other tasks may
-- print meanwhile, which `to` tells.
abbrev pub waited : IoShm → Option (IoShm → IoShm) → IoShm
waited shm none = shm
waited shm (some meanwhile) = meanwhile shm

-- The second part of osal_io_shm_get_message: the code, the bytes written to the caller's buffer
-- (past its end they are a fault), and the ring.
pub take_message : IoShm → Option (Retval × List ℕ × IoShm)
take_message shm =
    if shm.act_printed == shm.act_written then some (Retval.unavailable, [], shm) else (do
      next ← next_index shm shm.act_printed
      bytes ← strncpy shm.max_message_size (drop (offset shm next) shm.msgs)
      if ltb max_msg_size shm.max_message_size
          then none
          else some (Retval.ok, bytes, record shm { act_printed = next }))

-- osal_io_shm_get_message
pub get_message : IoShm → Option (IoShm → IoShm) → Option (Retval × List ℕ × IoShm)
get_message shm to =
    take_message (if shm.act_printed == shm.act_written then waited shm to else shm)
