-- ===== src/Io/Setup.antt =====
-- osal_io_shm_setup: opening, or else creating, the shared memory of the ring, and its first
-- contents. The calls of the shared memory and the semaphore are answered by the system.
pub mod Laws
use libosal.Prelude.{
  ℕ, ◌+◌, ◌*◌, ◌^◌, ◌≤◌, ◌<◌, ◌≡◌, refl, Option, none, some, List, [], ◌∷◌, ◌++◌, arith, ◌==◌,
  if◌then◌else◌, length, Bool, true, false, ◌||◌, ◌≢◌, Bool-cases, inl, inr, ◌&&◌, take, ap, ◌∙◌,
}
use libosal.Prelude.Word.{add64, mul64}
use libosal.Prelude.Memory.{◌>>=◌}
use libosal.Osal.{Retval, is_ok}
use libosal.Io.{IoShm, Io, printf, shm_printf}
use libosal.Io.Queue.{push, window_nil}
use libosal.Io.Slots.{IsValid, slot, message}
use libosal.Io.Ring.{messages, shm_printf_refines}

-- LIBOSAL_IO_SHM_MAGIC
abbrev pub shm_magic : ℕ
shm_magic = 11533824

-- OSAL_SHM_ATTR__FLAG__RDWR | OSAL_SHM_ATTR__FLAG__MAP, with 0666 above the flags.
abbrev pub shm_attr_msr : ℕ
shm_attr_msr = 34 + 438 * 2 ^ 16

-- OSAL_SHM_ATTR__FLAG__CREAT
abbrev pub flag_creat : ℕ
flag_creat = 4

-- `sizeof(osal_io_shm)`, the size of the handle `osal_shm_t`.
abbrev pub handle_size : ℕ
handle_size = 16

-- osal_shm_open at the attributes and the size; osal_shm_map and the memory that it maps;
-- osal_semaphore_init.
pub record SetupAnswers : Type 0 where
  pub shm_open : ℕ → ℕ → Retval
  pub shm_map : Retval
  pub mapped : IoShm
  pub sem_init : Retval

-- What vsnprintf makes of the messages of osal_io_shm_setup.
pub record Texts : Type 0 where
  pub missing : List ℕ
  pub open_failed : List ℕ
  pub map_failed : List ℕ
  pub mapped_ok : List ℕ
  pub found_magic : List ℕ
  pub max_messages : List ℕ
  pub max_message_size : List ℕ

-- osal_printf, its result dropped.
pub report : Io → List ℕ → Option Io
report io text = printf io text >>= λ r. some r.1

-- The first contents of the memory.
abbrev pub initialized : Retval → ℕ → ℕ → IoShm → IoShm
initialized sem_init max_msgs max_msg_size shm = record shm {
  max_messages = max_msgs;
  max_message_size = max_msg_size;
  act_printed = 0;
  act_written = 0;
  sem = if is_ok sem_init then 0 else shm.sem;
  magic = shm_magic;
  new_msg = 0;
}

-- The part of osal_io_shm_setup after osal_shm_map has succeeded.
pub setup_mapped : SetupAnswers → Texts → Io → ℕ → ℕ → Option Io
setup_mapped answers texts io max_msgs max_msg_size = do
  told ← report io texts.mapped_ok
  let shared = record told { buffer = some answers.mapped } in
      elim (answers.mapped.magic == shm_magic) [
        | true ↦ (do
          found ← report shared texts.found_magic
          counted ← report found texts.max_messages
          report counted texts.max_message_size)
        | false ↦ some (record told {
          buffer = some (initialized answers.sem_init max_msgs max_msg_size answers.mapped);
        })
      ]

-- The part after osal_shm_open, with its last result.
pub setup_opened : SetupAnswers → Texts → Retval → Io → ℕ → ℕ → Option Io
setup_opened answers texts opened io max_msgs max_msg_size = elim (is_ok opened) [
  | false ↦ report io texts.open_failed
  | true ↦ elim (is_ok answers.shm_map) [
    | false ↦ report io texts.map_failed
    | true ↦ setup_mapped answers texts io max_msgs max_msg_size
  ]
]

-- osal_io_shm_setup
pub io_shm_setup : SetupAnswers → Texts → Io → ℕ → ℕ → Option (Retval × Io)
io_shm_setup answers texts io max_msgs max_msg_size =
    let size = add64 handle_size (mul64 max_msg_size max_msgs) in
    let first = answers.shm_open shm_attr_msr size in
    let second = answers.shm_open (shm_attr_msr + flag_creat) size in
    elim (is_ok first) [
      | true ↦
          setup_opened answers texts first io max_msgs max_msg_size >>= λ io'. some (Retval.ok, io')
      | false ↦ (do
        told ← report io texts.missing
        done ← setup_opened answers texts second told max_msgs max_msg_size
        some (Retval.ok, done))
    ]
