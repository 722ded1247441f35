-- ===== src/Posix/Shm.antt =====
-- Shared memory of the POSIX port (src/posix/shm.c): the handle, the flags that reach the system,
-- and the codes for the error numbers.
pub mod Laws
mod Tests
use libosal.Prelude.{
  ℕ, ◌+◌, ◌/◌, ◌%◌, ◌^◌, Bool, true, false, Option, none, some, ◌==◌, ltb, if◌then◌else◌,
}
use libosal.Osal.{Retval, Errno}
use libosal.Posix.Retry.{Answer}

-- `osal_shm_t`
pub record Shm : Type 0 where
  pub fd : ℕ
  pub size : ℕ

-- What shm_open returns, `none` being -1, and the value of errno after it.
pub record OpenAnswer : Type 0 where
  pub descriptor : Option ℕ
  pub errno : Errno

-- `if ((attr & flag) != 0u) { result |= value; }`, for a flag of one bit and a value that no other
-- flag has.
abbrev pub when : ℕ → ℕ → ℕ → ℕ
when attr flag value = if attr / flag % 2 == 0 then 0 else value

-- O_RDONLY, O_RDWR, O_CREAT, O_EXCL and O_TRUNC of Linux for the flags of the attributes.
pub shm_oflag : ℕ → ℕ
shm_oflag attr = when attr 1 0 + when attr 2 2 + when attr 4 64 + when attr 8 128 + when attr 16 512

-- The flags and the mode for the attributes of osal_shm_open, `none` being NULL.
abbrev pub shm_oflags : Option ℕ → ℕ × ℕ
shm_oflags none = (0, 0)
shm_oflags (some attr) = (shm_oflag attr, attr / 2 ^ 16 % 2 ^ 16)

-- The `switch` of osal_shm_open, which has no default: `ret` stays OSAL_OK.
abbrev pub open_retval : Errno → Retval
open_retval Errno.eacces = Retval.permission_denied
open_retval Errno.eexist = Retval.operation_failed
open_retval Errno.einval = Retval.invalid_param
open_retval Errno.emfile = Retval.system_limit_reached
open_retval Errno.enametoolong = Retval.invalid_param
open_retval Errno.enoent = Retval.not_found
open_retval _ = Retval.ok

-- What follows shm_open in osal_shm_open, for the answer, the size that fstat finds, and ftruncate
-- at the size that is asked for. A descriptor of 0 counts as an error.
pub shm_opened : OpenAnswer → ℕ → (ℕ → Answer) → ℕ → Shm → Retval × Shm
shm_opened answer st_size ftruncate size shm = elim answer.descriptor [
  | none ↦ (open_retval answer.errno, shm)
  | some fd ↦
      if fd == 0
      then (open_retval answer.errno, shm)
      else if ltb 0 st_size
      then (Retval.ok, record { fd = fd; size = st_size })
      else elim (ftruncate size) [
        | none ↦ (Retval.ok, record { fd = fd; size = size })
        | some _ ↦ (Retval.operation_failed, record { fd = fd; size = size })
      ]
]

-- osal_shm_open, over shm_open at its flags and mode.
pub shm_open : (ℕ × ℕ → OpenAnswer) → ℕ → (ℕ → Answer) → Option ℕ → ℕ → Shm → Retval × Shm
shm_open system st_size ftruncate attr size shm =
    shm_opened (system (shm_oflags attr)) st_size ftruncate size shm

-- PROT_EXEC, PROT_READ, PROT_WRITE and PROT_NONE, and MAP_SHARED and MAP_PRIVATE.
pub shm_prot : ℕ → ℕ
shm_prot attr = when attr 1 4 + when attr 2 1 + when attr 4 2 + when attr 8 0

pub shm_flags : ℕ → ℕ
shm_flags attr = when attr 256 1 + when attr 512 2

abbrev map_args : Option ℕ → ℕ × ℕ
map_args none = (0, 0)
map_args (some attr) = (shm_prot attr, shm_flags attr)

abbrev map_retval : Errno → Retval
map_retval Errno.eacces = Retval.permission_denied
map_retval Errno.eagain = Retval.operation_failed
map_retval Errno.ebadf = Retval.invalid_param
map_retval Errno.eexist = Retval.invalid_param
map_retval Errno.einval = Retval.invalid_param
map_retval Errno.enfile = Retval.system_limit_reached
map_retval Errno.enodev = Retval.not_implemented
map_retval Errno.enomem = Retval.out_of_memory
map_retval Errno.eoverflow = Retval.operation_failed
map_retval Errno.eperm = Retval.permission_denied
map_retval Errno.etxtbsy = Retval.permission_denied
map_retval _ = Retval.operation_failed

-- What mmap returns: an address, or an error number.
pub data Mapping : Type 0 where
  mapped : ℕ → Mapping
  failed : Errno → Mapping

abbrev pub map_result : Mapping → Retval × Option ℕ
map_result (Mapping.mapped address) = (Retval.ok, some address)
map_result (Mapping.failed errno) = (map_retval errno, none)

-- osal_shm_map, over mmap at the size, the protection, the flags and the descriptor: the code, and
-- the address unless mmap has failed.
pub shm_map : (ℕ → ℕ × ℕ → ℕ → Mapping) → Option ℕ → Shm → Retval × Option ℕ
shm_map mmap attr shm = map_result (mmap shm.size (map_args attr) shm.fd)

-- osal_shm_close drops the answer of close.
pub shm_close : Answer → Retval
shm_close answer = Retval.ok
