-- ===== src/Pikeos/Shm.antt =====
-- Shared memory on PikeOS (src/pikeos/shm.c): the flags that reach the kernel, the mapping, and the
-- codes.
pub mod Laws
use libosal.Prelude.{ℕ, ◌/◌, ◌%◌, Bool, true, false, ◌||◌, ◌==◌, Option, none, some}
use libosal.Osal.{Retval}
use libosal.Pikeos.{P4Error}

-- `osal_shm_t`
pub record Shm : Type 0 where
  pub fd : ℕ
  pub size : ℕ

-- The flags of vm_open, whose numbers are the kernel's.
pub record VmFlags : Type 0 where
  pub o_rd : Bool
  pub o_wr : Bool
  pub o_creat : Bool
  pub o_excl : Bool
  pub o_map : Bool

-- `(attr & flag) != 0u`, for a flag of one bit.
abbrev has_flag : ℕ → ℕ → Bool
has_flag attr flag = attr / flag % 2 == 1

-- The flags for the attributes of osal_shm_open, `none` being 0.
pub vm_flags : Option ℕ → VmFlags
vm_flags none = record {
  o_rd = false;
  o_wr = false;
  o_creat = false;
  o_excl = false;
  o_map = false;
}
vm_flags (some attr) = record {
  o_rd = has_flag attr 1 || has_flag attr 2;
  o_wr = has_flag attr 2;
  o_creat = has_flag attr 4;
  o_excl = has_flag attr 8;
  o_map = has_flag attr 32;
}

-- The `switch` of osal_shm_open.
abbrev pub open_retval : P4Error → Retval
open_retval P4Error.ok = Retval.ok
open_retval P4Error.perm = Retval.permission_denied
open_retval P4Error.restricted = Retval.permission_denied
open_retval P4Error.notimpl = Retval.not_implemented
open_retval P4Error.name = Retval.invalid_param
open_retval P4Error.noent = Retval.not_found
open_retval P4Error.inval = Retval.invalid_param
open_retval P4Error.oofile = Retval.system_limit_reached
open_retval P4Error.nocontainer = Retval.system_limit_reached
open_retval P4Error.cancel = Retval.system_limit_reached
open_retval P4Error.limit = Retval.system_limit_reached
open_retval P4Error.timeout = Retval.timeout
open_retval _ = Retval.operation_failed

-- osal_shm_open, over vm_open, with the code and the descriptor that it answers.
pub shm_open : (VmFlags → P4Error × ℕ) → Option ℕ → ℕ → Retval × Shm
shm_open vm_open attr size =
    let (code, fd) = vm_open (vm_flags attr) in (open_retval code, record { fd = fd; size = size })

-- The `switch` of osal_shm_map, which has no default: `ret` stays OSAL_OK.
abbrev pub map_retval : P4Error → Retval
map_retval P4Error.perm = Retval.permission_denied
map_retval P4Error.notimpl = Retval.invalid_param
map_retval P4Error.size = Retval.invalid_param
map_retval P4Error.overflow = Retval.invalid_param
map_retval P4Error.inval = Retval.invalid_param
map_retval P4Error.timeout = Retval.timeout
map_retval P4Error.nokmem = Retval.out_of_memory
map_retval P4Error.cancel = Retval.operation_failed
map_retval _ = Retval.ok

-- osal_shm_map, over p4ext_vmem_alloc_aligned at the size and vm_map at the descriptor, the size and
-- the address: the code, and `*ptr`. The attributes are dropped, and the memory is mapped for
-- reading and writing.
pub shm_map : (ℕ → Option ℕ) → (ℕ → ℕ → ℕ → P4Error) → Shm → Retval × Option ℕ
shm_map alloc vm_map shm = elim (alloc shm.size) [
  | none ↦ (Retval.out_of_memory, none)
  | some ptr ↦ (map_retval (vm_map shm.fd shm.size ptr), some ptr)
]

-- osal_shm_close leaves the descriptor open.
abbrev shm_close : Shm → Retval × Shm
shm_close shm = (Retval.ok, shm)
