-- ===== src/Pikeos/Shm/Laws.antt =====
-- What osal_shm_open and osal_shm_map of PikeOS make of their arguments.
use libosal.Prelude.{ℕ, ◌/◌, ◌%◌, ◌≡◌, true, Option, some, arith, ◌↔◌, ◌⊎◌}
use libosal.Osal.{Retval}
use libosal.Pikeos.{P4Error}
use libosal.Pikeos.Shm.{Shm, VmFlags, vm_flags, shm_open, map_retval, shm_map}

-- With attributes, osal_shm_open asks vm_open for writing, creating, exclusive creation and mapping
-- exactly where the attributes have the flag of that name, and for reading where they have one of
-- the two flags of access; it keeps the descriptor and the size, and returns OSAL_OK exactly where
-- vm_open succeeds.
pub p4_shm_open_lem :
    (vm_open : VmFlags → P4Error × ℕ) (attr size : ℕ)
    → ((shm_open vm_open (some attr) size).0 ≡ Retval.ok
        ↔ (vm_open (vm_flags (some attr))).0 ≡ P4Error.ok)
      × ((shm_open vm_open (some attr) size).1
          ≡ record { fd = (vm_open (vm_flags (some attr))).1; size = size })
      × ((vm_flags (some attr)).o_rd ≡ true ↔ (attr / 1 % 2 ≡ 1) ⊎ (attr / 2 % 2 ≡ 1))
      × ((vm_flags (some attr)).o_wr ≡ true ↔ attr / 2 % 2 ≡ 1)
      × ((vm_flags (some attr)).o_creat ≡ true ↔ attr / 4 % 2 ≡ 1)
      × ((vm_flags (some attr)).o_excl ≡ true ↔ attr / 8 % 2 ≡ 1)
      × ((vm_flags (some attr)).o_map ≡ true ↔ attr / 32 % 2 ≡ 1)
unfolding shm_open vm_flags
p4_shm_open_lem vm_open attr size = (
  ground arith,
  ground arith,
  ground arith,
  ground arith,
  ground arith,
  ground arith,
  ground arith,
)

-- osal_shm_map returns an address with OSAL_OK exactly where the memory was allocated and vm_map has
-- mapped it, or has failed with a code that the switch does not name.
pub p4_shm_map_lem :
    (alloc : ℕ → Option ℕ) (vm_map : ℕ → ℕ → ℕ → P4Error) (shm : Shm) (ptr : ℕ)
    → (shm_map alloc vm_map shm ≡ (Retval.ok, some ptr))
      ↔ ((alloc shm.size ≡ some ptr) × (map_retval (vm_map shm.fd shm.size ptr) ≡ Retval.ok))
unfolding shm_map
p4_shm_map_lem alloc vm_map shm ptr = ground arith
