-- ===== src/Posix/Shm/Laws.antt =====
-- What osal_shm_open and osal_shm_map make of their arguments.
use libosal.Prelude.{
  ℕ, ◌/◌, ◌%◌, ◌<◌, ◌≡◌, Option, none, some, arith, ◌==◌, if◌then◌else◌, ◌↔◌, ◌⊎◌,
}
use libosal.Osal.{Retval, Errno}
use libosal.Posix.Retry.{Answer}
use libosal.Posix.Shm.{
  Shm, OpenAnswer, Mapping, shm_oflag, shm_opened, shm_open, shm_oflags, shm_prot, shm_flags,
  shm_map, map_result,
}

-- In the flags for shm_open, O_RDWR, O_CREAT, O_EXCL and O_TRUNC are set exactly where the flag of
-- that name is set in the attributes, and no other bit is.
pub shm_oflag_lem :
    (attr : ℕ)
    → (shm_oflag attr / 2 % 2 ≡ attr / 2 % 2)
      × (shm_oflag attr / 64 % 2 ≡ attr / 4 % 2)
      × (shm_oflag attr / 128 % 2 ≡ attr / 8 % 2)
      × (shm_oflag attr / 512 % 2 ≡ attr / 16 % 2)
      × (shm_oflag attr % 2 ≡ 0)
      × (shm_oflag attr / 4 % 16 ≡ 0)
      × (shm_oflag attr / 256 % 2 ≡ 0)
      × (shm_oflag attr < 1024)
unfolding shm_oflag
shm_oflag_lem attr = ground arith

-- With a positive descriptor, osal_shm_open keeps it and the size of the memory that exists, or
-- else the size asked for. It returns OSAL_OK, unless there was no memory and ftruncate fails.
pub shm_open_lem :
    (system : ℕ × ℕ → OpenAnswer) (st_size : ℕ) (ftruncate : ℕ → Answer) (attr : Option ℕ)
    (size fd : ℕ) (shm : Shm)
    → (system (shm_oflags attr)).descriptor ≡ some fd
    → 0 < fd
    → (shm_open system st_size ftruncate attr size shm).1
        ≡ record { fd = fd; size = if st_size == 0 then size else st_size }
      × ((shm_open system st_size ftruncate attr size shm).0 ≡ Retval.ok
          ↔ ((0 < st_size) ⊎ (ftruncate size ≡ none)))
unfolding shm_open shm_opened
shm_open_lem system st_size ftruncate attr size fd shm e h = ground (arith, e)

-- Where shm_open fails with ENFILE or ENOMEM, which the switch does not name, osal_shm_open returns
-- OSAL_OK although the handle is as it was before.
pub shm_open_hides :
    (system : ℕ × ℕ → OpenAnswer) (st_size : ℕ) (ftruncate : ℕ → Answer) (attr : Option ℕ)
    (size : ℕ) (shm : Shm)
    → (system (shm_oflags attr)).descriptor ≡ none
    → ((system (shm_oflags attr)).errno ≡ Errno.enfile)
      ⊎ ((system (shm_oflags attr)).errno ≡ Errno.enomem)
    → shm_open system st_size ftruncate attr size shm ≡ (Retval.ok, shm)
unfolding shm_open shm_opened
shm_open_hides system st_size ftruncate attr size shm e h = ground (arith, e, h)

map_result_lem :
    (m : Mapping) (address : ℕ)
    → (map_result m ≡ (Retval.ok, some address)) ↔ (m ≡ Mapping.mapped address)
map_result_lem (Mapping.mapped a) address = ((λ e. cc), (λ e. cc))
map_result_lem (Mapping.failed errno) address = ((λ e. cc), (λ e. cc))

-- osal_shm_map hands the size and the descriptor of the handle to mmap, with a protection in which
-- PROT_READ, PROT_WRITE and PROT_EXEC, and with flags in which MAP_SHARED and MAP_PRIVATE, are set
-- exactly where they are in the attributes. It returns OSAL_OK and an address exactly where mmap
-- has an address.
pub shm_map_lem :
    (mmap : ℕ → ℕ × ℕ → ℕ → Mapping) (attr address : ℕ) (shm : Shm)
    → (shm_prot attr % 2 ≡ attr / 2 % 2)
      × (shm_prot attr / 2 % 2 ≡ attr / 4 % 2)
      × (shm_prot attr / 4 ≡ attr % 2)
      × (shm_flags attr % 2 ≡ attr / 256 % 2)
      × (shm_flags attr / 2 ≡ attr / 512 % 2)
      × ((shm_map mmap (some attr) shm ≡ (Retval.ok, some address))
          ↔ (mmap shm.size (shm_prot attr, shm_flags attr) shm.fd ≡ Mapping.mapped address))
unfolding shm_prot shm_flags shm_map
shm_map_lem mmap attr address shm =
    (ground arith, ground arith, ground arith, ground arith, ground arith, map_result_lem _ address)
