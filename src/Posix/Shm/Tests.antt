-- ===== src/Posix/Shm/Tests.antt =====
-- Opening and mapping a shared memory, and the theorems on it.
use libosal.Prelude.{
  ℕ, ◌+◌, ◌/◌, ◌%◌, ◌<◌, ◌≡◌, refl, none, some, arith, ◌==◌, if◌then◌else◌, ◌↔◌, ◌⊎◌, inl,
}
use libosal.Osal.{Retval, Errno}
use libosal.Posix.Retry.{Answer}
use libosal.Posix.Shm.{
  Shm, OpenAnswer, Mapping, shm_oflag, shm_opened, shm_open, shm_prot, shm_flags, shm_map,
  shm_close,
}
use libosal.Posix.Shm.Laws.{shm_oflag_lem, shm_open_lem, shm_open_hides, shm_map_lem}

abbrev unopened : Shm
unopened = record { fd = 0; size = 0 }

-- A system with the memory only if it is created (O_CREAT is 64).
abbrev creates : ℕ × ℕ → OpenAnswer
creates (oflag, mode) =
    if oflag / 64 % 2 == 1
    then record { descriptor = some 5; errno = Errno.other 0 }
    else record { descriptor = none; errno = Errno.enoent }

abbrev truncates : ℕ → Answer
truncates size = none

-- OSAL_SHM_ATTR__FLAG__RDWR, with OSAL_SHM_ATTR__FLAG__CREAT the second time.
missing : shm_open creates 0 truncates (some 2) 4096 unopened ≡ (Retval.not_found, unopened)
unfolding shm_open shm_opened shm_oflag
missing = refl

created :
    shm_open creates 0 truncates (some 6) 4096 unopened
    ≡ (Retval.ok, record { fd = 5; size = 4096 })
unfolding shm_open shm_opened shm_oflag
created = refl

shm_oflag_lem_test :
    (shm_oflag 22 / 2 % 2 ≡ 1)
    × (shm_oflag 22 / 64 % 2 ≡ 1)
    × (shm_oflag 22 / 128 % 2 ≡ 0)
    × (shm_oflag 22 / 512 % 2 ≡ 1)
    × (shm_oflag 22 % 2 ≡ 0)
    × (shm_oflag 22 / 4 % 16 ≡ 0)
    × (shm_oflag 22 / 256 % 2 ≡ 0)
    × (shm_oflag 22 < 1024)
shm_oflag_lem_test = shm_oflag_lem 22

shm_open_lem_test :
    ((shm_open creates 8192 truncates (some 6) 4096 unopened).1 ≡ record { fd = 5; size = 8192 })
    × ((shm_open creates 8192 truncates (some 6) 4096 unopened).0 ≡ Retval.ok
        ↔ ((0 < 8192) ⊎ (truncates 4096 ≡ none)))
unfolding shm_oflag
shm_open_lem_test = shm_open_lem creates 8192 truncates (some 6) 4096 5 unopened refl (omega arith)

-- The table of open files of the system is full.
abbrev full : ℕ × ℕ → OpenAnswer
full args = record { descriptor = none; errno = Errno.enfile }

shm_open_hides_example : shm_open full 0 truncates (some 6) 4096 unopened ≡ (Retval.ok, unopened)
shm_open_hides_example = shm_open_hides full 0 truncates (some 6) 4096 unopened refl (inl refl)

abbrev maps : ℕ → ℕ × ℕ → ℕ → Mapping
maps size args fd = Mapping.mapped (65536 + size)

shm_map_lem_test :
    (shm_prot 262 % 2 ≡ 1)
    × (shm_prot 262 / 2 % 2 ≡ 1)
    × (shm_prot 262 / 4 ≡ 0)
    × (shm_flags 262 % 2 ≡ 1)
    × (shm_flags 262 / 2 ≡ 0)
    × ((shm_map maps (some 262) (record { fd = 5; size = 4096 }) ≡ (Retval.ok, some 69632))
        ↔ (maps 4096 (shm_prot 262, shm_flags 262) 5 ≡ Mapping.mapped 69632))
shm_map_lem_test = shm_map_lem maps 262 69632 (record { fd = 5; size = 4096 })

closes : shm_close (some Errno.ebadf) ≡ Retval.ok
unfolding shm_close
closes = refl
