-- ===== src/Posix/Task/Affinity.antt =====
-- The CPUs that a task may run on, as a mask of 32 bits (src/posix/task.c).
use libosal.Prelude.{
  ℕ, zero, suc, ◌+◌, ◌/◌, ◌%◌, ◌^◌, Bool, true, false, ◌&&◌, Option, none, some, ltb, ◌==◌,
  if◌then◌else◌,
}
use libosal.Prelude.Memory.{◌>>=◌}
use libosal.Osal.{Retval}
use libosal.Posix.Task.{Sched, Threads, tid_of, update}

-- The loop over the 32 bits of `affinity`, by the set that it fills.
abbrev pub cpuset : ℕ → ℕ → Bool
cpuset affinity cpu = ltb cpu 32 && (affinity / 2 ^ cpu % 2 == 1)

-- pthread_setaffinity_np, whose errors have one code.
unfoldable pub set_cpus : Sched → Threads → ℕ → (ℕ → Bool) → Retval × Threads
set_cpus sched threads tid cpus = elim (sched.setaffinity tid cpus) [
  | none ↦ (Retval.ok, update threads tid (record (threads tid) { cpus = cpus }))
  | some _ ↦ (Retval.invalid_param, threads)
]

-- osal_task_set_affinity
unfoldable pub set_affinity : Sched → Threads → Option ℕ → ℕ → Retval × Threads
set_affinity sched threads hdl affinity =
    if ltb 0 affinity
    then set_cpus sched threads (tid_of sched hdl) (cpuset affinity)
    else (Retval.ok, threads)

-- The loop that collects the mask, with the rounds left: `1u << j` is a fault from 32 on, and below
-- that the bit is not set before.
unfoldable pub mask_loop : (ℕ → Bool) → ℕ → ℕ → ℕ → Option ℕ
mask_loop cpus zero j affinity = some affinity
mask_loop cpus (suc rounds) j affinity = elim (cpus j) [
  | false ↦ mask_loop cpus rounds (j + 1) affinity
  | true ↦ elim (ltb j 32) [
    | true ↦ mask_loop cpus rounds (j + 1) (affinity + 2 ^ j)
    | false ↦ none
  ]
]

-- CPU_SETSIZE
abbrev pub cpu_setsize : ℕ
cpu_setsize = 1024

-- osal_task_get_affinity: the code, and the mask that it writes.
unfoldable pub get_affinity : Sched → Threads → Option ℕ → Option (Retval × ℕ)
get_affinity sched threads hdl =
    let tid = tid_of sched hdl in
    elim (sched.getaffinity tid) [
      | some _ ↦ some (Retval.invalid_param, 0)
      | none ↦ (mask_loop (threads tid).cpus cpu_setsize 0 0 >>= λ mask. some (Retval.ok, mask))
    ]
