-- ===== src/Posix/Task/Mask.antt =====
-- The affinity mask that is read back is the one that was set.
use native.Mathlib.Nat.{
  pow-suc, pow-le-pow_right, mod-add-div, div-div-eq-div-mul, mod-eq_of_lt, mod-one,
}
use libosal.Prelude.{
  ℕ, zero, suc, ◌+◌, ◌*◌, ◌/◌, ◌%◌, ◌^◌, ◌<◌, ◌≤◌, ◌≡◌, ◌≢◌, Bool, true, false, Option, none, some,
  arith, ltb, ap, ◌∙◌, sym, inl, inr, Bool-cases,
}
use libosal.Osal.{Retval}
use libosal.Posix.Task.{Sched, Thread, Threads, tid_of, update, set_param}
use libosal.Posix.Task.Affinity.{
  cpuset, set_cpus, set_affinity, mask_loop, cpu_setsize, get_affinity,
}
use libosal.Posix.Task.Lifecycle.{TaskAttr, set_task_attr, get_task_attr}
use libosal.Posix.Task.Laws.{Permits}

-- One more bit of a number.
mod-double : (m d : ℕ) → m % (d * 2) ≡ m % d + d * (m / d % 2)
mod-double m d =
    let q = m / d in
    let halves : q ≡ 2 * (q / 2) + q % 2 = omega arith in
    let product : d * q ≡ d * (2 * (q / 2) + q % 2) = ap (λ x. d * x) halves in
    let low = mod-add-div m d in
    let high = mod-add-div m (d * 2) in
    let quotient : d * 2 * (m / (d * 2)) ≡ d * 2 * (q / 2) =
      ap (λ x. d * 2 * x) (sym (div-div-eq-div-mul m d 2)) in
    omega (arith, product, low, high, quotient)

mod_all : (m j : ℕ) → m < 2 ^ 32 → 32 ≤ j → m % 2 ^ j ≡ m
mod_all m j h k =
    let bound : 2 ^ 32 ≤ 2 ^ j = pow-le-pow_right {n = 2} (omega arith) k in
    mod-eq_of_lt (omega (arith, h, bound))

mod_next : (m j : ℕ) → m % 2 ^ (j + 1) ≡ m % 2 ^ j + 2 ^ j * (m / 2 ^ j % 2)
mod_next m j =
    let twice : 2 ^ (j + 1) ≡ 2 ^ j * 2 = ground (arith, pow-suc 2 j) in
    ap (λ d. m % d) twice ∙ mod-double m (2 ^ j)

-- A CPU in the set adds its bit to the mask,
mask_in : (m j : ℕ) → cpuset m j ≡ true → (ltb j 32 ≡ true) × (m % 2 ^ j + 2 ^ j ≡ m % 2 ^ (j + 1))
mask_in m j h =
    let bit : m / 2 ^ j % 2 ≡ 1 = ground arith in
    let product : 2 ^ j * (m / 2 ^ j % 2) ≡ 2 ^ j * 1 = ap (λ b. 2 ^ j * b) bit in
    (ground arith, omega (arith, product, mod_next m j))

-- and the others leave it as it is.
mask_out : (m j : ℕ) → m < 2 ^ 32 → cpuset m j ≡ false → m % 2 ^ j ≡ m % 2 ^ (j + 1)
mask_out m j small h = elim (Bool-cases (ltb j 32)) [
  | inl e ↦
      let bit : m / 2 ^ j % 2 ≡ 0 = ground arith in
      let product : 2 ^ j * (m / 2 ^ j % 2) ≡ 2 ^ j * 0 = ap (λ b. 2 ^ j * b) bit in
      omega (arith, product, mod_next m j)
  | inr e ↦
      let past : 32 ≤ j = ground arith in
      mod_all m j small past ∙ sym (mod_all m (j + 1) small (omega (arith, past)))
]

mask_lem :
    (m rounds j : ℕ)
    → m < 2 ^ 32
    → 32 ≤ j + rounds
    → mask_loop (cpuset m) rounds j (m % 2 ^ j) ≡ some m
unfolding mask_loop
mask_lem m zero j small h = ap some (mod_all m j small (omega (arith, h)))
mask_lem m (suc rounds) j small h =
    let rest = mask_lem m rounds (j + 1) small (omega (arith, h)) in
    elim (Bool-cases (cpuset m j)) [
      | inl e ↦
          let (low, next) = mask_in m j e in
          ground (arith, e, low, ap (mask_loop (cpuset m) rounds (j + 1)) next, rest)
      | inr e ↦
          ground (arith, e, ap (mask_loop (cpuset m) rounds (j + 1)) (mask_out m j small e), rest)
    ]

get_affinity_lem :
    (sched : Sched) (threads : Threads) (hdl : Option ℕ) (cpus : ℕ → Bool) (mask : ℕ)
    → sched.getaffinity (tid_of sched hdl) ≡ none
    → (threads (tid_of sched hdl)).cpus ≡ cpus
    → mask_loop cpus cpu_setsize 0 0 ≡ some mask
    → get_affinity sched threads hdl ≡ some (Retval.ok, mask)
unfolding get_affinity
get_affinity_lem sched threads hdl cpus mask gets same read =
    ground (arith, gets, ap (λ c. mask_loop c cpu_setsize 0 0) same, read)

-- On a system without errors for a task, osal_task_set_affinity with a mask of 32
-- bits that is not 0 succeeds, and osal_task_get_affinity then returns that mask. The other threads
-- are as they were.
pub get_affinity-set_affinity :
    (sched : Sched) (threads : Threads) (hdl : Option ℕ) (affinity : ℕ)
    → Permits sched (tid_of sched hdl)
    → 0 < affinity
    → affinity < 2 ^ 32
    → (threads' : Threads) × (set_affinity sched threads hdl affinity ≡ (Retval.ok, threads'))
      × (get_affinity sched threads' hdl ≡ some (Retval.ok, affinity))
      × ((other : ℕ) → other ≢ tid_of sched hdl → threads' other ≡ threads other)
unfolding set_affinity set_cpus
get_affinity-set_affinity sched threads hdl affinity p positive small =
    let tid = tid_of sched hdl in
    let sets = p.sets_affinity (cpuset affinity) in
    let start : affinity % 2 ^ 0 ≡ 0 = mod-one affinity in
    let read = mask_lem affinity cpu_setsize 0 small (omega arith) in
    let threads' = update threads tid (record (threads tid) { cpus = cpuset affinity }) in
    (
      threads',
      ground (arith, sets),
      get_affinity_lem sched threads' hdl (cpuset affinity) affinity p.gets_affinity (ground arith)
          (ap (mask_loop (cpuset affinity) cpu_setsize 0) (sym start) ∙ read),
      λ other ne. ground arith,
    )

get_task_attr_lem :
    (sched : Sched) (threads : Threads) (tid : ℕ) (t : Thread) (mask : ℕ)
    → Permits sched tid
    → threads tid ≡ t
    → mask_loop t.cpus cpu_setsize 0 0 ≡ some mask
    → get_task_attr sched threads tid
      ≡ some
          (Retval.ok, some (record { policy = t.policy; priority = t.priority; affinity = mask }))
unfolding get_task_attr
get_task_attr_lem sched threads tid t mask p same read = ground (
  arith,
  p.gets_param,
  p.gets_affinity,
  same,
  ap (λ u. mask_loop u.cpus cpu_setsize 0 0) same,
  read,
)

-- On a system without errors for a task, osal_task_set_task_attr with an affinity of 32 bits
-- succeeds, and osal_task_get_task_attr then returns the same policy, priority and affinity. The
-- policy that the system is given is the number that the library has for it.
pub get_task_attr-set_task_attr :
    (sched : Sched) (threads : Threads) (tid : ℕ) (attr : TaskAttr)
    → Permits sched tid
    → attr.affinity < 2 ^ 32
    → (threads' : Threads) × (set_task_attr sched threads tid attr ≡ (Retval.ok, threads'))
      × (get_task_attr sched threads' tid ≡ some (Retval.ok, some attr))
      × ((threads' tid).policy ≡ attr.policy)
unfolding set_task_attr set_param set_cpus
get_task_attr-set_task_attr sched threads tid attr p small =
    let start : attr.affinity % 2 ^ 0 ≡ 0 = mod-one attr.affinity in
    let read = mask_lem attr.affinity cpu_setsize 0 small (omega arith) in
    let mask = ap (mask_loop (cpuset attr.affinity) cpu_setsize 0) (sym start) ∙ read in
    let params = p.sets_param attr.policy attr.priority in
    let cpus = p.sets_affinity (cpuset attr.affinity) in
    let first : Threads =
      update threads tid
        (record (threads tid) { policy = attr.policy; priority = attr.priority }) in
    let second : Threads = update first tid (record (first tid) { cpus = cpuset attr.affinity }) in
    let thread : Thread = record {
      policy = attr.policy;
      priority = attr.priority;
      cpus = cpuset attr.affinity;
    } in
    let same : second tid ≡ thread = ground arith in
    (
      second,
      ground (arith, params, cpus),
      get_task_attr_lem sched second tid thread attr.affinity p same mask,
      ap (λ t. t.policy) same,
    )
