-- ===== src/Posix/Task/Attributes.antt =====
-- What the attributes of a new task mean for its thread: the policies of Linux, the bounds of the
-- priorities and the bits of the mask, written without the helpers of src/posix/task.c.
use libosal.Prelude.{
  ℕ, zero, suc, ◌/◌, ◌%◌, ◌^◌, ◌≤◌, ◌<◌, ◌≡◌, ◌≢◌, ◌↔◌, Bool, true, some, ◌==◌, if◌then◌else◌,
  arith,
}
use native.Mathlib.Decide.{dec_le}
use libosal.Posix.Task.{Sched, Thread, Threads, to_posix, clamp}
use libosal.Posix.Task.Affinity.{cpuset}
use libosal.Posix.Task.Lifecycle.{TaskAttr, task_wrapper}
use libosal.Posix.Task.Laws.{Permits, Bounds}
use libosal.Posix.Task.Start.{wanted, task_wrapper-wanted}

-- The policy of a thread that had `old`: 1 is SCHED_FIFO, 2 SCHED_RR and 0 SCHED_OTHER.
pub data Policy (old : ℕ) : ℕ → ℕ → Type 0 where
  kept : Policy old 0 old
  fifo : Policy old 1 1
  round_robin : Policy old 2 2
  other : (asked : ℕ) → 3 ≤ asked → Policy old asked 0

-- The number between the bounds that is nearest to one.
pub data Nearest (low high : ℕ) (asked : ℕ) : ℕ → Type 0 where
  inside : low ≤ asked → asked ≤ high → Nearest low high asked asked
  below : asked < low → Nearest low high asked low
  above : high < asked → Nearest low high asked high

-- The priority of a thread that had `old`, for the policy and the priority that are asked for, 0
-- being none.
pub data Priority (low high old : ℕ) : ℕ → ℕ → ℕ → Type 0 where
  kept : Priority low high old 0 0 old
  moved :
      (policy value : ℕ)
      → policy ≢ 0
      → Nearest low high old value
      → Priority low high old policy 0 value
  set :
      (policy asked value : ℕ)
      → asked ≢ 0
      → Nearest low high asked value
      → Priority low high old policy asked value

-- The CPUs of a thread that had `old`.
pub data Cpus (old : ℕ → Bool) : ℕ → (ℕ → Bool) → Type 0 where
  kept : Cpus old 0 old
  bits :
      (mask : ℕ) (cpus : ℕ → Bool)
      → mask ≢ 0
      → ((cpu : ℕ) → cpus cpu ≡ true ↔ (cpu < 32) × (mask / 2 ^ cpu % 2 ≡ 1))
      → Cpus old mask cpus

pub record Has (sched : Sched) (old : Thread) (attr : TaskAttr) (new : Thread) : Type 0 where
  pub policy : Policy old.policy attr.policy new.policy
  pub priority :
      Priority
        (sched.priority_min new.policy)
        (sched.priority_max new.policy)
        old.priority
        attr.policy
        attr.priority
        new.priority
  pub cpus : Cpus old.cpus attr.affinity new.cpus

if_suc {ℓ} : {A : Type ℓ} (n : ℕ) (x y : A) → (if suc n == 0 then x else y) ≡ y
if_suc n x y = ground arith

policy_lem : (old asked : ℕ) → Policy old asked (if asked == 0 then old else to_posix asked)
policy_lem old zero = Policy.kept
policy_lem old (suc zero) = Policy.fifo
policy_lem old (suc (suc zero)) = Policy.round_robin
policy_lem old (suc (suc (suc n))) =
    let asked : ℕ = suc (suc (suc n)) in
    let e : (if asked == 0 then old else to_posix asked) ≡ 0 = ground arith in
    rw e (Policy.other asked (omega arith))

clamp-Nearest :
    (sched : Sched) (policy asked : ℕ)
    → Bounds sched policy
    → asked < 2 ^ 31
    → Nearest
        (sched.priority_min policy)
        (sched.priority_max policy)
        asked
        (clamp sched policy asked)
clamp-Nearest sched policy asked b small = elim (dec_le (sched.priority_min policy) asked) [
  | no p ↦
      let e : clamp sched policy asked ≡ sched.priority_min policy = ground arith in
      rw e (Nearest.below (omega arith))
  | yes p ↦ elim (dec_le asked (sched.priority_max policy)) [
    | yes q ↦ let e : clamp sched policy asked ≡ asked = ground arith in rw e (Nearest.inside p q)
    | no q ↦
        let e : clamp sched policy asked ≡ sched.priority_max policy = ground arith in
        rw e (Nearest.above (omega arith))
  ]
]

priority_lem :
    (sched : Sched) (policy old : ℕ) (attr : TaskAttr)
    → Bounds sched policy
    → old < 2 ^ 31
    → attr.priority < 2 ^ 31
    → Priority
        (sched.priority_min policy)
        (sched.priority_max policy)
        old
        attr.policy
        attr.priority
        (if attr.priority == 0
          then (if attr.policy == 0 then old else clamp sched policy old)
          else clamp sched policy attr.priority)
priority_lem sched policy old attr b small small' = go attr.policy attr.priority small'
  where
    go :
        (p asked : ℕ)
        → asked < 2 ^ 31
        → Priority (sched.priority_min policy) (sched.priority_max policy) old p asked (
            if asked == 0
            then (if p == 0 then old else clamp sched policy old)
            else clamp sched policy asked)
    go zero zero h = Priority.kept
    go (suc p) zero h =
        rw (if_suc p old (clamp sched policy old)) (
          Priority.moved (suc p) _ (λ e. omega (arith, e)) (clamp-Nearest sched policy old b small))
    go p (suc asked) h =
        rw
          (if_suc asked (if p == 0 then old else clamp sched policy old)
            (clamp sched policy (suc asked)))
          (Priority.set p (suc asked) _ (λ e. omega (arith, e))
            (clamp-Nearest sched policy (suc asked) b h))

cpus_lem : (old : ℕ → Bool) (mask : ℕ) → Cpus old mask (if mask == 0 then old else cpuset mask)
cpus_lem old zero = Cpus.kept
cpus_lem old (suc mask) =
    rw (if_suc mask old (cpuset (suc mask)))
      (Cpus.bits (suc mask) (cpuset (suc mask)) (λ e. omega (arith, e)) (λ cpu. ground arith))

-- On a system without errors for the calling thread, whose bounds of the priorities are ordered and
-- below 2^31, and with priorities below 2^31: posix_task_wrapper gives the calling thread, before it
-- calls the handler of the user, the attributes that are not 0. SCHED_FIFO, SCHED_RR or, for any other
-- number, SCHED_OTHER is its policy; its priority, the one that is asked for or else, with a new
-- policy, the one that it had, is the nearest one within the bounds of the policy that it has then;
-- and it may run on the CPUs below 32 whose bits the mask has. The other threads are as they were.
pub task_wrapper-Has :
    (sched : Sched) (threads : Threads) (attr : TaskAttr)
    → Permits sched sched.self
    → ((policy : ℕ) → Bounds sched policy)
    → (threads sched.self).priority < 2 ^ 31
    → attr.priority < 2 ^ 31
    → Has sched (threads sched.self) attr (task_wrapper sched threads (some attr) sched.self)
      × ((other : ℕ)
          → other ≢ sched.self
          → task_wrapper sched threads (some attr) other ≡ threads other)
task_wrapper-Has sched threads attr p b small small' =
    let (e, others) = task_wrapper-wanted sched threads attr p in
    let old = threads sched.self in
    let policy = if attr.policy == 0 then old.policy else to_posix attr.policy in
    let has : Has sched old attr (wanted sched old attr) = record {
      policy = policy_lem old.policy attr.policy;
      priority = priority_lem sched policy old.priority attr (b policy) small small';
      cpus = cpus_lem old.cpus attr.affinity;
    } in
    (rw e has, others)
