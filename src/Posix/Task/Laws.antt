-- ===== src/Posix/Task/Laws.antt =====
-- Policies, priorities and affinities that are set are the ones that are read back, and a new
-- task runs with the attributes that were asked for.
use libosal.Prelude.{
  ℕ, ◌^◌, ◌<◌, ◌≤◌, ◌≡◌, ◌≢◌, Bool, Option, none, some, arith, ◌⊎◌, inl, inr, Option-cases,
}
use libosal.Osal.{Retval}
use libosal.Posix.Task.{
  Sched, Threads, to_posix, policy_fifo, policy_round_robin, policy_other, clamp, tid_of, update,
  set_param, set_policy, get_policy, set_priority, get_priority,
}

-- A system that has no errors for a thread.
pub record Permits (sched : Sched) (tid : ℕ) : Type 0 where
  pub gets_param : sched.getschedparam tid ≡ none
  pub sets_param : (policy priority : ℕ) → sched.setschedparam tid policy priority ≡ none
  pub gets_affinity : sched.getaffinity tid ≡ none
  pub sets_affinity : (cpus : ℕ → Bool) → sched.setaffinity tid cpus ≡ none

-- Bounds of the priorities of a policy, as `int`s.
pub record Bounds (sched : Sched) (policy : ℕ) : Type 0 where
  pub ordered : sched.priority_min policy ≤ sched.priority_max policy
  pub small : sched.priority_max policy < 2 ^ 31

-- A priority of 32 bits comes into the bounds of the policy, where these are ordered and not
-- negative, and one that is in them already is kept.
pub clamp_lem :
    (sched : Sched) (policy priority : ℕ)
    → Bounds sched policy
    → priority < 2 ^ 32
    → (sched.priority_min policy ≤ clamp sched policy priority)
      × (clamp sched policy priority ≤ sched.priority_max policy)
      × (sched.priority_min policy ≤ priority
          → priority ≤ sched.priority_max policy
          → clamp sched policy priority ≡ priority)
clamp_lem sched policy priority b h = (ground arith, ground arith, λ p q. ground arith)

module _ (sched : Sched) (threads : Threads) where
  -- On a system without errors for a task, and with bounds of its policy that are ordered and not
  -- negative, osal_task_set_priority with a priority of 32 bits succeeds, and osal_task_get_priority
  -- then returns a priority in these bounds, which is the given one where that is in them. The other
  -- threads are as they were.
  pub get_priority-set_priority :
      (hdl : Option ℕ) (priority : ℕ)
      → Permits sched (tid_of sched hdl)
      → Bounds sched (threads (tid_of sched hdl)).policy
      → priority < 2 ^ 32
      → (threads' : Threads) × (value : ℕ) × (set_priority sched threads hdl priority
          ≡ (Retval.ok, threads'))
        × (get_priority sched threads' hdl ≡ (Retval.ok, some value))
        × (sched.priority_min (threads (tid_of sched hdl)).policy ≤ value)
        × (value ≤ sched.priority_max (threads (tid_of sched hdl)).policy)
        × (sched.priority_min (threads (tid_of sched hdl)).policy ≤ priority
            → priority ≤ sched.priority_max (threads (tid_of sched hdl)).policy
            → value ≡ priority)
        × ((other : ℕ) → other ≢ tid_of sched hdl → threads' other ≡ threads other)
  unfolding set_priority get_priority set_param
  get_priority-set_priority hdl priority p b small =
      let tid = tid_of sched hdl in
      let policy = (threads tid).policy in
      let value = clamp sched policy priority in
      let (above, below, kept) = clamp_lem sched policy priority b small in
      let done = p.sets_param policy value in
      let gets = p.gets_param in
      (
        update threads tid (record (threads tid) { priority = value }),
        value,
        ground (arith, gets, done),
        ground (arith, gets),
        above,
        below,
        kept,
        λ other ne. ground arith,
      )

  -- On a system without errors for the caller, osal_task_set_policy of the caller with a policy of
  -- the library succeeds, and osal_task_get_policy then returns that policy.
  pub get_policy-set_policy :
      (policy : ℕ)
      → (policy ≡ policy_fifo) ⊎ (policy ≡ policy_round_robin) ⊎ (policy ≡ policy_other)
      → Permits sched sched.self
      → (threads' : Threads) × (set_policy sched threads none policy ≡ (Retval.ok, threads'))
        × (get_policy sched threads' sched.self ≡ (Retval.ok, some policy))
  unfolding set_policy get_policy set_param
  get_policy-set_policy policy known p =
      let value = clamp sched (to_posix policy) (threads sched.self).priority in
      let done = p.sets_param (to_posix policy) value in
      let gets = p.gets_param in
      (
        update threads sched.self
            (record (threads sched.self) { policy = to_posix policy; priority = value }),
        ground (arith, gets, done),
        ground (arith, gets, known),
      )

  -- osal_task_set_policy of a task that is not the caller does not change the task, whatever the
  -- answers of the system.
  pub set_policy_elsewhere :
      (tid policy : ℕ)
      → tid ≢ sched.self
      → (set_policy sched threads (some tid) policy).1 tid ≡ threads tid
  unfolding set_policy set_param
  set_policy_elsewhere tid policy ne = elim (Option-cases (sched.getschedparam tid)) [
    | inr (errno, e) ↦ ground (arith, e)
    | inl e ↦
        let value = clamp sched (to_posix policy) (threads tid).priority in
        elim (Option-cases (sched.setschedparam sched.self (to_posix policy) value)) [
          | inr (errno, f) ↦ ground (arith, e, f)
          | inl f ↦ ground (arith, e, f)
        ]
  ]
