-- ===== src/Posix/Task/Start.antt =====
-- A new task runs its handler with the attributes that were asked for, and osal_task_create returns
-- once it does.
use libosal.Prelude.{ℕ, ◌<◌, ◌≡◌, ◌≢◌, Bool, true, false, none, some, arith, ◌==◌, if◌then◌else◌}
use libosal.Prelude.Loop.{until-first}
use libosal.Osal.{Retval}
use libosal.Posix.Task.{
  Sched, Thread, Threads, to_posix, clamp, set_param, set_policy, set_priority,
}
use libosal.Posix.Task.Affinity.{cpuset, set_cpus, set_affinity}
use libosal.Posix.Task.Lifecycle.{
  TaskAttr, apply_policy, apply_priority, apply_affinity, task_wrapper, task_create,
}
use libosal.Posix.Task.Laws.{Permits}

-- A thread with the attributes that are not 0.
abbrev pub wanted : Sched → Thread → TaskAttr → Thread
wanted sched t attr =
    let policy = if attr.policy == 0 then t.policy else to_posix attr.policy in
    let inherited = if attr.policy == 0 then t.priority else clamp sched policy t.priority in
    record {
      policy = policy;
      priority = if attr.priority == 0 then inherited else clamp sched policy attr.priority;
      cpus = if attr.affinity == 0 then t.cpus else cpuset attr.affinity;
    }

module _ (sched : Sched) (threads : Threads) (p : Permits sched sched.self) (other : ℕ) where
  -- The caller in one case, another thread in the other.
  abbrev caller_or : Thread → Thread
  caller_or thread = if sched.self == other then thread else threads other

  apply_policy_lem :
      (policy : ℕ)
      → apply_policy sched threads policy other ≡ (
          if policy == 0
          then threads other
          else caller_or (record (threads sched.self) {
            policy = to_posix policy;
            priority = clamp sched (to_posix policy) (threads sched.self).priority;
          }))
  unfolding apply_policy set_policy set_param
  apply_policy_lem policy =
      let value = clamp sched (to_posix policy) (threads sched.self).priority in
      ground (arith, p.gets_param, p.sets_param (to_posix policy) value)

  apply_priority_lem :
      (priority : ℕ)
      → apply_priority sched threads priority other ≡ (
          if priority == 0
          then threads other
          else caller_or (record (threads sched.self) {
            priority = clamp sched (threads sched.self).policy priority;
          }))
  unfolding apply_priority set_priority set_param
  apply_priority_lem priority =
      let value = clamp sched (threads sched.self).policy priority in
      ground (arith, p.gets_param, p.sets_param (threads sched.self).policy value)

  apply_affinity_lem :
      (affinity : ℕ)
      → apply_affinity sched threads affinity other ≡ (
          if affinity == 0
          then threads other
          else caller_or (record (threads sched.self) { cpus = cpuset affinity }))
  unfolding apply_affinity set_affinity set_cpus
  apply_affinity_lem affinity = ground (arith, p.sets_affinity (cpuset affinity))

-- The thread in the terms of the code's own helpers.
pub task_wrapper-wanted :
    (sched : Sched) (threads : Threads) (attr : TaskAttr)
    → Permits sched sched.self
    → (task_wrapper sched threads (some attr) sched.self ≡ wanted sched (threads sched.self) attr)
      × ((other : ℕ)
          → other ≢ sched.self
          → task_wrapper sched threads (some attr) other ≡ threads other)
unfolding task_wrapper
task_wrapper-wanted sched threads attr p =
    let first = apply_policy sched threads attr.policy in
    let second = apply_priority sched first attr.priority in
    let self = sched.self in
    (
      ground (
        arith,
        apply_policy_lem sched threads p self attr.policy,
        apply_priority_lem sched first p self attr.priority,
        apply_affinity_lem sched second p self attr.affinity,
      ),
      λ other ne. ground (
        arith,
        apply_policy_lem sched threads p other attr.policy,
        apply_priority_lem sched first p other attr.priority,
        apply_affinity_lem sched second p other attr.affinity,
      ),
    )

-- Where the thread is created and the n-th reading of `running` is the first that is set,
-- osal_task_create returns OSAL_OK at that reading.
pub task_create_lem :
    (running : ℕ → Bool) (fuel n : ℕ)
    → n < fuel
    → ((m : ℕ) → m < n → running m ≡ false)
    → running n ≡ true
    → task_create none running fuel ≡ some Retval.ok
unfolding task_create
task_create_lem running fuel n h go stop =
    let first =
      until-first fuel running 0 n h (λ m q. ground (arith, go m q)) (ground (arith, stop)) in
    ground (arith, first)
