-- ===== src/Posix/Task/Tests.antt =====
-- A system of threads, and the theorems on it.
use libosal.Posix.Task.Handover
use libosal.Posix.Task.Handover.{Creator, Wrapper, Start, begin, given}
use libosal.Posix.Task.Handover.Laws.{handover_safe}
use libosal.Posix.Task.Handover.Ends.{Ends, handover-Ends}
use libosal.Prelude.{
  ℕ, zero, suc, ◌≤◌, ◌≡◌, ◌≢◌, refl, Bool, true, false, none, some, arith, ltb, ◌==◌, if◌then◌else◌,
  inl, inr,
}
use libosal.Osal.{Retval, Errno}
use libosal.Posix.Task.{
  Sched, Thread, Threads, clamp, set_policy, get_policy, set_priority, get_priority,
}
use libosal.Posix.Task.Affinity.{set_affinity, get_affinity}
use libosal.Posix.Task.Lifecycle.{
  TaskAttr, task_wrapper, task_create, task_join, task_destroy, task_suspend, task_resume,
  set_task_attr, get_task_attr,
}
use libosal.Posix.Task.Laws.{
  Permits, Bounds, clamp_lem, get_priority-set_priority, get_policy-set_policy,
  set_policy_elsewhere,
}
use libosal.Posix.Task.Mask.{get_affinity-set_affinity, get_task_attr-set_task_attr}
use libosal.Posix.Task.Attributes.{Has, task_wrapper-Has}
use libosal.Posix.Task.Start.{task_create_lem}

-- SCHED_FIFO and SCHED_RR have the priorities 1 to 99, the others 0; the caller is thread 1.
abbrev sched : Sched
sched = record {
  getschedparam = λ tid. none;
  setschedparam = λ tid policy priority. none;
  getaffinity = λ tid. none;
  setaffinity = λ tid cpus. none;
  priority_min = λ policy. if policy == 0 then 0 else 1;
  priority_max = λ policy. if policy == 0 then 0 else 99;
  self = 1;
}

abbrev plain : Thread
plain = record { policy = 0; priority = 0; cpus = λ cpu. ltb cpu 4 }

abbrev threads : Threads
threads tid = plain

permits : (tid : ℕ) → Permits sched tid
permits tid = record {
  gets_param = refl;
  sets_param = λ policy priority. refl;
  gets_affinity = refl;
  sets_affinity = λ cpus. refl;
}

fifo-Bounds : Bounds sched 1
fifo-Bounds = record { ordered = omega arith; small = omega arith }

clamp_lem_test :
    (1 ≤ clamp sched 1 200)
    × (clamp sched 1 200 ≤ 99)
    × (1 ≤ 200 → 200 ≤ 99 → clamp sched 1 200 ≡ 200)
clamp_lem_test = clamp_lem sched 1 200 fifo-Bounds (omega arith)

-- Thread 5 runs with SCHED_FIFO, the others with SCHED_OTHER.
abbrev real_time : Threads
real_time tid = if tid == 5 then record plain { policy = 1; priority = 10 } else plain

get_priority-set_priority_test :
    (threads' : Threads) × (value : ℕ) × (set_priority sched real_time (some 5) 50
      ≡ (Retval.ok, threads'))
    × (get_priority sched threads' (some 5) ≡ (Retval.ok, some value))
    × (1 ≤ value)
    × (value ≤ 99)
    × (1 ≤ 50 → 50 ≤ 99 → value ≡ 50)
    × ((other : ℕ) → other ≢ 5 → threads' other ≡ real_time other)
get_priority-set_priority_test =
    get_priority-set_priority sched real_time (some 5) 50 (permits 5) fifo-Bounds (omega arith)

get_policy-set_policy_test :
    (threads' : Threads) × (set_policy sched threads none 2 ≡ (Retval.ok, threads'))
    × (get_policy sched threads' 1 ≡ (Retval.ok, some 2))
get_policy-set_policy_test = get_policy-set_policy sched threads 2 (inr (inl refl)) (permits 1)

set_policy_elsewhere_test : (set_policy sched threads (some 5) 1).1 5 ≡ plain
set_policy_elsewhere_test = set_policy_elsewhere sched threads 5 1 (λ e. omega (arith, e))

get_affinity-set_affinity_test :
    (threads' : Threads) × (set_affinity sched threads (some 5) 10 ≡ (Retval.ok, threads'))
    × (get_affinity sched threads' (some 5) ≡ some (Retval.ok, 10))
    × ((other : ℕ) → other ≢ 5 → threads' other ≡ threads other)
get_affinity-set_affinity_test =
    get_affinity-set_affinity sched threads (some 5) 10 (permits 5) (omega arith) (omega arith)

abbrev attr : TaskAttr
attr = record { policy = 1; priority = 200; affinity = 3 }

sched-Bounds : (policy : ℕ) → Bounds sched policy
sched-Bounds policy = record { ordered = ground arith; small = ground arith }

task_wrapper-Has_example :
    Has sched plain attr (task_wrapper sched threads (some attr) 1)
    × ((other : ℕ) → other ≢ 1 → task_wrapper sched threads (some attr) other ≡ threads other)
task_wrapper-Has_example =
    task_wrapper-Has sched threads attr (permits 1) sched-Bounds (omega arith) (omega arith)

get_task_attr-set_task_attr_example :
    (threads' : Threads) × (set_task_attr sched threads 5 attr ≡ (Retval.ok, threads'))
    × (get_task_attr sched threads' 5 ≡ some (Retval.ok, some attr))
    × ((threads' 5).policy ≡ 1)
get_task_attr-set_task_attr_example =
    get_task_attr-set_task_attr sched threads 5 attr (permits 5) (omega arith)

abbrev third : ℕ → Bool
third zero = false
third (suc zero) = false
third (suc (suc n)) = true

third_below_2 : (m : ℕ) → suc m ≤ 2 → third m ≡ false
third_below_2 zero h = refl
third_below_2 (suc zero) h = refl
third_below_2 (suc (suc m)) h = absurd (omega arith)

task_create_lem_test : task_create none third 3 ≡ some Retval.ok
task_create_lem_test = task_create_lem third 3 2 (omega arith) third_below_2 refl

codes :
    (task_create (some Errno.eagain) third 0 ≡ some Retval.system_limit_reached)
    × (task_join (some Errno.edeadlk) ≡ Retval.dead_lock)
    × (task_destroy (some Errno.esrch) ≡ Retval.not_found)
    × (task_suspend (some Errno.esrch) ≡ Retval.invalid_param)
    × (task_resume none ≡ Retval.ok)
unfolding task_create task_join task_destroy task_suspend task_resume
codes = (refl, refl, refl, refl, refl)

-- A start of the handler at address 100 with the argument 7: the thread has copied the handler, then
-- it goes on to the handler and osal_task_create returns.
first_copy :
    (s : Start) × Handover.Reach 100 7 0 (begin 100 7 0) s
    × (s.creator ≡ Creator.waiting)
    × (s.wrapper ≡ Wrapper.copy_arg 100)
first_copy = (
  _,
  Handover.Reach.later
      (Handover.Reach.later Handover.Reach.start (Handover.Step.create_starts refl))
      (Handover.Step.copies (given 100 7 0) (Wrapper.copy_arg 100) refl refl),
  refl,
  refl,
)

handover_safe_example :
    (first_copy.0.wrapper ≢ Wrapper.faulted)
    × (first_copy.0.creator ≡ Creator.returned Retval.ok
        → first_copy.0.wrapper ≡ Wrapper.calling 100 7)
    × ((h a : ℕ) → first_copy.0.wrapper ≡ Wrapper.calling h a → (h ≡ 100) × (a ≡ 7))
handover_safe_example = handover_safe 100 7 0 first_copy.1

handover-Ends_example : Ends 100 7 0 first_copy.0
handover-Ends_example = handover-Ends 100 7 0 first_copy.1 first_copy.2
