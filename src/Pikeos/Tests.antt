-- ===== src/Pikeos/Tests.antt =====
-- Runs of the port, and its theorems on them.
use libosal.Prelude.{
  ℕ, zero, suc, ◌+◌, ◌≤◌, ◌<◌, ◌^◌, ◌≡◌, ◌≢◌, refl, true, false, ◌/◌, ◌%◌, ◌↔◌, ◌⊎◌, Option, none,
  some, List, [], ◌∷◌, leb, ◌==◌, if◌then◌else◌, arith,
}
use libosal.Prelude.Word.{to_double}
use libosal.Osal.{Retval}
use libosal.Timer.{Timer, nanos}
use libosal.Contract.Binary.{Call, posts, successes, answers, serve}
use libosal.Contract.Counting.{CountingContract, run, binary_of_counting}
use libosal.Contract.Samples.{Sample, held_count, sample_contract}
use libosal.Pikeos.{P4Error}
use libosal.Pikeos.Clock.{timer_init, timer_expired, abs_time, sleep_until}
use libosal.Pikeos.Clock.Laws.{abs_time_close, expired-timer_init, p4_sleep_until_lem}
use libosal.Pikeos.Semaphore.{semaphore_init, binary_semaphore_init}
use libosal.Pikeos.Semaphore.Laws.{
  is_p4_ok, pikeos_counting, p4_semaphore_conserves, p4_binary_refines,
}
use libosal.Pikeos.Mutex.{mutex_lock, mutex_trylock, mutex_unlock}
use libosal.Pikeos.Mutex.Laws.{KernelMutex, unlock-lock}
use libosal.Pikeos.Task.{TaskState, ThreadState, task_join}
use libosal.Pikeos.Task.Laws.{says_other, join_retval, task_join_ends}
use libosal.Pikeos.Task.Handover.{thread_prio, thread_name}
use libosal.Pikeos.Task.Handover.Laws.{posix_start, p4_handover_refines, p4_handover_safe}
use libosal.Posix.Task.Handover.{Creator}
use libosal.Posix.Task.Handover as Handover
use libosal.Pikeos.Task.Handover as P4Handover
use libosal.Pikeos.Shm.{vm_flags, shm_open, shm_map}
use libosal.Pikeos.Shm.Laws.{p4_shm_open_lem, p4_shm_map_lem}

-- 1.7 billion seconds and a nanosecond.
abbrev far : Timer
far = record { sec = 1_700_000_000; nsec = 1 }

abs_time_close_example :
    (nsec : ℕ) × (abs_time far ≡ some nsec)
    × (nsec ≤ 1_700_000_000_000_002_049)
    × (1_700_000_000_000_000_001 ≤ nsec + 2048)
    × (nanos far < 2 ^ 53 → nsec ≡ nanos far)
abs_time_close_example = abs_time_close far (omega arith) (omega arith)

-- The nanosecond is lost.
far_rounded : abs_time far ≡ some 1_700_000_000_000_000_000
unfolding abs_time to_double
far_rounded = refl

expired-timer_init_test :
    timer_expired 3_000_000_000 (timer_init 1_500_000_000 1_500_000_000)
    ≡ (if leb (1_500_000_000 + 1_500_000_000) 3_000_000_000 then Retval.timeout else Retval.ok)
expired-timer_init_test = expired-timer_init 1_500_000_000 3_000_000_000 1_500_000_000 (omega arith)

abbrev cancelled_twice : ℕ → ℕ → P4Error
cancelled_twice n time = if leb 2 n then P4Error.ok else P4Error.cancel

p4_sleep_until_lem_test :
    (time : ℕ) × (sleep_until cancelled_twice 5 far ≡ some Retval.ok)
    × (time ≤ nanos far + 2048)
    × (nanos far ≤ time + 2048)
p4_sleep_until_lem_test =
    p4_sleep_until_lem cancelled_twice 5 2 far (omega arith) (omega arith) (omega arith)
      (λ m time p. ground arith) (λ time. refl)

abbrev kernel : CountingContract is_p4_ok is_p4_ok Sample
kernel =
    sample_contract is_p4_ok is_p4_ok P4Error.ok P4Error.limit P4Error.ok P4Error.timeout refl refl
      refl refl

-- `flags` of 1 for a largest count of 1.
abbrev p4_sem_init : ℕ → ℕ → Sample
p4_sem_init count flags = record { held = count; largest = if flags == 1 then 1 else 255 }

abbrev calls : List Call
calls = Call.trywait ∷ Call.post ∷ Call.post ∷ Call.trywait ∷ Call.trywait ∷ []

p4_semaphore_conserves_test :
    let outcome = run (pikeos_counting kernel) calls (semaphore_init p4_sem_init 2).1 in
    (outcome.taken + held_count outcome.left ≡ 2 + outcome.posted) × (held_count outcome.left ≤ 255)
p4_semaphore_conserves_test = p4_semaphore_conserves kernel p4_sem_init 2 calls refl

p4_binary_refines_example :
    let oks =
      serve
        (binary_of_counting (pikeos_counting kernel))
        calls
        (binary_semaphore_init p4_sem_init).1 in
    (oks ≡ answers calls false) × (successes oks ≤ posts calls)
p4_binary_refines_example = p4_binary_refines kernel p4_sem_init calls refl refl

-- A mutex as its owner.
abbrev lock_sample : ℕ → Option ℕ → P4Error × Option ℕ
lock_sample i none = (P4Error.ok, some i)
lock_sample i (some j) = (P4Error.state, some j)

abbrev unlock_sample : ℕ → Option ℕ → P4Error × Option ℕ
unlock_sample i none = (P4Error.state, none)
unlock_sample i (some j) = if i == j then (P4Error.ok, none) else (P4Error.state, some j)

lock_sample_free :
    (i : ℕ) (s : Option ℕ)
    → s ≡ none
    → ((lock_sample i s).0 ≡ P4Error.ok) × ((lock_sample i s).1 ≡ some i)
lock_sample_free i s e = rw e (refl, refl)

unlock_sample_owner :
    (i : ℕ) (s : Option ℕ)
    → s ≡ some i
    → ((unlock_sample i s).0 ≡ P4Error.ok) × ((unlock_sample i s).1 ≡ none)
unlock_sample_owner i s e = ground arith

abbrev mutexes : KernelMutex (Option ℕ)
mutexes = record {
  owner = λ s. s;
  lock = lock_sample;
  unlock = unlock_sample;
  lock_free = lock_sample_free;
  unlock_owner = unlock_sample_owner;
}

unlock-lock_test :
    let locked = mutex_lock mutexes.lock 4 none in
    let unlocked = mutex_unlock mutexes.unlock 4 locked.1 in
    (locked.0 ≡ Retval.ok) × (locked.1 ≡ some 4) × (unlocked.0 ≡ Retval.ok) × (unlocked.1 ≡ none)
unlock-lock_test = unlock-lock mutexes 4 none refl

-- Task 4 has the mutex, and task 5 is told that it has it too.
both_told :
    (mutex_lock lock_sample 4 none ≡ (Retval.ok, some 4))
    × (mutex_trylock lock_sample 5 (some 4) ≡ (Retval.ok, some 4))
unfolding mutex_lock mutex_trylock
both_told = (refl, refl)

-- A thread that runs at the first question, is in a state that is not named at the second, and asleep
-- from then on.
abbrev falls_asleep : ℕ → Option ThreadState
falls_asleep zero = some ThreadState.current
falls_asleep (suc zero) = some ThreadState.other_state
falls_asleep (suc (suc n)) = some ThreadState.sleeping

task_join_ends_example :
    (n : ℕ) × (n ≤ 5)
    × (task_join falls_asleep 9 TaskState.unknown_id ≡ some (join_retval (falls_asleep n), n))
    × (says_other (falls_asleep n) ≡ true)
    × ((m : ℕ) → m < n → says_other (falls_asleep m) ≡ false)
task_join_ends_example =
    task_join_ends falls_asleep 9 5 TaskState.unknown_id (λ e. cc) (omega arith) refl

-- The thread has copied the handler.
abbrev p4_first_copy :
    (s : P4Handover.Start) × P4Handover.Reach 100 7 0 (P4Handover.begin 100 7 0) s
p4_first_copy = (
  _,
  P4Handover.Reach.later
      (P4Handover.Reach.later P4Handover.Reach.start (P4Handover.Step.create_starts refl))
      (P4Handover.Step.copies _ _ refl refl),
)

-- And both, and the task runs.
abbrev p4_running : (s : P4Handover.Start) × P4Handover.Reach 100 7 0 (P4Handover.begin 100 7 0) s
p4_running = (
  _,
  P4Handover.Reach.later
      (P4Handover.Reach.later
        (P4Handover.Reach.later p4_first_copy.1 (P4Handover.Step.copies _ _ refl refl))
        (P4Handover.Step.sets_running _ _ _ refl refl))
      (P4Handover.Step.polls_done _ refl refl refl),
)

p4_handover_refines_example :
    Handover.Reach 100 7 0 (Handover.begin 100 7 0) (posix_start p4_running.0)
p4_handover_refines_example = p4_handover_refines 100 7 0 p4_running.1

p4_handover_safe_test :
    (p4_running.0.wrapper ≢ P4Handover.Wrapper.faulted)
    × (p4_running.0.creator ≡ Creator.returned Retval.ok
        → p4_running.0.wrapper ≡ P4Handover.Wrapper.calling 100 7)
    × ((h a : ℕ) → p4_running.0.wrapper ≡ P4Handover.Wrapper.calling h a → (h ≡ 100) × (a ≡ 7))
p4_handover_safe_test = p4_handover_safe 100 7 0 p4_running.1

idle_attr : thread_prio (some (record { priority = 0; task_name = 116 ∷ [] })) ≡ 1
idle_attr = refl

unnamed : thread_name (some (record { priority = 4; task_name = [] })) ≡ none
unnamed = refl

-- The flags of osal_io_shm_setup, and a kernel that finds nothing.
p4_shm_open_lem_test :
    ((shm_open (λ flags. (P4Error.noent, 0)) (some 38) 64).0 ≡ Retval.ok
      ↔ P4Error.noent ≡ P4Error.ok)
    × ((shm_open (λ flags. (P4Error.noent, 0)) (some 38) 64).1 ≡ record { fd = 0; size = 64 })
    × ((vm_flags (some 38)).o_rd ≡ true ↔ (38 / 1 % 2 ≡ 1) ⊎ (38 / 2 % 2 ≡ 1))
    × ((vm_flags (some 38)).o_wr ≡ true ↔ 38 / 2 % 2 ≡ 1)
    × ((vm_flags (some 38)).o_creat ≡ true ↔ 38 / 4 % 2 ≡ 1)
    × ((vm_flags (some 38)).o_excl ≡ true ↔ 38 / 8 % 2 ≡ 1)
    × ((vm_flags (some 38)).o_map ≡ true ↔ 38 / 32 % 2 ≡ 1)
p4_shm_open_lem_test = p4_shm_open_lem (λ flags. (P4Error.noent, 0)) 38 64

-- A descriptor that is not valid, which the kernel reports with a code that is not named.
map_failed_ok :
    shm_map (λ size. some 4096) (λ fd size ptr. P4Error.baduid) (record { fd = 0; size = 64 })
    ≡ (Retval.ok, some 4096)
map_failed_ok =
    (p4_shm_map_lem (λ size. some 4096) (λ fd size ptr. P4Error.baduid)
        (record { fd = 0; size = 64 }) 4096).1
      (refl, refl)
