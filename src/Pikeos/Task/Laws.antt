-- ===== src/Pikeos/Task/Laws.antt =====
-- When osal_task_join returns on PikeOS.
use libosal.Prelude.{
  ℕ, zero, suc, ◌+◌, ◌-◌, ◌≤◌, ◌<◌, ◌≡◌, ◌≢◌, refl, Bool, true, false, Option, none, some,
  Bool-cases, inl, inr, arith,
}
use native.Mathlib.Decide.{dec_le}
use libosal.Osal.{Retval}
use libosal.Pikeos.Task.{TaskState, ThreadState, task_get_state, join_loop, task_join}

-- An answer of the kernel that says anything else than that the thread is the current one of a CPU:
-- an error, or one of the other states that osal_task_get_state names.
abbrev pub says_other : Option ThreadState → Bool
says_other none = true
says_other (some ThreadState.current) = false
says_other (some ThreadState.other_state) = false
says_other (some _) = true

-- The code of osal_task_join for its last answer.
abbrev pub join_retval : Option ThreadState → Retval
join_retval none = Retval.invalid_param
join_retval (some _) = Retval.ok

-- The loop where the state that was written last is that of an active task, so that an unnamed state
-- of the kernel leaves it so.
join_loop_lem :
    (thread : ℕ → Option ThreadState) (fuel i k : ℕ)
    → k < fuel
    → says_other (thread (i + k)) ≡ true
    → (n : ℕ) × (n ≤ k)
      × (join_loop thread fuel i TaskState.active ≡ some (join_retval (thread (i + n)), i + n))
      × (says_other (thread (i + n)) ≡ true)
      × ((m : ℕ) → m < n → says_other (thread (i + m)) ≡ false)
unfolding join_loop task_get_state
join_loop_lem thread zero i k h stop = elim h [ ]
join_loop_lem thread (suc fuel) i zero h stop =
    (0, omega arith, ground (arith, stop), stop, λ m p. absurd (omega arith))
join_loop_lem thread (suc fuel) i (suc k) h stop = elim (Bool-cases (says_other (thread i))) [
  | inl now ↦
      (0, omega arith, ground (arith, now), ground (arith, now), λ m p. absurd (omega arith))
  | inr later ↦
      let (n, b, e, t, before) =
        join_loop_lem thread fuel (i + 1) k (omega arith) (ground (arith, stop)) in
      (
        n + 1,
        omega arith,
        ground (arith, later, e),
        ground (arith, t),
        λ m p. elim (dec_le 1 m) [
          | yes q ↦ ground (arith, before (m - 1))
          | no q ↦ ground (arith, later)
        ],
      )
]

-- The first answer overwrites what stood in the local `state`, unless the kernel's state is unnamed.
join_loop-any_state :
    (thread : ℕ → Option ThreadState) (fuel i : ℕ) (state : TaskState)
    → thread i ≢ some ThreadState.other_state
    → join_loop thread fuel i state ≡ join_loop thread fuel i TaskState.active
unfolding join_loop task_get_state
join_loop-any_state thread zero i state h = refl
join_loop-any_state thread (suc fuel) i state h = ground arith

from_start :
    (thread : ℕ → Option ThreadState) (n : ℕ) (result : Option (Retval × ℕ))
    → result ≡ some (join_retval (thread (0 + n)), 0 + n)
    → result ≡ some (join_retval (thread n), n)
from_start thread n result e = ground (arith, e)

-- If one of as many answers as there is fuel is an error, or a state that osal_task_get_state names
-- and that is not that of the current thread of a CPU, and the first answer is not a state that it
-- does not name, osal_task_join returns, at the first such answer: with OSAL_ERR_INVALID_PARAM for
-- an error and OSAL_OK for a state. So it returns OSAL_OK for a thread that is only ready, asleep or
-- waiting; and it goes on where a state that is not named comes after that of a current thread.
pub task_join_ends :
    (thread : ℕ → Option ThreadState) (fuel k : ℕ) (state : TaskState)
    → thread 0 ≢ some ThreadState.other_state
    → k < fuel
    → says_other (thread k) ≡ true
    → (n : ℕ) × (n ≤ k)
      × (task_join thread fuel state ≡ some (join_retval (thread n), n))
      × (says_other (thread n) ≡ true)
      × ((m : ℕ) → m < n → says_other (thread m) ≡ false)
unfolding task_join
task_join_ends thread fuel k state known h stop =
    let (n, b, e, t, before) = join_loop_lem thread fuel 0 k h (ground (arith, stop)) in
    (
      n,
      b,
      from_start thread n _ (rw (join_loop-any_state thread fuel 0 state known) e),
      ground (arith, t),
      λ m p. ground (arith, before m p),
    )
