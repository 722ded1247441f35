-- ===== src/Posix/BinarySemaphore/Wakeup.antt =====
-- No post is lost on a sleeper: while the value is set, a task that will look at it is awake.
use libosal.Prelude.{ℕ, ◌≡◌, Bool, true, false, arith}
use libosal.Posix.BinarySemaphore.{Wait, Pc, System, init, Step, Reach}
use libosal.Posix.BinarySemaphore.Invariant.{Inv, guard, Reach-Inv}

-- Awake in one of the waits, without having timed out: the task tests the value next, or takes it.
abbrev pub claims : Pc → Bool
claims (Pc.relock w false) = true
claims (Pc.wait_test w) = true
claims (Pc.take w) = true
claims _ = false

abbrev Heard : System → Type 0
Heard s =
    s.value ≡ 1 → (j : ℕ) (w : Wait) → s.pc j ≡ Pc.blocked w → (i : ℕ) × (claims (s.pc i) ≡ true)

module _ {s : System} (v : Inv s) (heard : Heard s) where
  -- A step that is no post leaves a sleeper that it finds, and sends no task to sleep on a set value.
  slept :
      {t : System}
      → Step s t
      → s.value ≡ 1
      → t.value ≡ 1
      → (j : ℕ) (w : Wait) → t.pc j ≡ Pc.blocked w
      → s.pc j ≡ Pc.blocked w
  slept (Step.post_wakes i k u e z b) p q j w = ground arith
  slept st p q j w = ground (arith, guard st)

  stays :
      {t : System}
      → Step s t
      → s.value ≡ 1
      → t.value ≡ 1
      → (i : ℕ) → claims (s.pc i) ≡ true
      → claims (t.pc i) ≡ true
  stays (Step.post_wakes i k u e z b) p q j = ground arith
  stays st p q j = ground (arith, guard st)

  Step-Heard : {t : System} → Step s t → Heard t
  Step-Heard (Step.post_wakes i k u e z b) p j w q = (k, ground arith)
  Step-Heard (Step.post_alone i e z asleep) p j w q = absurd (asleep j w (ground arith))
  Step-Heard st p j w q =
      let set : s.value ≡ 1 = ground (arith, guard st) in
      let (i, c) = heard set j w (slept st set p j w q) in (i, stays st set p i c)

Reach-Heard : {s : System} → Reach init s → Heard s
Reach-Heard Reach.start p = cc
Reach-Heard (Reach.later r st) p = Step-Heard (Reach-Inv r) (Reach-Heard r) st p

-- Whenever the value is set while a task sleeps in one of the waits, some task is awake in a wait
-- and has not timed out: it will test the value, or is about to take it.
pub no_lost_wakeup :
    {s : System}
    → Reach init s
    → s.value ≡ 1
    → (j : ℕ) (w : Wait) → s.pc j ≡ Pc.blocked w
    → (i : ℕ) × (claims (s.pc i) ≡ true)
no_lost_wakeup r = Reach-Heard r
