-- ===== src/Posix/BinarySemaphore/Hang.antt =====
-- osal_binary_semaphore_timedwait with a time that the system refuses.
use libosal.Prelude.{ℕ, ◌≡◌, some, arith}
use libosal.Timer.{Timer, IsNormal}
use libosal.Posix.BinarySemaphore.{Wait, Pc, System, Step, Reach, init}
use libosal.Posix.BinarySemaphore.Invariant.{Inv, mover, guard, Reach-Inv, Step-Inv}

module _ (i : ℕ) (to : Timer) (bad : ¬ IsNormal to) where
  -- The task in the loop, with the value clear.
  record Spins (s : System) : Type 0 where
    inv : Inv s
    clear : s.value ≡ 0
    here : s.pc i ≡ Pc.wait_test (Wait.deadline to)

  Step-clear : {s t : System} → Step s t → Spins s → t.value ≡ 0
  Step-clear (Step.post_wakes k j w e z b) h = ground (arith, h.inv.owned i, h.inv.owned k)
  Step-clear st h = ground (arith, guard st, h.inv.owned i, h.inv.owned (mover st))

  Step-here : {s t : System} → Step s t → Spins s → t.pc i ≡ Pc.wait_test (Wait.deadline to)
  Step-here (Step.post_wakes k j w e z b) h = ground (arith, h.inv.owned i, h.inv.owned k)
  Step-here (Step.wait_deadline k to' e z n) h = ground (arith, bad, h.inv.owned i, h.inv.owned k)
  Step-here st h = ground (arith, guard st, h.inv.owned i, h.inv.owned (mover st))

  Reach-Spins : {s t : System} → Spins s → Reach s t → Spins t
  Reach-Spins h Reach.start = h
  Reach-Spins h (Reach.later r st) =
      let g = Reach-Spins h r in
      record { inv = Step-Inv g.inv st; clear = Step-clear st g; here = Step-here st g }

-- A task that calls osal_binary_semaphore_timedwait with a second or more in the nanoseconds, and
-- finds the value clear, never gets out: whatever the tasks do, it stays in the loop, owns the
-- mutex, and the value stays clear, so that no other task can post.
pub timedwait_hangs :
    {s t : System} (i : ℕ) (to : Timer)
    → Reach init s
    → s.pc i ≡ Pc.wait_test (Wait.deadline to)
    → s.value ≡ 0
    → ¬ IsNormal to
    → Reach s t
    → (t.pc i ≡ Pc.wait_test (Wait.deadline to)) × (t.owner ≡ some i) × (t.value ≡ 0)
timedwait_hangs {s} i to r e z bad rest =
    let start : Spins i to bad s = record { inv = Reach-Inv r; clear = z; here = e } in
    let h = Reach-Spins i to bad start rest in
    (h.here, ground (arith, h.inv.owned i, h.here), h.clear)
