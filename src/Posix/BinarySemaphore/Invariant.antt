-- ===== src/Posix/BinarySemaphore/Invariant.antt =====
-- Who owns the mutex, and what becomes of a post.
use libosal.Prelude.{ℕ, ◌+◌, ◌≤◌, ◌≡◌, ◌≢◌, Bool, true, false, none, some, arith}
use libosal.Posix.BinarySemaphore.{Wait, Pc, System, init, Step, Reach}

-- Between the lock and the unlock of the mutex.
abbrev pub holds : Pc → Bool
holds Pc.post_test = true
holds Pc.try_test = true
holds (Pc.wait_test w) = true
holds (Pc.take w) = true
holds (Pc.unlock r) = true
holds _ = false

pub record Inv (s : System) : Type 0 where
  pub small : s.value ≤ 1
  pub owned : (i : ℕ) → holds (s.pc i) ≡ true → s.owner ≡ some i
  pub kept : (i : ℕ) → s.owner ≡ some i → holds (s.pc i) ≡ true
  pub counted : s.taken + s.value ≡ s.posted
  pub ready : (i : ℕ) (w : Wait) → s.pc i ≡ Pc.take w → s.value ≡ 1

-- The task that makes a step, and what the step finds: where the task stands, and the value or the
-- owner that it tests.
abbrev pub mover : {s t : System} → Step s t → ℕ
mover (Step.call_post i _) = i
mover (Step.call_try i _) = i
mover (Step.call_wait i _ _) = i
mover (Step.lock_post i _ _) = i
mover (Step.lock_try i _ _) = i
mover (Step.lock_wait i _ _ _) = i
mover (Step.post_wakes i _ _ _ _ _) = i
mover (Step.post_alone i _ _ _) = i
mover (Step.post_again i _ _) = i
mover (Step.try_busy i _ _) = i
mover (Step.try_takes i _ _) = i
mover (Step.wait_forever i _ _) = i
mover (Step.wait_deadline i _ _ _ _) = i
mover (Step.wait_refused i _ _ _ _) = i
mover (Step.wait_passes i _ _ _) = i
mover (Step.wakes i _ _) = i
mover (Step.expires i _ _) = i
mover (Step.relocks i _ _ _) = i
mover (Step.relocks_late i _ _ _) = i
mover (Step.takes i _ _) = i
mover (Step.unlocks i _ _) = i

abbrev Guard : {s t : System} → Step s t → Type 0
Guard {s} (Step.call_post i _) = s.pc i ≡ Pc.idle
Guard {s} (Step.call_try i _) = s.pc i ≡ Pc.idle
Guard {s} (Step.call_wait i _ _) = s.pc i ≡ Pc.idle
Guard {s} (Step.lock_post i _ _) = (s.pc i ≡ Pc.post_lock) × (s.owner ≡ none)
Guard {s} (Step.lock_try i _ _) = (s.pc i ≡ Pc.try_lock) × (s.owner ≡ none)
Guard {s} (Step.lock_wait i w _ _) = (s.pc i ≡ Pc.wait_lock w) × (s.owner ≡ none)
Guard {s} (Step.post_wakes i j w _ _ _) =
    (s.pc i ≡ Pc.post_test) × (s.value ≡ 0) × (s.pc j ≡ Pc.blocked w)
Guard {s} (Step.post_alone i _ _ _) = (s.pc i ≡ Pc.post_test) × (s.value ≡ 0)
Guard {s} (Step.post_again i _ _) = (s.pc i ≡ Pc.post_test) × (s.value ≢ 0)
Guard {s} (Step.try_busy i _ _) = (s.pc i ≡ Pc.try_test) × (s.value ≡ 0)
Guard {s} (Step.try_takes i _ _) = (s.pc i ≡ Pc.try_test) × (s.value ≢ 0)
Guard {s} (Step.wait_forever i _ _) = (s.pc i ≡ Pc.wait_test Wait.forever) × (s.value ≡ 0)
Guard {s} (Step.wait_deadline i to _ _ _) =
    (s.pc i ≡ Pc.wait_test (Wait.deadline to)) × (s.value ≡ 0)
Guard {s} (Step.wait_refused i to _ _ _) =
    (s.pc i ≡ Pc.wait_test (Wait.deadline to)) × (s.value ≡ 0)
Guard {s} (Step.wait_passes i w _ _) = (s.pc i ≡ Pc.wait_test w) × (s.value ≢ 0)
Guard {s} (Step.wakes i w _) = s.pc i ≡ Pc.blocked w
Guard {s} (Step.expires i to _) = s.pc i ≡ Pc.blocked (Wait.deadline to)
Guard {s} (Step.relocks i w _ _) = (s.pc i ≡ Pc.relock w false) × (s.owner ≡ none)
Guard {s} (Step.relocks_late i w _ _) = (s.pc i ≡ Pc.relock w true) × (s.owner ≡ none)
Guard {s} (Step.takes i w _) = s.pc i ≡ Pc.take w
Guard {s} (Step.unlocks i r _) = s.pc i ≡ Pc.unlock r

pub guard : {s t : System} (step : Step s t) → Guard step
guard (Step.call_post _ e) = e
guard (Step.call_try _ e) = e
guard (Step.call_wait _ _ e) = e
guard (Step.lock_post _ e o) = (e, o)
guard (Step.lock_try _ e o) = (e, o)
guard (Step.lock_wait _ _ e o) = (e, o)
guard (Step.post_wakes _ _ _ e z b) = (e, z, b)
guard (Step.post_alone _ e z _) = (e, z)
guard (Step.post_again _ e z) = (e, z)
guard (Step.try_busy _ e z) = (e, z)
guard (Step.try_takes _ e z) = (e, z)
guard (Step.wait_forever _ e z) = (e, z)
guard (Step.wait_deadline _ _ e z _) = (e, z)
guard (Step.wait_refused _ _ e z _) = (e, z)
guard (Step.wait_passes _ _ e z) = (e, z)
guard (Step.wakes _ _ e) = e
guard (Step.expires _ _ e) = e
guard (Step.relocks _ _ e o) = (e, o)
guard (Step.relocks_late _ _ e o) = (e, o)
guard (Step.takes _ _ e) = e
guard (Step.unlocks _ _ e) = e

module _ {s : System} (v : Inv s) where
  Step-counted : {t : System} → Step s t → (t.value ≤ 1) × (t.taken + t.value ≡ t.posted)
  Step-counted (Step.takes i w e) = ground (arith, v.small, v.counted, v.ready i w)
  Step-counted st = ground (arith, v.small, v.counted, guard st)

  Step-owned : {t : System} → Step s t → (k : ℕ) → holds (t.pc k) ≡ true → t.owner ≡ some k
  Step-owned (Step.post_wakes i j w e z b) k = ground (arith, v.owned k, v.owned i)
  Step-owned st k = ground (arith, guard st, v.owned k, v.owned (mover st))

  Step-kept : {t : System} → Step s t → (k : ℕ) → t.owner ≡ some k → holds (t.pc k) ≡ true
  Step-kept (Step.post_wakes i j w e z b) k = ground (arith, v.kept k, v.owned i)
  Step-kept st k = ground (arith, guard st, v.kept k, v.owned (mover st))

  Step-ready : {t : System} → Step s t → (k : ℕ) (w : Wait) → t.pc k ≡ Pc.take w → t.value ≡ 1
  Step-ready (Step.post_wakes i j u e z b) k w = ground (arith, v.ready k w)
  Step-ready st k w = ground (arith, v.small, guard st, v.ready k w, v.owned k, v.owned (mover st))

  -- Every step keeps the invariant.
  pub Step-Inv : {t : System} → Step s t → Inv t
  Step-Inv st = record {
    small = (Step-counted st).0;
    owned = Step-owned st;
    kept = Step-kept st;
    counted = (Step-counted st).1;
    ready = Step-ready st;
  }

init-Inv : Inv init
init-Inv = record {
  small = omega arith;
  owned = λ i h. cc;
  kept = λ i h. cc;
  counted = omega arith;
  ready = λ i w h. cc;
}

pub Reach-Inv : {s : System} → Reach init s → Inv s
Reach-Inv Reach.start = init-Inv
Reach-Inv (Reach.later r st) = Step-Inv (Reach-Inv r) st

-- Two tasks are never both between the lock and the unlock of the semaphore's mutex.
pub mutual_exclusion :
    {s : System} → Reach init s → (i j : ℕ) → holds (s.pc i) ≡ true → holds (s.pc j) ≡ true → i ≡ j
mutual_exclusion r i j p q = let v = Reach-Inv r in ground (arith, v.owned i p, v.owned j q)

-- The value is 0 or 1, and every post that set it has been taken by exactly one wait or is still
-- there: the waits that took the value and the value add up to the posts that set it.
pub posts_conserved : {s : System} → Reach init s → (s.value ≤ 1) × (s.taken + s.value ≡ s.posted)
posts_conserved r = let v = Reach-Inv r in (v.small, v.counted)
