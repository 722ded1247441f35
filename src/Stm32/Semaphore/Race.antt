-- ===== src/Stm32/Semaphore/Race.antt =====
-- Two tasks that wait for one post.
use libosal.Prelude.{ℕ, ◌≡◌, ◌≢◌, refl, Bool, true, arith}
use libosal.Osal.{Retval}
use libosal.Stm32.Semaphore.{Pc, System, Step, Reach, goto}

module _ (s : System) (i j : ℕ) where
  -- The tasks before they have loaded the count, and after.
  abbrev called : System
  called = record s { pc = goto (goto s.pc i Pc.try_load) j Pc.wait_load }

  abbrev passed : System
  passed = record called { pc = goto (goto called.pc i Pc.fetch_sub) j Pc.fetch_sub }

module _ {consumes : ℕ → Bool} (s : System) (i j : ℕ) (distinct : i ≢ j) where
  to_called :
      s.pc i ≡ Pc.idle
      → s.pc j ≡ Pc.idle
      → consumes i ≡ true
      → consumes j ≡ true
      → Reach consumes s (called s i j)
  to_called p q c d =
      Reach.later (Reach.later Reach.start (Step.call_trywait i p c))
        (Step.call_wait j (ground arith) d)

  to_passed : s.cnt ≡ 1 → Reach consumes s (called s i j) → Reach consumes s (passed s i j)
  to_passed one r =
      Reach.later (Reach.later r (Step.try_passes i (ground arith) (omega arith, omega arith)))
        (Step.wait_passes j (ground arith) (omega arith))

  to_taken :
      Reach consumes s (passed s i j)
      → (t : System) × Reach consumes s t
        × (t.pc i ≡ Pc.leaving Retval.ok)
        × (t.pc j ≡ Pc.leaving Retval.ok)
        × (t.posted ≡ s.posted)
        × (s.cnt ≡ 1 → t.cnt ≡ 4_294_967_295)
  to_taken r =
      let r' = Reach.later r (Step.takes i (ground arith)) in
      let r'' = Reach.later r' (Step.takes j (ground arith)) in
      (_, r'', ground arith, ground arith, refl, λ one. omega arith)

  -- Where the count is 1 and two tasks outside of any call may wait, one by osal_semaphore_trywait
  -- and one by osal_semaphore_wait, both can return OSAL_OK with no post in between, and leave the
  -- count at 2^32 - 1, which is -1.
  pub two_take_one :
      s.cnt ≡ 1
      → s.pc i ≡ Pc.idle
      → s.pc j ≡ Pc.idle
      → consumes i ≡ true
      → consumes j ≡ true
      → (t : System) × Reach consumes s t
        × (t.pc i ≡ Pc.leaving Retval.ok)
        × (t.pc j ≡ Pc.leaving Retval.ok)
        × (t.posted ≡ s.posted)
        × (t.cnt ≡ 4_294_967_295)
  two_take_one one p q c d =
      let (t, r, a, b, e, f) = to_taken (to_passed one (to_called p q c d)) in
      (t, r, a, b, e, f one)
