-- ===== src/Stm32/Semaphore/Invariant.antt =====
-- What becomes of the posts of a semaphore of this port.
use libosal.Prelude.{ℕ, ◌+◌, ◌-◌, ◌%◌, ◌^◌, ◌<◌, ◌≡◌, ◌≢◌, Bool, true, false, arith}
use libosal.Osal.{Retval}
use libosal.Stm32.Semaphore.{Pc, System, init, Step, Reach}

-- No two tasks call the waits.
abbrev pub OneConsumer : (ℕ → Bool) → Type 0
OneConsumer consumes = (i j : ℕ) → consumes i ≡ true → consumes j ≡ true → i ≡ j

abbrev waits : Pc → Bool
waits Pc.wait_load = true
waits Pc.try_load = true
waits Pc.timed_load = true
waits Pc.timed_test = true
waits Pc.fetch_sub = true
waits _ = false

record Inv (consumes : ℕ → Bool) (initval : ℕ) (s : System) : Type 0 where
  word : s.cnt < 2 ^ 32
  wrapped : (s.cnt + s.taken) % 2 ^ 32 ≡ (initval + s.posted) % 2 ^ 32
  called : (i : ℕ) → waits (s.pc i) ≡ true → consumes i ≡ true

-- With one consumer, as long as the posts have not wrapped the count.
record Exact (initval : ℕ) (s : System) : Type 0 where
  counted : initval + s.posted < 2 ^ 32 → s.cnt + s.taken ≡ initval + s.posted
  ready : (i : ℕ) → initval + s.posted < 2 ^ 32 → s.pc i ≡ Pc.fetch_sub → s.cnt ≢ 0

init-Exact : (initval : ℕ) → Exact initval (init initval)
init-Exact initval = record { counted = λ h. omega arith; ready = λ i h p. cc }

module _ {consumes : ℕ → Bool} {initval : ℕ} where
  init-Inv : Inv consumes initval (init initval)
  init-Inv = record { word = omega arith; wrapped = omega arith; called = λ i h. cc }

  module _ {s : System} (v : Inv consumes initval s) where
    Step-word :
        {t : System}
        → Step consumes s t
        → (t.cnt < 2 ^ 32) × ((t.cnt + t.taken) % 2 ^ 32 ≡ (initval + t.posted) % 2 ^ 32)
    Step-word (Step.post i e) = ground (arith, v.word, v.wrapped)
    Step-word (Step.takes i e) = ground (arith, v.word, v.wrapped)
    Step-word st = ground (arith, v.word, v.wrapped)

    Step-called :
        {t : System} → Step consumes s t → (k : ℕ) → waits (t.pc k) ≡ true → consumes k ≡ true
    Step-called (Step.call_wait i e c) k = ground (arith, v.called k)
    Step-called (Step.call_trywait i e c) k = ground (arith, v.called k)
    Step-called (Step.call_timedwait i e c) k = ground (arith, v.called k)
    Step-called (Step.wait_again i e z) k = ground (arith, v.called k)
    Step-called (Step.wait_passes i e z) k = ground (arith, v.called k, v.called i)
    Step-called (Step.try_passes i e z) k = ground (arith, v.called k, v.called i)
    Step-called (Step.timed_empty i e z) k = ground (arith, v.called k, v.called i)
    Step-called (Step.timed_again i e) k = ground (arith, v.called k, v.called i)
    Step-called (Step.timed_passes i e z) k = ground (arith, v.called k, v.called i)
    Step-called st k = ground (arith, v.called k)

    -- Every step keeps the invariant.
    Step-Inv : {t : System} → Step consumes s t → Inv consumes initval t
    Step-Inv st = record {
      word = (Step-word st).0;
      wrapped = (Step-word st).1;
      called = Step-called st;
    }

    module _ (one : OneConsumer consumes) (x : Exact initval s) where
      Step-counted :
          {t : System}
          → Step consumes s t
          → initval + t.posted < 2 ^ 32
          → t.cnt + t.taken ≡ initval + t.posted
      Step-counted (Step.takes i e) h = ground (arith, v.word, x.counted, x.ready i)
      Step-counted (Step.post i e) h = ground (arith, v.word, x.counted)
      Step-counted st h = ground (arith, x.counted)

      Step-ready :
          {t : System}
          → Step consumes s t
          → (k : ℕ) → initval + t.posted < 2 ^ 32
          → t.pc k ≡ Pc.fetch_sub
          → t.cnt ≢ 0
      Step-ready (Step.takes i e) k h p = ground (arith, v.called i, v.called k, one i k)
      Step-ready (Step.post i e) k h p = ground (arith, v.word, x.counted, x.ready k)
      Step-ready (Step.wait_passes i e z) k h p = ground (arith, x.ready k)
      Step-ready (Step.try_passes i e z) k h p = ground (arith, x.ready k)
      Step-ready (Step.timed_passes i e z) k h p = ground (arith, x.ready k)
      Step-ready st k h p = ground (arith, x.ready k)

      Step-Exact : {t : System} → Step consumes s t → Exact initval t
      Step-Exact st = record { counted = Step-counted st; ready = Step-ready st }

  Reach-Inv : {s : System} → Reach consumes (init initval) s → Inv consumes initval s
  Reach-Inv Reach.start = init-Inv
  Reach-Inv (Reach.later r st) = Step-Inv (Reach-Inv r) st

  Reach-Exact :
      {s : System} → OneConsumer consumes → Reach consumes (init initval) s → Exact initval s
  Reach-Exact one Reach.start = init-Exact initval
  Reach-Exact one (Reach.later r st) = Step-Exact (Reach-Inv r) one (Reach-Exact one r) st

-- Where no two tasks call the waits, and as long as the initial value and the posts add up to less
-- than 2^31, the waits that have passed and the count add up to the same, and the count is below
-- 2^31: every wait that passes has a post, or a part of the initial value, of its own, and the count
-- as a signed `int` neither falls below 0 nor overflows.
pub OneConsumer-safe :
    {consumes : ℕ → Bool} (initval : ℕ) {s : System}
    → OneConsumer consumes
    → Reach consumes (init initval) s
    → initval + s.posted < 2 ^ 31
    → (s.cnt + s.taken ≡ initval + s.posted) × (s.cnt < 2 ^ 31)
OneConsumer-safe initval one r h =
    let counted = (Reach-Exact one r).counted (omega (arith, h)) in
    (counted, omega (arith, counted))

-- At the largest `int` a post returns OSAL_OK all the same, and leaves the smallest one, on which
-- osal_semaphore_trywait fails though no wait has taken anything.
post_overflows :
    {consumes : ℕ → Bool} (s : System) (i : ℕ)
    → s.cnt ≡ 2 ^ 31 - 1
    → s.pc i ≡ Pc.idle
    → (t : System) × Step consumes s t
      × (t.pc i ≡ Pc.leaving Retval.ok)
      × (t.cnt ≡ 2 ^ 31)
      × ¬ ((0 < t.cnt) × (t.cnt < 2 ^ 31))
post_overflows s i e idle =
    (_, Step.post i idle, ground arith, omega (arith, e), λ h. omega (arith, h.1, e))
