-- ===== src/Pikeos/Semaphore/Laws.antt =====
-- The semaphores of the port keep the contracts where the kernel keeps its own.
use libosal.Prelude.{ℕ, ◌+◌, ◌≤◌, ◌≡◌, Bool, true, false, List, arith, ◌∙◌}
use libosal.Osal.{is_ok}
use libosal.Contract.Binary.{Call, posts, successes, answers, serve}
use libosal.Contract.Counting.{
  CountingContract, run, run-conserves, binary_of_counting, binary_of_counting-clear,
}
use libosal.Pikeos.{P4Error}
use libosal.Pikeos.Semaphore.{
  post_retval, trywait_retval, semaphore_init, binary_semaphore_init, semaphore_post,
  semaphore_trywait,
}

abbrev pub is_p4_ok : P4Error → Bool
is_p4_ok P4Error.ok = true
is_p4_ok _ = false

is_ok-post_retval : (e : P4Error) → is_ok (post_retval e) ≡ is_p4_ok e
is_ok-post_retval e = ground arith

is_ok-trywait_retval : (e : P4Error) → is_ok (trywait_retval e) ≡ is_p4_ok e
is_ok-trywait_retval e = ground arith

module _ {S : Type 0} (kernel : CountingContract is_p4_ok is_p4_ok S) where
  pub pikeos_counting : CountingContract is_ok is_ok S
  unfolding semaphore_post semaphore_trywait
  pikeos_counting = record {
    count = kernel.count;
    limit = kernel.limit;
    post = semaphore_post kernel.post;
    trywait = semaphore_trywait kernel.trywait;
    bounded = kernel.bounded;
    post_answers = λ s. is_ok-post_retval (kernel.post s).0 ∙ kernel.post_answers s;
    post_counts = kernel.post_counts;
    post_limit = kernel.post_limit;
    trywait_answers = λ s. is_ok-trywait_retval (kernel.trywait s).0 ∙ kernel.trywait_answers s;
    trywait_counts = kernel.trywait_counts;
    trywait_limit = kernel.trywait_limit;
  }

  -- After any sequence of osal_semaphore_post and osal_semaphore_trywait on a new semaphore, the
  -- trywaits that returned OSAL_OK and what is left add up to the initial value and the posts that
  -- returned OSAL_OK, and what is left is within the limit of the kernel. The kernel's semaphore
  -- counts, and starts with the count that p4_sem_init is given.
  pub p4_semaphore_conserves :
      (p4_sem_init : ℕ → ℕ → S) (initval : ℕ) (calls : List Call)
      → kernel.count (p4_sem_init initval 0) ≡ initval
      → let outcome = run pikeos_counting calls (semaphore_init p4_sem_init initval).1 in
        (outcome.taken + kernel.count outcome.left ≡ initval + outcome.posted)
        × (kernel.count outcome.left ≤ kernel.limit (p4_sem_init initval 0))
  unfolding semaphore_init pikeos_counting
  p4_semaphore_conserves p4_sem_init initval calls e =
      let (sum, bound) = run-conserves pikeos_counting calls (p4_sem_init initval 0) in
      (omega arith, bound)

  -- A trywait of a new binary semaphore returns OSAL_OK exactly where a post came after the last
  -- trywait, in any sequence of posts and trywaits, and so not more of them succeed than there are
  -- posts. The kernel's semaphore counts, from 0 and to 1 where p4_sem_init is given the flag 1.
  pub p4_binary_refines :
      (p4_sem_init : ℕ → ℕ → S) (calls : List Call)
      → kernel.count (p4_sem_init 0 1) ≡ 0
      → kernel.limit (p4_sem_init 0 1) ≡ 1
      → let oks =
          serve (binary_of_counting pikeos_counting) calls (binary_semaphore_init p4_sem_init).1 in
        (oks ≡ answers calls false) × (successes oks ≤ posts calls)
  unfolding binary_semaphore_init pikeos_counting
  p4_binary_refines p4_sem_init calls zero one =
      binary_of_counting-clear pikeos_counting calls (p4_sem_init 0 1) one zero
