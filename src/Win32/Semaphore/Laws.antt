-- ===== src/Win32/Semaphore/Laws.antt =====
-- The semaphores of the port keep the contracts where those of Windows keep their own.
use libosal.Prelude.{ℕ, ◌+◌, ◌≤◌, ◌≡◌, Bool, true, false, Option, some, List, arith, ◌∙◌}
use libosal.Osal.{is_ok}
use libosal.Contract.Binary.{Call, posts, successes, answers, serve}
use libosal.Contract.Counting.{
  CountingContract, run, run-conserves, binary_of_counting, binary_of_counting-clear,
}
use libosal.Win32.{Waited}
use libosal.Win32.Semaphore.{
  wait_retval, bool_retval, Patience, semaphore_init, binary_semaphore_init, semaphore_post,
  semaphore_trywait,
}

abbrev pub is_object : Waited → Bool
is_object Waited.object = true
is_object _ = false

abbrev pub is_true : Bool → Bool
is_true b = b

is_ok-bool_retval : (done : Bool) → is_ok (bool_retval done) ≡ is_true done
is_ok-bool_retval done = ground arith

is_ok-wait_retval : (w : Waited) → is_ok (wait_retval w) ≡ is_object w
is_ok-wait_retval w = ground arith

module _ {S : Type 0} (system : CountingContract is_true is_object S) where
  -- WaitForSingleObject, which is `trywait` without waiting.
  abbrev wait_for : (S → Waited × S) → Patience → S → Waited × S
  wait_for infinitely Patience.no_wait = system.trywait
  wait_for infinitely _ = infinitely

  module _ (infinitely : S → Waited × S) where
    pub win32_counting : CountingContract is_ok is_ok S
    unfolding semaphore_post semaphore_trywait
    win32_counting = record {
      count = system.count;
      limit = system.limit;
      post = semaphore_post system.post;
      trywait = semaphore_trywait (wait_for infinitely);
      bounded = system.bounded;
      post_answers = λ s. is_ok-bool_retval (system.post s).0 ∙ system.post_answers s;
      post_counts = system.post_counts;
      post_limit = system.post_limit;
      trywait_answers = λ s. is_ok-wait_retval (system.trywait s).0 ∙ system.trywait_answers s;
      trywait_counts = system.trywait_counts;
      trywait_limit = system.trywait_limit;
    }

    -- After any sequence of osal_semaphore_post and osal_semaphore_trywait on a new semaphore, the
    -- trywaits that returned OSAL_OK and what is left add up to the initial value and the posts that
    -- returned OSAL_OK, and what is left is at most 0x7FFFFFF. The system's semaphore counts, from
    -- and up to the values that CreateSemaphoreW is given.
    pub win32_semaphore_conserves :
        (create_semaphore : ℕ → ℕ → Option S) (initval : ℕ) (sem : S) (calls : List Call)
        → (semaphore_init create_semaphore initval).1 ≡ some sem
        → ((s : S) (i n : ℕ)
            → create_semaphore i n ≡ some s
            → (system.count s ≡ i) × (system.limit s ≡ n))
        → let outcome = run win32_counting calls sem in
          (outcome.taken + system.count outcome.left ≡ initval + outcome.posted)
          × (system.count outcome.left ≤ 0x7FFFFFF)
    unfolding semaphore_init win32_counting
    win32_semaphore_conserves create_semaphore initval sem calls made documented =
        let given = documented sem initval 0x7FFFFFF (ground (arith, made)) in
        let (sum, bound) = run-conserves win32_counting calls sem in (omega arith, omega arith)

    -- A trywait of a new binary semaphore returns OSAL_OK exactly where a post came after the last
    -- trywait, in any sequence of posts and trywaits, and so not more of them succeed than there
    -- are posts. The system's semaphore counts, from and up to the values that CreateSemaphoreW is
    -- given.
    pub win32_binary_refines :
        (create_semaphore : ℕ → ℕ → Option S) (sem : S) (calls : List Call)
        → (binary_semaphore_init create_semaphore).1 ≡ some sem
        → ((s : S) (i n : ℕ)
            → create_semaphore i n ≡ some s
            → (system.count s ≡ i) × (system.limit s ≡ n))
        → let oks = serve (binary_of_counting win32_counting) calls sem in
          (oks ≡ answers calls false) × (successes oks ≤ posts calls)
    unfolding binary_semaphore_init win32_counting
    win32_binary_refines create_semaphore sem calls made documented =
        let given = documented sem 0 1 (ground (arith, made)) in
        binary_of_counting-clear win32_counting calls sem given.1 given.0
