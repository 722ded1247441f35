-- ===== src/Stm32/BinarySemaphore/Laws.antt =====
-- What the binary semaphore of this port promises, and where it does not.
use libosal.Prelude.{ℕ, ◌≤◌, ◌<◌, ◌≡◌, refl, not, Bool, true, false, List, ◌==◌, arith}
use libosal.Osal.{Retval, is_ok}
use libosal.Contract.Binary.{BinaryContract, Call, posts, successes, answers, serve, serve-clear}
use libosal.Stm32.BinarySemaphore.{
  binary_semaphore_init, binary_semaphore_post, binary_semaphore_trywait,
}

-- A value of which only the lowest byte is used.
abbrev pub Valid : ℕ → Type 0
Valid value = value < 256

abbrev is_set : ℕ → Bool
is_set value = not (value == 0)

binary_semaphore_post_lem :
    (value : ℕ)
    → Valid value
    → Valid (binary_semaphore_post value).1 × (is_set (binary_semaphore_post value).1 ≡ true)
unfolding binary_semaphore_post
binary_semaphore_post_lem value v = (omega arith, ground arith)

binary_semaphore_trywait_lem :
    (value : ℕ)
    → Valid (binary_semaphore_trywait value).1
      × (is_ok (binary_semaphore_trywait value).0 ≡ is_set value)
      × (is_set (binary_semaphore_trywait value).1 ≡ false)
unfolding binary_semaphore_trywait
binary_semaphore_trywait_lem value = (omega arith, ground arith, refl)

pub stm32_binary : BinaryContract ℕ Valid
stm32_binary = record {
  flag = is_set;
  post = binary_semaphore_post;
  trywait = binary_semaphore_trywait;
  post_valid = λ s v. (binary_semaphore_post_lem s v).0;
  post_sets = λ s v. (binary_semaphore_post_lem s v).1;
  trywait_valid = λ s v. (binary_semaphore_trywait_lem s).0;
  trywait_answers = λ s v. (binary_semaphore_trywait_lem s).1;
  trywait_takes = λ s v. (binary_semaphore_trywait_lem s).2;
}

-- In every sequence of posts and trywaits that the tasks and the interrupts make, in whatever order
-- they come, on a semaphore whose memory was below 256 when it was initialised, a trywait returns
-- OSAL_OK exactly where a post came after the last trywait, as for a flag that starts clear, and so
-- not more trywaits succeed than there are posts.
pub stm32_serve_refines :
    (calls : List Call) (memory : ℕ)
    → memory < 256
    → (serve stm32_binary calls (binary_semaphore_init memory).1 ≡ answers calls false)
      × (successes (serve stm32_binary calls (binary_semaphore_init memory).1) ≤ posts calls)
unfolding stm32_binary binary_semaphore_init
stm32_serve_refines calls memory h =
    let cleared : (binary_semaphore_init memory).1 ≡ 0 = omega arith in
    rw cleared (serve-clear stm32_binary calls 0 (omega arith) refl)

-- On memory of 256 or more osal_binary_semaphore_init leaves the semaphore set: a trywait succeeds
-- though nothing was posted.
pub init_leaves :
    (memory : ℕ)
    → 256 ≤ memory
    → (binary_semaphore_trywait (binary_semaphore_init memory).1).0 ≡ Retval.ok
unfolding binary_semaphore_init binary_semaphore_trywait
init_leaves memory h = ground arith
