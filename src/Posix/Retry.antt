-- ===== src/Posix/Retry.antt =====
-- Calls of the system that are made again as long as a signal interrupts them (EINTR), as in
-- src/posix/semaphore.c and src/posix/mq.c. A call answers with success, here `none`, or with an
-- error number.
use mathlib.Core.Option
use libosal.Prelude.{ℕ, ◌<◌, ◌≡◌, ◌≢◌, Bool, true, false, Option, some, arith}
use libosal.Prelude.Loop.{until, until-first}
use libosal.Osal.{Retval, Errno}

abbrev pub Answer : Type 0
Answer = Option Errno

-- The test of the loops, negated.
abbrev not_interrupted : Answer → Bool
not_interrupted (some Errno.eintr) = false
not_interrupted _ = true

-- The loop over the answers of the n-th call, with the code for the last answer.
unfoldable pub retry : (ℕ → Answer) → (Answer → Retval) → ℕ → Option Retval
retry call retval fuel =
    Option.map (λ n. retval (call n)) (until fuel (λ n. not_interrupted (call n)) 0)

not_interrupted_lem : (answer : Answer) → answer ≢ some Errno.eintr → not_interrupted answer ≡ true
not_interrupted_lem answer h = ground arith

-- The code is that of the first answer that is no interruption.
pub retry_lem :
    (call : ℕ → Answer) (retval : Answer → Retval) (fuel n : ℕ)
    → n < fuel
    → ((m : ℕ) → m < n → call m ≡ some Errno.eintr)
    → call n ≢ some Errno.eintr
    → retry call retval fuel ≡ some (retval (call n))
unfolding retry
retry_lem call retval fuel n h go stop =
    let first =
      until-first fuel (λ m. not_interrupted (call m)) 0 n h (λ m p. ground (arith, go m p))
        (ground (arith, not_interrupted_lem (call n))) in
    ground (arith, first)
