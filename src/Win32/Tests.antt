-- ===== src/Win32/Tests.antt =====
-- Runs of the port, and its theorems on them.
use libosal.Prelude.{
  ℕ, ◌+◌, ◌≤◌, ◌≡◌, refl, true, false, Option, none, some, List, [], ◌∷◌, leb, if◌then◌else◌, arith,
}
use libosal.Contract.Binary.{Call, posts, successes, answers, serve}
use libosal.Contract.Counting.{CountingContract, run, binary_of_counting}
use libosal.Contract.Samples.{Sample, held_count, sample_contract}
use libosal.Win32.{Waited}
use libosal.Win32.Semaphore.{semaphore_init, binary_semaphore_init}
use libosal.Win32.Semaphore.Laws.{
  is_object, is_true, win32_counting, win32_semaphore_conserves, win32_binary_refines,
}

abbrev system : CountingContract is_true is_object Sample
system =
    sample_contract is_true is_object true false Waited.object Waited.timeout refl refl refl refl

abbrev create_semaphore : ℕ → ℕ → Option Sample
create_semaphore i n = if leb i n then some (record { held = i; largest = n }) else none

create_semaphore_lem :
    (s : Sample) (i n : ℕ) → create_semaphore i n ≡ some s → (held_count s ≡ i) × (s.largest ≡ n)
create_semaphore_lem s i n e = ground arith

abbrev calls : List Call
calls = Call.trywait ∷ Call.post ∷ Call.trywait ∷ Call.trywait ∷ Call.trywait ∷ []

-- WaitForSingleObject with INFINITE, which is not called.
abbrev infinitely : Sample → Waited × Sample
infinitely s = (Waited.failed, s)

abbrev two : Sample
two = record { held = 2; largest = 0x7FFFFFF }

win32_semaphore_conserves_example :
    let outcome = run (win32_counting system infinitely) calls two in
    (outcome.taken + held_count outcome.left ≡ 2 + outcome.posted)
    × (held_count outcome.left ≤ 0x7FFFFFF)
unfolding semaphore_init
win32_semaphore_conserves_example =
    win32_semaphore_conserves system infinitely create_semaphore 2 two calls refl
      create_semaphore_lem

abbrev clear : Sample
clear = record { held = 0; largest = 1 }

win32_binary_refines_test :
    let oks = serve (binary_of_counting (win32_counting system infinitely)) calls clear in
    (oks ≡ answers calls false) × (successes oks ≤ posts calls)
unfolding binary_semaphore_init
win32_binary_refines_test =
    win32_binary_refines system infinitely create_semaphore clear calls refl create_semaphore_lem
