-- ===== src/Posix/Condvar/Tests.antt =====
-- Waits on a condition variable, and the theorems on them.
use libosal.Prelude.{ℕ, zero, suc, ◌≤◌, ◌≡◌, refl, none, some, arith, inl, inr}
use libosal.Osal.{Retval, Errno}
use libosal.Timer.{Timer}
use libosal.Posix.Retry.{Answer}
use libosal.Posix.Condvar.{
  condvar_init, condvar_signal, condvar_broadcast, condvar_wait, condvar_destroy, condvar_timedwait,
}
use libosal.Posix.Condvar.Laws.{Ends, condvar_timedwait_lem, condvar_timedwait-never}

-- No clock but CLOCK_REALTIME and CLOCK_MONOTONIC.
abbrev two_clocks : ℕ → Answer
two_clocks zero = none
two_clocks (suc zero) = none
two_clocks (suc (suc id)) = some Errno.einval

inits :
    (condvar_init none two_clocks none 1 ≡ Retval.ok)
    × (condvar_init none two_clocks none 2 ≡ Retval.invalid_param)
    × (condvar_init none two_clocks (some Errno.eagain) 0 ≡ Retval.unavailable)
    × (condvar_init (some Errno.enomem) two_clocks none 0 ≡ Retval.out_of_memory)
unfolding condvar_init
inits = (refl, refl, refl, refl)

abbrev deadline : Timer
deadline = record { sec = 5; nsec = 0 }

-- The caller does not own the mutex at first, then it is signalled.
abbrev signalled : ℕ → Timer → Answer
signalled zero to = some Errno.eperm
signalled (suc n) to = none

eperm_goes_on : (m : ℕ) → suc m ≤ 1 → ¬ Ends (signalled m deadline)
eperm_goes_on zero h (inl e) = cc
eperm_goes_on zero h (inr e) = cc
eperm_goes_on (suc m) h e = absurd (omega arith)

condvar_timedwait_lem_test : condvar_timedwait signalled 2 deadline ≡ some Retval.permission_denied
condvar_timedwait_lem_test =
    condvar_timedwait_lem signalled 2 1 deadline (omega arith) eperm_goes_on (inl refl)

abbrev refuses : ℕ → Timer → Answer
refuses n to = some Errno.einval

condvar_timedwait-never_test :
    condvar_timedwait refuses 1000 (record { sec = 5; nsec = 1_000_000_000 }) ≡ none
condvar_timedwait-never_test =
    condvar_timedwait-never refuses 1000 (record { sec = 5; nsec = 1_000_000_000 }) (λ m. refl)

codes :
    (condvar_signal none ≡ Retval.ok)
    × (condvar_broadcast (some Errno.einval) ≡ Retval.invalid_param)
    × (condvar_wait (some Errno.eperm) ≡ Retval.ok)
    × (condvar_destroy (some Errno.ebusy) ≡ Retval.busy)
unfolding condvar_signal condvar_broadcast condvar_wait condvar_destroy
codes = (refl, refl, refl, refl)
