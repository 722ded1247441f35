-- ===== src/Posix/Condvar/Laws.antt =====
-- When osal_condvar_timedwait returns, and with which code.
use libosal.Prelude.{
  ℕ, zero, suc, ◌+◌, ◌<◌, ◌≡◌, refl, none, some, arith, ◌⊎◌, inl, inr, ap, ◌∙◌, subst,
}
use libosal.Osal.{Retval, Errno}
use libosal.Timer.{Timer}
use libosal.Posix.Retry.{Answer}
use libosal.Posix.Condvar.{timedwait_loop, condvar_timedwait}

-- The value of `ret` after an answer, and after the `n` answers from the i-th on.
abbrev noted : Answer → Retval → Retval
noted (some Errno.einval) ret = Retval.invalid_param
noted (some Errno.eperm) ret = Retval.permission_denied
noted _ ret = ret

abbrev noted_all : (ℕ → Answer) → ℕ → ℕ → Retval → Retval
noted_all answers i zero ret = ret
noted_all answers i (suc n) ret = noted_all answers (i + 1) n (noted (answers i) ret)

-- What the loop returns on an answer that ends it.
abbrev last_retval : Answer → Retval → Retval
last_retval none ret = ret
last_retval (some _) ret = Retval.timeout

-- An answer that ends the loop.
abbrev pub Ends : Answer → Type 0
Ends answer = (answer ≡ none) ⊎ (answer ≡ some Errno.etimedout)

ends_lem :
    (answers : ℕ → Answer) (f i : ℕ) (ret : Retval)
    → Ends (answers i)
    → timedwait_loop answers (suc f) i ret ≡ some (last_retval (answers i) ret)
unfolding timedwait_loop
ends_lem answers f i ret (inl e) = ground (arith, e)
ends_lem answers f i ret (inr e) = ground (arith, e)

goes_on_lem :
    (answers : ℕ → Answer) (f i : ℕ) (ret : Retval)
    → ¬ Ends (answers i)
    → timedwait_loop answers (suc f) i ret
      ≡ timedwait_loop answers f (i + 1) (noted (answers i) ret)
unfolding timedwait_loop
goes_on_lem answers f i ret h = ground arith

-- The loop of osal_condvar_timedwait ends at the first answer that is 0 or ETIMEDOUT.
loop_lem :
    (answers : ℕ → Answer) (fuel i n : ℕ) (ret : Retval)
    → n < fuel
    → ((m : ℕ) → m < n → ¬ Ends (answers (i + m)))
    → Ends (answers (i + n))
    → timedwait_loop answers fuel i ret
      ≡ some (last_retval (answers (i + n)) (noted_all answers i n ret))
loop_lem answers zero i n ret h go stop = elim h [ ]
loop_lem answers (suc fuel) i zero ret h go stop =
    ends_lem answers fuel i ret (subst (λ k. Ends (answers k)) (omega arith) stop)
    ∙ ap (λ k. some (last_retval (answers k) ret)) (omega arith)
loop_lem answers (suc fuel) i (suc n) ret h go stop =
    let first : ¬ Ends (answers i) =
      subst (λ k. ¬ Ends (answers k)) (omega arith) (go 0 (omega arith)) in
    let rest =
      loop_lem answers fuel (i + 1) n (noted (answers i) ret) (omega arith)
        (λ m p. subst (λ k. ¬ Ends (answers k)) (omega arith) (go (suc m) (omega arith)))
        (subst (λ k. Ends (answers k)) (omega arith) stop) in
    goes_on_lem answers fuel i ret first
    ∙ rest
    ∙ ap (λ k. some (last_retval (answers k) (noted_all answers i (suc n) ret))) (omega arith)

-- osal_condvar_timedwait calls pthread_cond_timedwait until it answers 0 or ETIMEDOUT. With
-- ETIMEDOUT it returns OSAL_ERR_TIMEOUT; with 0 it returns OSAL_OK unless one of the answers before
-- was EINVAL or EPERM, of which the last one gives the code.
pub condvar_timedwait_lem :
    (cond_timedwait : ℕ → Timer → Answer) (fuel n : ℕ) (to : Timer)
    → n < fuel
    → ((m : ℕ) → m < n → ¬ Ends (cond_timedwait m to))
    → Ends (cond_timedwait n to)
    → condvar_timedwait cond_timedwait fuel to
      ≡ some
          (last_retval (cond_timedwait n to) (noted_all (λ m. cond_timedwait m to) 0 n Retval.ok))
unfolding condvar_timedwait
condvar_timedwait_lem cond_timedwait fuel n to h go stop =
    loop_lem (λ m. cond_timedwait m to) fuel 0 n Retval.ok h
      (λ m p. subst (λ k. ¬ Ends (cond_timedwait k to)) (omega arith) (go m p))
      (subst (λ k. Ends (cond_timedwait k to)) (omega arith) stop)
    ∙ ap
        (λ k.
          some (
            last_retval (cond_timedwait k to) (noted_all (λ m. cond_timedwait m to) 0 n Retval.ok)))
        (omega arith)

loop_never :
    (answers : ℕ → Answer) (fuel i : ℕ) (ret : Retval)
    → ((m : ℕ) → ¬ Ends (answers m))
    → timedwait_loop answers fuel i ret ≡ none
unfolding timedwait_loop
loop_never answers zero i ret go = refl
loop_never answers (suc fuel) i ret go =
    goes_on_lem answers fuel i ret (go i)
    ∙ loop_never answers fuel (i + 1) (noted (answers i) ret) go

-- Where pthread_cond_timedwait refuses the deadline, with EINVAL at every call,
-- osal_condvar_timedwait does not return OSAL_ERR_INVALID_PARAM but calls it for ever, whatever the
-- fuel.
pub condvar_timedwait-never :
    (cond_timedwait : ℕ → Timer → Answer) (fuel : ℕ) (to : Timer)
    → ((m : ℕ) → cond_timedwait m to ≡ some Errno.einval)
    → condvar_timedwait cond_timedwait fuel to ≡ none
unfolding condvar_timedwait
condvar_timedwait-never cond_timedwait fuel to refused =
    loop_never (λ m. cond_timedwait m to) fuel 0 Retval.ok (λ m e. ground (arith, refused m, e))
