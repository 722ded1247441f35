-- ===== src/Posix/Mq/Tests.antt =====
-- Flags and calls of a message queue, and the theorems on them.
use libosal.Prelude.{ℕ, zero, suc, ◌/◌, ◌%◌, ◌<◌, ◌≤◌, ◌≡◌, refl, none, some, arith}
use libosal.Osal.{Retval, Errno}
use libosal.Timer.{Timer}
use libosal.Posix.Retry.{Answer}
use libosal.Posix.Mq.{
  OpenArgs, mq_oflags, open_args, mq_open, mq_close, mq_timedsend, mq_timedreceive,
}
use libosal.Posix.Mq.Laws.{mq_oflags_lem, timed_lem}

-- Read-write, created if it is missing.
abbrev args : OpenArgs
args = record { oflags = 66; mode = 432; mq_maxmsg = some 10; mq_msgsize = some 64 }

opens :
    open_args (some (record { oflags = 12; mode = 432; max_messages = 10; max_message_size = 64 }))
    ≡ args
unfolding open_args mq_oflags
opens = refl

missing : (mq_open (λ a. some Errno.enoent) none ≡ Retval.not_found) × (mq_close none ≡ Retval.ok)
unfolding mq_open mq_close
missing = (refl, refl)

mq_oflags_lem_test :
    (mq_oflags 44 % 2 ≡ 0)
    × (mq_oflags 44 / 2 % 2 ≡ 1)
    × (mq_oflags 44 / 64 % 2 ≡ 1)
    × (mq_oflags 44 / 128 % 2 ≡ 1)
    × (mq_oflags 44 / 4 % 16 ≡ 0)
    × (mq_oflags 44 < 256)
mq_oflags_lem_test = mq_oflags_lem 44

abbrev interrupted : ℕ → Timer → Answer
interrupted zero to = some Errno.eintr
interrupted (suc n) to = some Errno.etimedout

abbrev deadline : Timer
deadline = record { sec = 1; nsec = 0 }

interrupted_below_1 : (m : ℕ) → suc m ≤ 1 → interrupted m deadline ≡ some Errno.eintr
interrupted_below_1 zero h = refl
interrupted_below_1 (suc m) h = absurd (omega arith)

timed_lem_test :
    (mq_timedsend interrupted 2 deadline ≡ some Retval.timeout)
    × (mq_timedreceive interrupted 2 deadline ≡ some Retval.timeout)
timed_lem_test = timed_lem interrupted 2 1 deadline (omega arith) interrupted_below_1 (λ e. cc)
