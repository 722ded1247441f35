-- ===== src/Posix/Mq/Laws.antt =====
-- The flags that reach mq_open, and the codes of the calls with a timeout.
use libosal.Prelude.{
  ℕ, ◌/◌, ◌%◌, ◌<◌, ◌≡◌, ◌≢◌, some, arith, Bool, true, false, ap, ◌∙◌, if◌then◌else◌,
}
use libosal.Osal.{Retval, Errno}
use libosal.Timer.{Timer}
use libosal.Posix.Retry.{Answer, retry_lem}
use libosal.Posix.Mq.{
  mq_oflags, mq_send, mq_receive, timedsend_retval, timedreceive_retval, mq_timedsend,
  mq_timedreceive,
}

-- In the flags for mq_open, O_WRONLY, O_RDWR, O_CREAT and O_EXCL are set exactly where the flag of
-- that name is set in the attributes, and no other bit is.
pub mq_oflags_lem :
    (oflags : ℕ)
    → (mq_oflags oflags % 2 ≡ oflags / 2 % 2)
      × (mq_oflags oflags / 2 % 2 ≡ oflags / 4 % 2)
      × (mq_oflags oflags / 64 % 2 ≡ oflags / 8 % 2)
      × (mq_oflags oflags / 128 % 2 ≡ oflags / 32 % 2)
      × (mq_oflags oflags / 4 % 16 ≡ 0)
      × (mq_oflags oflags < 256)
unfolding mq_oflags
mq_oflags_lem oflags = ground arith

abbrev pub timed_out : Answer → Bool
timed_out (some Errno.etimedout) = true
timed_out _ = false

sent_lem :
    (answer : Answer)
    → timedsend_retval answer ≡ (if timed_out answer then Retval.timeout else mq_send answer)
unfolding mq_send
sent_lem answer = ground arith

received_lem :
    (answer : Answer)
    → timedreceive_retval answer ≡ (if timed_out answer then Retval.timeout else mq_receive answer)
unfolding mq_receive
received_lem answer = ground arith

-- osal_mq_timedsend and osal_mq_timedreceive make their call again as long as it is interrupted.
-- They return the code of the first other answer: OSAL_ERR_TIMEOUT for ETIMEDOUT, and otherwise
-- the code that osal_mq_send and osal_mq_receive have for it.
pub timed_lem :
    (call : ℕ → Timer → Answer) (fuel n : ℕ) (to : Timer)
    → n < fuel
    → ((m : ℕ) → m < n → call m to ≡ some Errno.eintr)
    → call n to ≢ some Errno.eintr
    → (mq_timedsend call fuel to
        ≡ some (if timed_out (call n to) then Retval.timeout else mq_send (call n to)))
      × (mq_timedreceive call fuel to
          ≡ some (if timed_out (call n to) then Retval.timeout else mq_receive (call n to)))
unfolding mq_timedsend mq_timedreceive
timed_lem call fuel n to h go stop =
    let sent = retry_lem (λ m. call m to) timedsend_retval fuel n h go stop in
    let received = retry_lem (λ m. call m to) timedreceive_retval fuel n h go stop in
    (sent ∙ ap some (sent_lem (call n to)), received ∙ ap some (received_lem (call n to)))
