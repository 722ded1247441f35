-- ===== src/Posix/Mq.antt =====
-- Message queues of the POSIX port (src/posix/mq.c): the flags that osal_mq_open hands to mq_open,
-- the codes for the error numbers, and the calls with a timeout, which are made again when they are
-- interrupted. The queue itself is the system's.
pub mod Laws
mod Tests
use libosal.Prelude.{ℕ, ◌+◌, ◌/◌, ◌%◌, Option, none, some, ◌==◌, if◌then◌else◌}
use libosal.Osal.{Retval, Errno}
use libosal.Timer.{Timer}
use libosal.Posix.Retry.{Answer, retry}

-- `osal_mq_attr_t`
pub record MqAttr : Type 0 where
  pub oflags : ℕ
  pub mode : ℕ
  pub max_messages : ℕ
  pub max_message_size : ℕ

-- What mq_open is called with: `none` in place of an attribute that is not initialised.
pub record OpenArgs : Type 0 where
  pub oflags : ℕ
  pub mode : ℕ
  pub mq_maxmsg : Option ℕ
  pub mq_msgsize : Option ℕ

-- `if (oflags & flag) { result |= value; }`, for a flag of one bit and a value that no other flag
-- has.
abbrev pub when : ℕ → ℕ → ℕ → ℕ
when oflags flag value = if oflags / flag % 2 == 1 then value else 0

-- The flags O_RDONLY, O_WRONLY, O_RDWR, O_CREAT and O_EXCL of Linux for those of the library.
pub mq_oflags : ℕ → ℕ
mq_oflags oflags =
    when oflags 1 0 + when oflags 2 1 + when oflags 4 2 + when oflags 8 64 + when oflags 32 128

-- The arguments for the attributes of osal_mq_open, `none` being NULL.
pub open_args : Option MqAttr → OpenArgs
open_args none = record { oflags = 0; mode = 0; mq_maxmsg = none; mq_msgsize = none }
open_args (some attr) = record {
  oflags = mq_oflags attr.oflags;
  mode = attr.mode;
  mq_maxmsg = some attr.max_messages;
  mq_msgsize = some attr.max_message_size;
}

abbrev pub open_retval : Answer → Retval
open_retval none = Retval.ok
open_retval (some Errno.eacces) = Retval.permission_denied
open_retval (some Errno.eexist) = Retval.permission_denied
open_retval (some Errno.einval) = Retval.invalid_param
open_retval (some Errno.emfile) = Retval.system_limit_reached
open_retval (some Errno.enametoolong) = Retval.invalid_param
open_retval (some Errno.enfile) = Retval.system_limit_reached
open_retval (some Errno.enoent) = Retval.not_found
open_retval (some Errno.enomem) = Retval.out_of_memory
open_retval (some Errno.enospc) = Retval.out_of_memory
open_retval (some _) = Retval.operation_failed

-- osal_mq_open
pub mq_open : (OpenArgs → Answer) → Option MqAttr → Retval
mq_open system attr = open_retval (system (open_args attr))

-- osal_mq_send, for the answer of mq_send.
pub mq_send : Answer → Retval
mq_send none = Retval.ok
mq_send (some Errno.eagain) = Retval.busy
mq_send (some Errno.ebadf) = Retval.invalid_param
mq_send (some Errno.eintr) = Retval.interrupted
mq_send (some Errno.einval) = Retval.invalid_param
mq_send (some Errno.emsgsize) = Retval.invalid_param
mq_send (some _) = Retval.operation_failed

-- The code that the loop of osal_mq_timedsend sets.
abbrev pub timedsend_retval : Answer → Retval
timedsend_retval none = Retval.ok
timedsend_retval (some Errno.eagain) = Retval.busy
timedsend_retval (some Errno.ebadf) = Retval.invalid_param
timedsend_retval (some Errno.eintr) = Retval.interrupted
timedsend_retval (some Errno.einval) = Retval.invalid_param
timedsend_retval (some Errno.emsgsize) = Retval.invalid_param
timedsend_retval (some Errno.etimedout) = Retval.timeout
timedsend_retval (some _) = Retval.operation_failed

-- osal_mq_timedsend, over mq_timedsend at its n-th call and the timeout. Only EINTR gives the code
-- on which the loop goes on.
pub mq_timedsend : (ℕ → Timer → Answer) → ℕ → Timer → Option Retval
mq_timedsend timedsend fuel to = retry (λ n. timedsend n to) timedsend_retval fuel

-- osal_mq_receive, for the answer of mq_receive.
pub mq_receive : Answer → Retval
mq_receive none = Retval.ok
mq_receive (some Errno.eagain) = Retval.busy
mq_receive (some Errno.ebadf) = Retval.invalid_param
mq_receive (some Errno.eintr) = Retval.interrupted
mq_receive (some Errno.einval) = Retval.invalid_param
mq_receive (some Errno.emsgsize) = Retval.invalid_param
mq_receive (some _) = Retval.operation_failed

-- The code that the loop of osal_mq_timedreceive sets.
abbrev pub timedreceive_retval : Answer → Retval
timedreceive_retval none = Retval.ok
timedreceive_retval (some Errno.eagain) = Retval.busy
timedreceive_retval (some Errno.ebadf) = Retval.invalid_param
timedreceive_retval (some Errno.eintr) = Retval.interrupted
timedreceive_retval (some Errno.einval) = Retval.invalid_param
timedreceive_retval (some Errno.emsgsize) = Retval.invalid_param
timedreceive_retval (some Errno.etimedout) = Retval.timeout
timedreceive_retval (some _) = Retval.operation_failed

-- osal_mq_timedreceive
pub mq_timedreceive : (ℕ → Timer → Answer) → ℕ → Timer → Option Retval
mq_timedreceive timedreceive fuel to = retry (λ n. timedreceive n to) timedreceive_retval fuel

-- osal_mq_close
pub mq_close : Answer → Retval
mq_close none = Retval.ok
mq_close (some _) = Retval.invalid_param
