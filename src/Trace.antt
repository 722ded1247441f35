-- ===== src/Trace.antt =====
-- The double-buffered trace of times (src/trace.c, include/libosal/trace.h). The struct is a record
-- whose three arrays are lists; a function that writes to it returns the new one, and `none` is a
-- fault: an access out of an array's range or through a null pointer.
pub mod Record
pub mod Alloc
pub mod Analyze
pub mod Overrun
mod Tests
use libosal.Prelude.{
  ℕ, zero, suc, ◌+◌, ◌-◌, ◌^◌, Bool, true, false, ◌&&◌, Option, none, some, List, leb, ◌==◌,
  if◌then◌else◌, get_elem?, replicate,
}
use libosal.Prelude.Word.{u32}
use libosal.Prelude.Memory.{◌>>=◌, store}
use libosal.Osal.{Retval}
use libosal.Posix.BinarySemaphore.{binary_semaphore_post}
use libosal.Timer.{Timer}
use libosal.Posix.Clock.{Clock, timer_gettime_nsec}

-- `osal_trace_t`, with the value of `sync_sem` and the two arrays of `time_in_ns`.
pub record Trace : Type 0 where
  pub cnt : ℕ
  pub act_buf : ℕ
  pub pos : ℕ
  pub sync_sem : ℕ
  pub time_in_ns_0 : List ℕ
  pub time_in_ns_1 : List ℕ
  pub tmp : List ℕ

-- `trace->time_in_ns[buf]`
abbrev pub buffer : Trace → ℕ → Option (List ℕ)
buffer t buf =
    if buf == 0 then some t.time_in_ns_0 else if buf == 1 then some t.time_in_ns_1 else none

-- `trace->time_in_ns[buf]` with other contents, for one of the two buffers.
abbrev pub with_buffer : Trace → ℕ → List ℕ → Trace
with_buffer t buf xs =
    if buf == 0 then record t { time_in_ns_0 = xs } else record t { time_in_ns_1 = xs }

-- The other of the two buffers: `act_buf == 0 ? 1 : 0`.
abbrev other_buf : ℕ → ℕ
other_buf buf = if buf == 0 then 1 else 0

-- The trace that osal_trace_alloc sets up.
abbrev pub fresh : ℕ → Trace
fresh cnt = record {
  cnt = cnt;
  act_buf = 0;
  pos = 0;
  sync_sem = 0;
  time_in_ns_0 = replicate cnt 0;
  time_in_ns_1 = replicate cnt 0;
  tmp = replicate cnt 0;
}

-- The end of osal_trace_time: step the position, and at the end of the buffer swap and post.
abbrev pub advance : Trace → Trace
advance t =
    let pos = u32 (t.pos + 1) in
    if leb t.cnt pos
    then record t {
      act_buf = other_buf t.act_buf;
      pos = 0;
      sync_sem = binary_semaphore_post t.sync_sem;
    }
    else record t { pos = pos }

-- osal_trace_time
pub trace_time : Trace → ℕ → Option Trace
trace_time t time = do
  buf ← buffer t t.act_buf
  written ← store buf t.pos time
  some (advance (with_buffer t t.act_buf written))

-- osal_trace_point, with the clock and the clock source of the timer.
pub trace_point : Clock → ℕ → Trace → Option (ℕ × Trace)
trace_point clock global_clock_id t =
    let ret_time = timer_gettime_nsec clock global_clock_id in
    do t' ← trace_time t ret_time; some (ret_time, t')

-- osal_trace_get_last_time
pub trace_get_last_time : Trace → Option ℕ
trace_get_last_time t =
    if t.pos == 0
    then (do buf ← buffer t (other_buf t.act_buf); get_elem? buf (u32 (t.cnt + 2 ^ 32 - 1)))
    else (do buf ← buffer t t.act_buf; get_elem? buf (t.pos - 1))

-- osal_trace_timedwait, over what osal_binary_semaphore_timedwait does with the value.
pub trace_timedwait : (ℕ → Option Timer → Retval × ℕ) → Trace → Option Timer → Retval × Trace
trace_timedwait timedwait t timeout =
    let (ret, value) = timedwait t.sync_sem timeout in (ret, record t { sync_sem = value })
