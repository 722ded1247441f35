-- ===== src/Trace/Tests.antt =====
-- Runs of a trace of three samples, and the theorems on it.
use libosal.Prelude.{◌≡◌, refl, true, false, none, some, Option, [], ◌∷◌, arith}
use libosal.Osal.{Retval}
use libosal.Posix.BinarySemaphore.{binary_semaphore_post}
use libosal.Posix.Clock.{timer_gettime_nsec}
use libosal.Trace.{
  Trace, buffer, fresh, trace_timedwait, trace_time, trace_point, trace_get_last_time,
}
use libosal.Trace.Alloc.{AllocAnswers, Blocks, nothing, trace_free, trace_alloc}
use libosal.Trace.Alloc.Laws.{Outcome, trace_alloc_lem}
use libosal.Trace.Record.{
  IsValid, view, push, push_all, record_all, inactive, trace_time_refines, record_all_refines,
  block_lem, get_last_time-trace_time,
}
use libosal.Trace.Overrun.{stable_block, overrun_lem}

abbrev granted : AllocAnswers
granted = record {
  trace_ok = true;
  sem_ret = Retval.ok;
  time_0_ok = true;
  time_1_ok = true;
  tmp_ok = true;
}

abbrev granted_blocks : Blocks
granted_blocks = record { trace = true; time_0 = true; time_1 = true; tmp = true }

allocates : trace_alloc granted 3 ≡ some (Retval.ok, some (fresh 3), granted_blocks)
unfolding trace_alloc
allocates = refl

buffer_refused :
    trace_alloc (record granted { time_1_ok = false }) 3
    ≡ some (Retval.out_of_memory, none, nothing)
unfolding trace_alloc trace_free
buffer_refused = refl

struct_refused : trace_alloc (record granted { trace_ok = false }) 3 ≡ none
unfolding trace_alloc
struct_refused = refl

-- The second buffer is written to, and holds one sample.
abbrev pub running : Trace
running = record {
  cnt = 3;
  act_buf = 1;
  pos = 1;
  sync_sem = 1;
  time_in_ns_0 = 10 ∷ 14 ∷ 20 ∷ [];
  time_in_ns_1 = 33 ∷ 0 ∷ 0 ∷ [];
  tmp = 0 ∷ 0 ∷ 0 ∷ [];
}

pub running-IsValid : IsValid running
running-IsValid = omega arith

pub fresh-IsValid : IsValid (fresh 3)
fresh-IsValid = omega arith

swaps :
    record_all running (34 ∷ 35 ∷ [])
    ≡ some (record running { act_buf = 0; pos = 0; time_in_ns_1 = 33 ∷ 34 ∷ 35 ∷ [] })
unfolding record_all trace_time binary_semaphore_post
swaps = refl

points :
    trace_point (λ id. record { failed = false; tv_sec = 1; tv_nsec = 5 }) 0 running
    ≡ some (1_000_000_005, record running { pos = 2; time_in_ns_1 = 33 ∷ 1_000_000_005 ∷ 0 ∷ [] })
unfolding trace_point trace_time timer_gettime_nsec
points = refl

-- Without room for a sample the first write is out of range.
no_room : trace_time (fresh 0) 7 ≡ none
unfolding trace_time
no_room = refl

trace_alloc_lem_example :
    (ret : Retval) × (t : Option Trace) × (held : Blocks) × (trace_alloc
        (record granted { tmp_ok = false })
        3
      ≡ some (ret, t, held))
    × Outcome 3 ret t held
trace_alloc_lem_example =
    trace_alloc_lem (record granted { tmp_ok = false }) 3 (omega arith) (omega arith) refl

-- A block is ready, and osal_trace_timedwait takes the post.
takes_post :
    trace_timedwait (λ value timeout. (Retval.ok, 0)) (record (fresh 3) { sync_sem = 1 }) none
    ≡ (Retval.ok, fresh 3)
unfolding trace_timedwait
takes_post = refl

trace_time_refines_example :
    (t' : Trace) × (trace_time running 34 ≡ some t')
    × IsValid t'
    × (t'.cnt ≡ 3)
    × (view t' ≡ push 3 (view running) 34)
trace_time_refines_example = trace_time_refines 34 running-IsValid

record_all_refines_test :
    (t' : Trace) × (record_all running (34 ∷ 35 ∷ 36 ∷ []) ≡ some t')
    × IsValid t'
    × (t'.cnt ≡ 3)
    × (view t' ≡ push_all 3 (view running) (34 ∷ 35 ∷ 36 ∷ []))
record_all_refines_test = record_all_refines (34 ∷ 35 ∷ 36 ∷ []) running-IsValid

block_lem_test :
    (t' : Trace) × (record_all (fresh 3) (7 ∷ 8 ∷ 9 ∷ []) ≡ some t')
    × IsValid t'
    × (t'.cnt ≡ 3)
    × (inactive t' ≡ 7 ∷ 8 ∷ 9 ∷ [])
    × (t'.sync_sem ≡ 1)
    × (t'.pos ≡ 0)
block_lem_test = block_lem (7 ∷ 8 ∷ 9 ∷ []) fresh-IsValid refl refl

stores : trace_time running 34 ≡ some (record running { pos = 2; time_in_ns_1 = 33 ∷ 34 ∷ 0 ∷ [] })
unfolding trace_time
stores = refl

get_last_time-trace_time_test :
    trace_get_last_time (record running { pos = 2; time_in_ns_1 = 33 ∷ 34 ∷ 0 ∷ [] }) ≡ some 34
get_last_time-trace_time_test = get_last_time-trace_time 34 running-IsValid stores

stable_block_example :
    (t' : Trace) × (record_all running (34 ∷ 35 ∷ []) ≡ some t')
    × (buffer t' 0 ≡ some (10 ∷ 14 ∷ 20 ∷ []))
stable_block_example = stable_block (34 ∷ 35 ∷ []) running running-IsValid (omega arith)

overrun_lem_example :
    (t₁ t₂ : Trace) × (record_all running (34 ∷ 35 ∷ []) ≡ some t₁)
    × (trace_time t₁ 36 ≡ some t₂)
    × (buffer t₂ 0 ≡ some (36 ∷ 14 ∷ 20 ∷ []))
overrun_lem_example = overrun_lem (34 ∷ 35 ∷ []) 36 running running-IsValid refl
