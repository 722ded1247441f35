-- ===== src/Trace/Record.antt =====
-- Recording times: a trace against the list of the samples of the current block and the list of the
-- samples of the last block that was completed.
use libosal.Prelude.{
  ℕ, suc, ◌+◌, ◌^◌, ◌≤◌, ◌<◌, ◌≡◌, refl, some, List, [], ◌∷◌, ◌++◌, ◌==◌, if◌then◌else◌, arith,
  length, set, take, length-set, length-append, length-take, Option, ◌∙◌, ap, get_elem?-set_self,
}
use mathlib.Core.List.{append_assoc}
use libosal.Prelude.Memory.{◌>>=◌, take-set, take_all}
use libosal.Posix.BinarySemaphore.{binary_semaphore_post}
use libosal.Trace.{Trace, with_buffer, advance, trace_time, trace_get_last_time}

-- The buffer that is written to, and the other one.
abbrev pub active : Trace → List ℕ
active t = if t.act_buf == 0 then t.time_in_ns_0 else t.time_in_ns_1

abbrev pub inactive : Trace → List ℕ
inactive t = if t.act_buf == 0 then t.time_in_ns_1 else t.time_in_ns_0

pub record IsValid (t : Trace) : Type 0 where
  pub size_0 : length t.time_in_ns_0 ≡ t.cnt
  pub size_1 : length t.time_in_ns_1 ≡ t.cnt
  pub size_tmp : length t.tmp ≡ t.cnt
  pub two : t.act_buf ≤ 1
  pub in_range : t.pos < t.cnt
  pub small : t.cnt < 2 ^ 32
  pub binary : t.sync_sem ≤ 1

-- What a client sees of a trace.
pub record Log : Type 0 where
  pub finished : List ℕ
  pub current : List ℕ
  pub ready : ℕ

abbrev pub view : Trace → Log
view t = record { finished = inactive t; current = take t.pos (active t); ready = t.sync_sem }

-- One more sample, in blocks of `cnt`.
abbrev pub push : ℕ → Log → ℕ → Log
push cnt l time =
    if length l.current + 1 == cnt
    then record { finished = l.current ++ (time ∷ []); current = []; ready = 1 }
    else record l { current = l.current ++ (time ∷ []) }

length-active : {t : Trace} → IsValid t → length (active t) ≡ t.cnt
length-active v = ground arith

-- Where a sample goes, in either buffer.
abbrev pub written : Trace → ℕ → Trace
written t time = advance (with_buffer t t.act_buf (set (active t) t.pos time))

pub trace_time_lem : (t : Trace) (time : ℕ) → IsValid t → trace_time t time ≡ some (written t time)
unfolding trace_time
trace_time_lem t time v = ground arith

pub written-IsValid : (t : Trace) (time : ℕ) → IsValid t → IsValid (written t time)
unfolding binary_semaphore_post
written-IsValid t time v =
    ground (arith, length-set t.time_in_ns_0 t.pos time, length-set t.time_in_ns_1 t.pos time)

view-written : (t : Trace) (time : ℕ) → IsValid t → view (written t time) ≡ push t.cnt (view t) time
unfolding binary_semaphore_post
view-written t time v = ground (
  arith,
  take-set (active t) t.pos time,
  length-take t.pos (active t),
  length-set (active t) t.pos time,
  take_all (set (active t) t.pos time) (suc t.pos),
)

-- On a valid trace osal_trace_time writes in range and keeps the trace valid. To the client it adds
-- the sample to the current block; with its last sample the block becomes the finished one, a new
-- block is begun, and the semaphore is posted.
pub trace_time_refines :
    {t : Trace} (time : ℕ)
    → IsValid t
    → (t' : Trace) × (trace_time t time ≡ some t')
      × IsValid t'
      × (t'.cnt ≡ t.cnt)
      × (view t' ≡ push t.cnt (view t) time)
trace_time_refines {t} time v = (
  written t time,
  trace_time_lem t time v,
  written-IsValid t time v,
  ground arith,
  view-written t time v,
)

-- A sequence of samples.
unfoldable pub record_all : Trace → List ℕ → Option Trace
record_all t [] = some t
record_all t (time ∷ times) = trace_time t time >>= λ t'. record_all t' times

abbrev pub push_all : ℕ → Log → List ℕ → Log
push_all cnt l [] = l
push_all cnt l (time ∷ times) = push_all cnt (push cnt l time) times

record_all-push_all :
    (times : List ℕ) (cnt : ℕ) {t : Trace}
    → t.cnt ≡ cnt
    → IsValid t
    → (t' : Trace) × (record_all t times ≡ some t')
      × IsValid t'
      × (t'.cnt ≡ cnt)
      × (view t' ≡ push_all cnt (view t) times)
unfolding record_all
record_all-push_all [] cnt {t} c v = (t, refl, v, c, refl)
record_all-push_all (time ∷ times) cnt {t} c v =
    let (t₁, e₁, v₁, c₁, p₁) = trace_time_refines time v in
    let (t₂, e₂, v₂, c₂, p₂) = record_all-push_all times cnt (c₁ ∙ c) v₁ in
    let first : view t₁ ≡ push cnt (view t) time = p₁ ∙ ap (λ k. push k (view t) time) c in
    (t₂, rw (e₁, ◌>>=◌) e₂, v₂, c₂, p₂ ∙ ap (λ l. push_all cnt l times) first)

-- From a valid trace, osal_trace_time stores any sequence of samples without a fault, and leaves a
-- valid trace that the client sees as the log to which the samples were added one after the other.
pub record_all_refines :
    (times : List ℕ) {t : Trace}
    → IsValid t
    → (t' : Trace) × (record_all t times ≡ some t')
      × IsValid t'
      × (t'.cnt ≡ t.cnt)
      × (view t' ≡ push_all t.cnt (view t) times)
record_all_refines times {t} v = record_all-push_all times t.cnt refl v

-- The samples that complete a block make it, behind those that it had.
push_all-block :
    (times : List ℕ) (cnt : ℕ) (l : Log)
    → length l.current + length times ≡ cnt
    → 0 < length times
    → push_all cnt l times ≡ record { finished = l.current ++ times; current = []; ready = 1 }
push_all-block [] cnt l e h = elim h [ ]
push_all-block (time ∷ []) cnt l e h = ground arith
push_all-block (time ∷ next ∷ times) cnt l e h =
    let l' : Log = record l { current = l.current ++ (time ∷ []) } in
    let first : push cnt l time ≡ l' = ground arith in
    ap (λ k. push_all cnt k (next ∷ times)) first
    ∙ push_all-block (next ∷ times) cnt l' (omega (arith, length-append l.current (time ∷ [])))
        (omega arith)
    ∙ ap (λ block. record { finished = block; current = []; ready = 1 })
        (append_assoc l.current (time ∷ []) (next ∷ times))

-- From the start of a block, `cnt` samples are afterwards the inactive buffer, in order; the
-- semaphore is posted, and the trace is at the start of a block again.
pub block_lem :
    (times : List ℕ) {t : Trace}
    → IsValid t
    → t.pos ≡ 0
    → length times ≡ t.cnt
    → (t' : Trace) × (record_all t times ≡ some t')
      × IsValid t'
      × (t'.cnt ≡ t.cnt)
      × (inactive t' ≡ times)
      × (t'.sync_sem ≡ 1)
      × (t'.pos ≡ 0)
block_lem times {t} v start e =
    let (t', e', v', c', p) = record_all_refines times v in
    let empty : take t.pos (active t) ≡ [] = rw start in
    let block = push_all-block times t.cnt (view t) (rw empty (omega arith)) (omega arith) in
    (
      t',
      e',
      v',
      c',
      ap (λ l. l.finished) (p ∙ block) ∙ ap (λ c. c ++ times) empty,
      ap (λ l. l.ready) (p ∙ block),
      omega (
        arith,
        length-take t'.pos (active t'),
        ap (λ l. length l.current) (p ∙ block),
        length-active v',
      ),
    )

get_last_time-written :
    (t : Trace) (time : ℕ) → IsValid t → trace_get_last_time (written t time) ≡ some time
unfolding trace_get_last_time
get_last_time-written t time v = ground (arith, get_elem?-set_self (active t) t.pos time)

-- On a valid trace, the time that osal_trace_time has stored last is what osal_trace_get_last_time
-- returns, at the start of a block too.
pub get_last_time-trace_time :
    {t t' : Trace} (time : ℕ)
    → IsValid t
    → trace_time t time ≡ some t'
    → trace_get_last_time t' ≡ some time
get_last_time-trace_time {t} {t'} time v e =
    let same : written t time ≡ t' = ground (arith, trace_time_lem t time v) in
    rw same at (get_last_time-written t time v)
