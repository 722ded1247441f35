-- ===== src/Trace/Alloc.antt =====
-- The memory of a trace (src/trace.c): osal_trace_alloc and osal_trace_free. Each of the four blocks
-- is allocated or not; freeing one that is not is a fault, as is a write through a null pointer.
pub mod Laws
use libosal.Prelude.{ℕ, Bool, true, false, ◌&&◌, Option, none, some, if◌then◌else◌}
use libosal.Prelude.Memory.{◌>>=◌}
use libosal.Osal.{Retval}
use libosal.Trace.{Trace, fresh}

-- What the calls of malloc and of osal_binary_semaphore_init in osal_trace_alloc return.
pub record AllocAnswers : Type 0 where
  pub trace_ok : Bool
  pub sem_ret : Retval
  pub time_0_ok : Bool
  pub time_1_ok : Bool
  pub tmp_ok : Bool

-- For each block whether it is allocated, or for each pointer whether it is not NULL.
pub record Blocks : Type 0 where
  pub trace : Bool
  pub time_0 : Bool
  pub time_1 : Bool
  pub tmp : Bool

abbrev pub nothing : Blocks
nothing = record { trace = false; time_0 = false; time_1 = false; tmp = false }

-- `free(p)`, for a pointer that is not NULL and its block.
abbrev pub free : Bool → Option Bool
free allocated = if allocated then some false else none

-- `if (p != 0) { free(p); }`
abbrev free_if : Bool → Bool → Option Bool
free_if pointer allocated = if pointer then free allocated else some allocated

-- osal_trace_free, which is also what follows `error_exit`, for the pointers of the struct and the
-- blocks that are allocated.
unfoldable pub trace_free : Blocks → Blocks → Option Blocks
trace_free pointers held = do
  tmp ← free_if pointers.tmp held.tmp
  time_1 ← free_if pointers.time_1 held.time_1
  time_0 ← free_if pointers.time_0 held.time_0
  trace ← free held.trace
  some (record { trace = trace; time_0 = time_0; time_1 = time_1; tmp = tmp })

-- The struct alone, before the other calls of malloc.
abbrev pub struct_only : Blocks
struct_only = record nothing { trace = true }

-- After them.
abbrev pub allocated : AllocAnswers → Blocks
allocated answers = record {
  trace = true;
  time_0 = answers.time_0_ok;
  time_1 = answers.time_1_ok;
  tmp = answers.tmp_ok;
}

-- osal_trace_alloc: the code, the trace unless it was freed again, and the blocks that stay
-- allocated. The memset in front of the test for NULL writes through the pointer, so a failed malloc
-- of the struct is a fault.
unfoldable pub trace_alloc : AllocAnswers → ℕ → Option (Retval × Option Trace × Blocks)
trace_alloc answers cnt = elim answers.trace_ok [
  | false ↦ none
  | true ↦ elim answers.sem_ret [
    | Retval.ok ↦
        if answers.time_0_ok && answers.time_1_ok && answers.tmp_ok
        then some (Retval.ok, some (fresh cnt), allocated answers)
        else (trace_free (allocated answers) (allocated answers) >>= λ held.
            some (Retval.out_of_memory, none, held))
    | ret ↦ (trace_free struct_only struct_only >>= λ held. some (ret, none, held))
  ]
]
