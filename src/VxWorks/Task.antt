-- ===== src/VxWorks/Task.antt =====
-- The start of a task on VxWorks (src/vxworks/task.c). Only osal_task_create is implemented.
use libosal.Prelude.{
  ℕ, ◌≡◌, refl, Option, none, some, List, [], ◌∷◌, ◌++◌, ◌==◌, if◌then◌else◌, arith,
}
use mathlib.Core.Option
use libosal.Prelude.Memory.{◌>>=◌}
use libosal.Prelude.Bytes.{NoNul}
use libosal.Osal.{Retval}

-- What the port reads of `osal_task_attr_t`; the name is the array of the struct.
pub record TaskAttr : Type 0 where
  pub priority : ℕ
  pub task_name : List ℕ

-- What `strcpy(task_name, attr->task_name)` copies, up to the end of the string; an array without
-- one is read past its end.
abbrev strcpy : List ℕ → Option (List ℕ)
strcpy [] = none
strcpy (c ∷ from) =
    let rest = strcpy from in if c == 0 then some (0 ∷ []) else Option.map (λ cs. c ∷ cs) rest

-- osal_task_create, with what taskSpawn makes of the name and the priority, `none` being ERROR: the
-- code and `hdl->tid`. The attributes are read without a test for NULL.
pub task_create : (List ℕ → ℕ → Option ℕ) → Option TaskAttr → Option (Retval × Option ℕ)
task_create task_spawn attr = do
  given ← attr
  task_name ← strcpy given.task_name
  some (Retval.ok, task_spawn task_name given.priority)

strcpy-string :
    (name rest : List ℕ) → NoNul name → strcpy (name ++ (0 ∷ rest)) ≡ some (name ++ (0 ∷ []))
strcpy-string [] rest h = ground arith
strcpy-string (c ∷ name) rest h = ground (arith, strcpy-string name rest h.1)

-- For a name that ends within its array, osal_task_create passes on that name and the priority, and
-- returns OSAL_OK, where taskSpawn fails too.
pub vx_task_create_lem :
    (task_spawn : List ℕ → ℕ → Option ℕ) (priority : ℕ) (name rest : List ℕ)
    → NoNul name
    → task_create task_spawn (some (record { priority = priority; task_name = name ++ (0 ∷ rest) }))
      ≡ some (Retval.ok, task_spawn (name ++ (0 ∷ [])) priority)
unfolding task_create
vx_task_create_lem task_spawn priority name rest h = rw (strcpy-string name rest h, ◌>>=◌) refl
