-- ===== src/Io/Logger.antt =====
-- The logger (src/tools/logger/main.c), which puts out the messages that other programs print to
-- the ring in shared memory. The other programs print between two passes of its loop and while a
-- pass waits.
pub mod Queue
pub mod Laws
pub mod Complete
pub mod Start
mod Tests
use libosal.Prelude.{Option, none, some, ℕ, true, false, List, [], ◌∷◌, ◌++◌}
use libosal.Prelude.Memory.{◌>>=◌}
use libosal.Prelude.Bytes.{string}
use libosal.Osal.{is_ok}
use libosal.Io.{IoShm, shm_printf, get_message}
use libosal.Io.History.{print_all}

-- The ring, and the lines that the logger has put out.
pub record Logger : Type 0 where
  pub shm : IoShm
  pub stdout : List (List ℕ)

-- Another program calls osal_printf, or the logger runs through its loop once, with the texts that
-- others print while it waits, if it does.
pub data Event : Type 0 where
  prints : List ℕ → Event
  logs : List (List ℕ) → Event

-- What the ring is after the wait.
abbrev pub meanwhile : List (List ℕ) → IoShm → IoShm
meanwhile texts shm = elim (print_all shm texts) [ none ↦ shm | some shm' ↦ shm' ]

-- The body of the `while (1)` of main. A line of `printf("%s\n", msg)` ends at its NUL; without one
-- the read is past what was copied.
pub log_once : Logger → List (List ℕ) → Option Logger
log_once l texts = do
  got ← get_message l.shm (some (meanwhile texts))
  elim (is_ok got.0) [
    | false ↦ some (record l { shm = got.2 })
    | true ↦ (do
      line ← string got.1
      some (record { shm = got.2; stdout = l.stdout ++ (line ∷ []) }))
  ]

pub handle : Logger → Event → Option Logger
handle l (Event.prints text) = shm_printf l.shm text >>= λ shm. some (record l { shm = shm })
handle l (Event.logs texts) = log_once l texts

unfoldable pub run : Logger → List Event → Option Logger
run l [] = some l
run l (event ∷ events) = handle l event >>= λ l'. run l' events
