-- ===== src/Io/Logger/Tests.antt =====
-- A logger of a ring of three slots of four bytes, and its theorems on it.
use libosal.Prelude.{ℕ, ◌≡◌, refl, some, none, List, [], ◌∷◌, ◌++◌, arith}
use mathlib.Core.List.{map}
use libosal.Io.{shm_printf, take_message, get_message, next_index}
use libosal.Io.Slots.{message}
use libosal.Io.Queue.{window}
use libosal.Io.Ring.{messages}
use libosal.Io.Tests.{empty, empty-IsValid, hi, hello, answers, texts, refuses}
use libosal.Io.Logger.Start.{log_from, log_from_lem, log_from-none}
use libosal.Io.Logger.{Logger, Event, handle, log_once, run}
use libosal.Io.Logger.Queue.{Screen, EventsShort}
use libosal.Io.Logger.Laws.{Shows, logger_refines}
use libosal.Io.Logger.Complete.{logger_loses_nothing}

abbrev quiet : Logger
quiet = record { shm = empty; stdout = [] }

abbrev blank : Screen
blank = record { queue = []; shown = [] }

quiet-Shows : Shows 2 4 quiet blank
unfolding window
quiet-Shows = record {
  valid = empty-IsValid;
  slots = refl;
  bytes = refl;
  waiting = refl;
  lines = refl;
  short = tt;
}

-- One program prints while a pass waits, another one after it, and the next pass finds its text.
abbrev session : List Event
session = Event.logs (hi ∷ []) ∷ Event.prints (111 ∷ []) ∷ Event.logs [] ∷ []

session-EventsShort : EventsShort 4 session
session-EventsShort = (
  ((((λ e. omega (arith, e)), ((λ e. omega (arith, e)), tt)), omega arith), tt),
  ((((λ e. omega (arith, e)), tt), omega arith), (tt, tt)),
)

logger_refines_example :
    (l' : Logger) × (run quiet session ≡ some l')
    × Shows 2 4 l' (record { queue = []; shown = hi ∷ (111 ∷ []) ∷ [] })
logger_refines_example =
    logger_refines 2 4 session quiet blank (omega arith) quiet-Shows session-EventsShort

logger_loses_nothing_test :
    (l' : Logger) × (unread : List (List ℕ)) × (run quiet session ≡ some l')
    × (messages l'.shm ≡ map (message 4) unread)
    × (l'.stdout ++ unread ≡ hi ∷ (111 ∷ []) ∷ [])
logger_loses_nothing_test =
    logger_loses_nothing 2 4 session quiet blank (omega arith) quiet-Shows session-EventsShort
      (omega arith)

-- A text that fills its slot has no NUL there, and the read for its line goes past it.
runs_on : run quiet (Event.prints hello ∷ Event.logs [] ∷ []) ≡ none
unfolding run handle log_once shm_printf get_message take_message next_index
runs_on = refl

log_from_lem_example :
    (l : Logger) × (unread : List (List ℕ)) × (log_from answers texts 3 4 session ≡ some l)
    × (messages l.shm ≡ map (message 4) unread)
    × (l.stdout ++ unread ≡ hi ∷ (111 ∷ []) ∷ [])
log_from_lem_example =
    log_from_lem answers texts 3 4 session refl refl (λ e. omega (arith, e)) (omega arith)
      (omega arith) (omega arith) (omega arith) session-EventsShort (omega arith)

log_from-none_test : log_from refuses texts 3 4 session ≡ none
log_from-none_test = log_from-none refuses texts 3 4 session (λ attr size. refl)
