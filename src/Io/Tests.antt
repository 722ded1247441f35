-- ===== src/Io/Tests.antt =====
-- Runs of a ring of three slots of four bytes, and the theorems on it.
use libosal.Prelude.{ℕ, ◌≡◌, refl, none, some, [], ◌∷◌, arith, List, ◌==◌, if◌then◌else◌}
use libosal.Osal.{Retval}
use libosal.Io.{IoShm, Io, shm_printf, take_message, get_message, next_index}
use libosal.Io.Queue.{window}
use libosal.Io.Slots.{IsValid}
use libosal.Io.Ring.{messages, shm_printf_refines, get_message_refines}
use libosal.Io.History.{print_all, print_all_lem}
use libosal.Io.Setup.{SetupAnswers, Texts, io_shm_setup}
use libosal.Io.Setup.Laws.{setup_lem, setup_failed_lem}

abbrev pub empty : IoShm
empty = record {
  magic = 11533824;
  max_messages = 3;
  max_message_size = 4;
  sem = 0;
  new_msg = 0;
  act_printed = 0;
  act_written = 0;
  msgs = 0 ∷ 0 ∷ 0 ∷ 0 ∷ 0 ∷ 0 ∷ 0 ∷ 0 ∷ 0 ∷ 0 ∷ 0 ∷ 0 ∷ [];
}

pub empty-IsValid : IsValid empty
empty-IsValid = record {
  some_slot = omega arith;
  few_slots = omega arith;
  printed_in_range = omega arith;
  written_in_range = omega arith;
  room = omega arith;
  small = omega arith;
}

abbrev pub hello : List ℕ
hello = 104 ∷ 101 ∷ 108 ∷ 108 ∷ 111 ∷ []

abbrev pub hi : List ℕ
hi = 104 ∷ 105 ∷ []

abbrev printed : IoShm
printed = record empty {
  sem = 1;
  act_written = 1;
  msgs = 0 ∷ 0 ∷ 0 ∷ 0 ∷ 104 ∷ 105 ∷ 0 ∷ 0 ∷ 0 ∷ 0 ∷ 0 ∷ 0 ∷ [];
}

prints : shm_printf empty hi ≡ some printed
unfolding shm_printf next_index
prints = refl

reads :
    get_message printed none
    ≡ some (Retval.ok, 104 ∷ 105 ∷ 0 ∷ 0 ∷ [], record printed { act_printed = 1 })
unfolding get_message take_message next_index
reads = refl

shm_printf_refines_example :
    (shm' : IoShm) × (shm_printf empty hello ≡ some shm')
    × IsValid shm'
    × (shm'.max_messages ≡ 3)
    × (shm'.max_message_size ≡ 4)
    × (messages shm' ≡ (104 ∷ 101 ∷ 108 ∷ 108 ∷ []) ∷ [])
unfolding window
shm_printf_refines_example = shm_printf_refines empty hello empty-IsValid

-- A reader that waits while `hi` is printed.
abbrev meanwhile : IoShm → IoShm
meanwhile shm = printed

printed-IsValid : IsValid printed
printed-IsValid = record {
  some_slot = omega arith;
  few_slots = omega arith;
  printed_in_range = omega arith;
  written_in_range = omega arith;
  room = omega arith;
  small = omega arith;
}

abbrev got : Retval × List ℕ × List (List ℕ)
got = (Retval.ok, 104 ∷ 105 ∷ 0 ∷ 0 ∷ [], [])

get_message_refines_example :
    (ret : Retval) × (bytes : List ℕ) × (shm' : IoShm) × (get_message empty (some meanwhile)
      ≡ some (ret, bytes, shm'))
    × IsValid shm'
    × ((ret, bytes, messages shm') ≡ got)
unfolding window
get_message_refines_example =
    get_message_refines empty (some meanwhile) empty-IsValid printed-IsValid (omega arith)

print_all_lem_test :
    (shm' : IoShm) × (print_all empty (hello ∷ hi ∷ hello ∷ []) ≡ some shm')
    × IsValid shm'
    × (messages shm' ≡ (104 ∷ 105 ∷ 0 ∷ 0 ∷ []) ∷ (104 ∷ 101 ∷ 108 ∷ 108 ∷ []) ∷ [])
unfolding window
print_all_lem_test = print_all_lem empty (hello ∷ hi ∷ hello ∷ []) empty-IsValid refl

abbrev pub texts : Texts
texts = record {
  missing = hi;
  open_failed = hi;
  map_failed = hi;
  mapped_ok = hello;
  found_magic = hi;
  max_messages = hi;
  max_message_size = hi;
}

-- A system on which the first osal_shm_open, without the flag to create, fails.
abbrev pub creates : ℕ → ℕ → Retval
creates attr size = if attr == 28704802 then Retval.not_found else Retval.ok

abbrev pub answers : SetupAnswers
answers = record {
  shm_open = creates;
  shm_map = Retval.ok;
  mapped = record empty { magic = 0; sem = 7; act_written = 9 };
  sem_init = Retval.ok;
}

abbrev stdout_only : Io
stdout_only = record { buffer = none; stdout = [] }

setup_lem_example :
    (io' : Io) × (shm : IoShm) × (io_shm_setup answers texts stdout_only 3 4
      ≡ some (Retval.ok, io'))
    × (io'.buffer ≡ some shm)
    × IsValid shm
    × (messages shm ≡ [])
    × (shm.max_messages ≡ 3)
    × (shm.max_message_size ≡ 4)
unfolding window
setup_lem_example =
    setup_lem answers texts stdout_only 3 4 refl refl refl (omega arith) (omega arith) (omega arith)
      (omega arith) (omega arith)

abbrev pub refuses : SetupAnswers
refuses = record answers { shm_map = Retval.invalid_param; shm_open = λ attr size. Retval.busy }

setup_failed_lem_test :
    (io' : Io) × (io_shm_setup refuses texts stdout_only 3 4 ≡ some (Retval.ok, io'))
    × (io'.buffer ≡ none)
setup_failed_lem_test = setup_failed_lem refuses texts stdout_only 3 4 refl (λ attr size. refl)
