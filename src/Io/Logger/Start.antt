-- ===== src/Io/Logger/Start.antt =====
-- The logger from its start (src/tools/logger/main.c): osal_io_shm_setup, then the loop.
use libosal.Prelude.{
  ℕ, ◌+◌, ◌-◌, ◌*◌, ◌^◌, ◌≤◌, ◌<◌, ◌≡◌, ◌≢◌, refl, ap, true, false, ◌&&◌, ◌||◌, Option, none, some,
  List, [], ◌++◌, length, arith,
}
use mathlib.Core.List.{map}
use libosal.Prelude.Memory.{◌>>=◌}
use libosal.Prelude.Word.{add64, mul64}
use libosal.Osal.{is_ok}
use libosal.Io.{Io, max_msg_size}
use libosal.Io.Slots.{message}
use libosal.Io.Ring.{messages}
use libosal.Io.Setup.{
  SetupAnswers, Texts, io_shm_setup, shm_attr_msr, flag_creat, handle_size, shm_magic,
}
use libosal.Io.Setup.Laws.{setup_lem, setup_failed_lem}
use libosal.Io.Logger.{Logger, Event, run}
use libosal.Io.Logger.Queue.{Screen, EventsShort}
use libosal.Io.Logger.Complete.{came_all, logger_loses_nothing}

-- `osal_io_shm_buffer` is NULL, and nothing has been put out.
abbrev no_ring : Io
no_ring = record { buffer = none; stdout = [] }

-- The calls of main, for a ring of that size, and a number of events. The result of
-- osal_io_shm_setup is dropped; without a ring the first pass reads through NULL.
pub log_from : SetupAnswers → Texts → ℕ → ℕ → List Event → Option Logger
log_from answers texts max_msgs size events = do
  opened ← io_shm_setup answers texts no_ring max_msgs size
  shm ← opened.1.buffer
  run (record { shm = shm; stdout = [] }) events

-- main
abbrev main : SetupAnswers → Texts → List Event → Option Logger
main answers texts events = log_from answers texts 1000 512 events

abbrev blank : Screen
blank = record { queue = []; shown = [] }

-- Where the shared memory is opened and mapped, does not hold a ring yet and has room for one of at
-- least one slot, with slots of at most 512 bytes: as long as the texts that are printed each fit a
-- slot with their NUL, and are no more than one slot less than the ring has, the logger starts and
-- never faults, and what it has put out, followed by the texts that are unread, is all the texts that
-- were printed, in that order.
pub log_from_lem :
    (answers : SetupAnswers) (texts : Texts) (max_msgs size : ℕ) (events : List Event)
    → is_ok (answers.shm_open shm_attr_msr (add64 handle_size (mul64 size max_msgs)))
        || is_ok
            (answers.shm_open (shm_attr_msr + flag_creat) (add64 handle_size (mul64 size max_msgs)))
      ≡ true
    → is_ok answers.shm_map ≡ true
    → answers.mapped.magic ≢ shm_magic
    → 0 < max_msgs
    → max_msgs < 2 ^ 32
    → max_msgs * size ≤ length answers.mapped.msgs
    → size ≤ max_msg_size
    → EventsShort size events
    → length (came_all (max_msgs - 1) blank events) ≤ max_msgs - 1
    → (l : Logger) × (unread : List (List ℕ)) × (log_from answers texts max_msgs size events
        ≡ some l)
      × (messages l.shm ≡ map (message size) unread)
      × (l.stdout ++ unread ≡ came_all (max_msgs - 1) blank events)
unfolding log_from
log_from_lem answers texts max_msgs size events opens maps new some_msgs few room fits short all =
    let bound : max_msgs * size ≤ max_msgs * 512 = grind arith in
    let small : max_msgs * size < 2 ^ 64 = omega (arith, bound) in
    let (io, shm, made, there, v, empty, slots, bytes) =
      setup_lem answers texts no_ring max_msgs size refl opens maps new some_msgs few small room in
    let first : Logger = record { shm = shm; stdout = [] } in
    let (l, unread, e, waiting, lines) =
      logger_loses_nothing (max_msgs - 1) size events first blank fits
        (record {
          valid = v;
          slots = ap (λ n. n - 1) slots;
          bytes = bytes;
          waiting = empty;
          lines = refl;
          short = tt;
        })
        short (omega (arith, all)) in
    (l, unread, rw (made, there, ◌>>=◌) e, waiting, lines)

-- Where no osal_shm_open succeeds, or osal_shm_map does not, the logger reads through NULL.
pub log_from-none :
    (answers : SetupAnswers) (texts : Texts) (max_msgs size : ℕ) (events : List Event)
    → ((attr bytes : ℕ) → is_ok (answers.shm_open attr bytes) && is_ok answers.shm_map ≡ false)
    → log_from answers texts max_msgs size events ≡ none
unfolding log_from
log_from-none answers texts max_msgs size events fails =
    let (io, made, nothing) = setup_failed_lem answers texts no_ring max_msgs size refl fails in
    rw (made, nothing, ◌>>=◌) refl
