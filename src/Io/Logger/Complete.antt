-- ===== src/Io/Logger/Complete.antt =====
-- A logger of a ring that is large enough puts out every text, in order.
use libosal.Prelude.{
  ℕ, ◌+◌, ◌-◌, ◌≤◌, ◌≡◌, refl, sym, ap, ◌∙◌, some, List, [], ◌∷◌, ◌++◌, length, length-append, drop,
  arith,
}
use mathlib.Core.List.{map, append_assoc, append-nil}
use libosal.Io.{max_msg_size}
use libosal.Io.Slots.{message}
use libosal.Io.Ring.{messages}
use libosal.Io.Queue.{push}
use libosal.Io.History.{push_all}
use libosal.Io.Logger.{Logger, Event, run}
use libosal.Io.Logger.Queue.{Screen, serve, serve_all, show, arrived, EventsShort}
use libosal.Io.Logger.Laws.{Shows, logger_refines}

-- The texts that are printed in an event: while a pass waits, which it does where none is unread.
abbrev pub came : List (List ℕ) → Event → List (List ℕ)
came queue (Event.prints text) = text ∷ []
came [] (Event.logs texts) = texts
came (text ∷ queue) (Event.logs texts) = []

abbrev pub came_all : ℕ → Screen → List Event → List (List ℕ)
came_all cap s [] = []
came_all cap s (event ∷ events) = came s.queue event ++ came_all cap (serve cap s event) events

push_fits :
    (cap : ℕ) (queue : List (List ℕ)) (text : List ℕ)
    → length queue + 1 ≤ cap
    → push cap queue text ≡ queue ++ (text ∷ [])
push_fits cap queue text h =
    let none_over : length queue + 1 - cap ≡ 0 = omega arith in
    ap (λ n. drop n (queue ++ (text ∷ []))) none_over

push_all_fits :
    (cap : ℕ) (queue texts : List (List ℕ))
    → length queue + length texts ≤ cap
    → push_all cap queue texts ≡ queue ++ texts
push_all_fits cap queue [] h = sym (append-nil queue)
push_all_fits cap queue (text ∷ texts) h =
    let first = push_fits cap queue text (omega arith) in
    ap (λ q. push_all cap q texts) first
    ∙ push_all_fits cap (queue ++ (text ∷ [])) texts
        (omega (arith, length-append queue (text ∷ [])))
    ∙ append_assoc queue (text ∷ []) texts

show_lem :
    (queue shown : List (List ℕ))
    → (show queue shown).shown ++ (show queue shown).queue ≡ shown ++ queue
show_lem [] shown = refl
show_lem (text ∷ queue) shown = append_assoc shown (text ∷ []) queue

length-show : (queue shown : List (List ℕ)) → length (show queue shown).queue ≤ length queue
length-show [] shown = omega arith
length-show (text ∷ queue) shown = omega arith

arrived_fits :
    (cap : ℕ) (queue texts : List (List ℕ))
    → length queue + length (came queue (Event.logs texts)) ≤ cap
    → arrived cap queue texts ≡ queue ++ came queue (Event.logs texts)
arrived_fits cap [] texts h = push_all_fits cap [] texts h
arrived_fits cap (text ∷ queue) texts h = sym (append-nil (text ∷ queue))

-- One event loses nothing.
serve_fits :
    (cap : ℕ) (s : Screen) (event : Event)
    → length s.queue + length (came s.queue event) ≤ cap
    → ((serve cap s event).shown ++ (serve cap s event).queue
        ≡ s.shown ++ (s.queue ++ came s.queue event))
      × (length (serve cap s event).queue ≤ length s.queue + length (came s.queue event))
serve_fits cap s (Event.prints text) h =
    let first = push_fits cap s.queue text h in
    (
      ap (λ q. s.shown ++ q) first,
      omega (arith, ap length first, length-append s.queue (text ∷ [])),
    )
serve_fits cap s (Event.logs texts) h =
    let all = arrived_fits cap s.queue texts h in
    (
      show_lem (arrived cap s.queue texts) s.shown ∙ ap (λ q. s.shown ++ q) all,
      omega (
        arith,
        length-show (arrived cap s.queue texts) s.shown,
        ap length all,
        length-append s.queue (came s.queue (Event.logs texts)),
      ),
    )

serve_all_fits :
    (cap : ℕ) (events : List Event) (s : Screen)
    → length s.queue + length (came_all cap s events) ≤ cap
    → (serve_all cap s events).shown ++ (serve_all cap s events).queue
      ≡ s.shown ++ (s.queue ++ came_all cap s events)
serve_all_fits cap [] s h = ap (λ q. s.shown ++ q) (sym (append-nil s.queue))
serve_all_fits cap (event ∷ events) s h =
    let next = serve cap s event in
    let rest = came_all cap next events in
    let size = length-append (came s.queue event) rest in
    let (kept, few) = serve_fits cap s event (omega arith) in
    serve_all_fits cap events next (omega arith)
    ∙ sym (append_assoc next.shown next.queue rest)
    ∙ ap (λ q. q ++ rest) kept
    ∙ append_assoc s.shown (s.queue ++ came s.queue event) rest
    ∙ ap (λ q. s.shown ++ q) (append_assoc s.queue (came s.queue event) rest)

-- From a ring whose unread messages are those of `s`, where all the texts that are printed meanwhile
-- fit into it with those, in one slot less than it has, and each fits a slot with its NUL: the
-- logger never faults, and what it has put out, followed by the texts that are still unread, is what
-- it had put out and what was unread, followed by all the texts that were printed, in that order.
pub logger_loses_nothing :
    (cap size : ℕ) (events : List Event) (l : Logger) (s : Screen)
    → size ≤ max_msg_size
    → Shows cap size l s
    → EventsShort size events
    → length s.queue + length (came_all cap s events) ≤ cap
    → (l' : Logger) × (unread : List (List ℕ)) × (run l events ≡ some l')
      × (messages l'.shm ≡ map (message size) unread)
      × (l'.stdout ++ unread ≡ l.stdout ++ (s.queue ++ came_all cap s events))
logger_loses_nothing cap size events l s fits v short room =
    let (l', e, w) = logger_refines cap size events l s fits v short in
    let unread = (serve_all cap s events).queue in
    (
      l',
      unread,
      e,
      w.waiting,
      ap (λ ls. ls ++ unread) w.lines
          ∙ serve_all_fits cap events s room
          ∙ ap (λ ls. ls ++ (s.queue ++ came_all cap s events)) (sym v.lines),
    )
