-- ===== src/Io/Logger/Laws.antt =====
-- The logger puts out what was printed.
use libosal.Prelude.{ℕ, ◌-◌, ◌≤◌, ◌≡◌, refl, sym, ap, ◌∙◌, some, List, [], ◌∷◌, ◌++◌, take, arith}
use mathlib.Core.List.{map}
use libosal.Prelude.Memory.{◌>>=◌, take_all}
use libosal.Prelude.Bytes.{string, string-strncpy}
use libosal.Osal.{Retval}
use libosal.Io.{IoShm, get_message, max_msg_size, take_message}
use libosal.Io.Queue.{push}
use libosal.Io.Slots.{IsValid, message}
use libosal.Io.Ring.{
  messages, seen, seen_lem, pop, shm_printf_refines, take_message_refines, take_message-keeps,
}
use libosal.Io.History.{push_all, print_all-push_all}
use libosal.Io.Logger.{Logger, Event, meanwhile, log_once, handle, run}
use libosal.Io.Logger.Queue.{
  Screen, arrived, show, serve, serve_all, Short, AllShort, EventShort, EventsShort, AllShort-push,
  AllShort-arrived, map-push, map-push_all,
}

-- A slot gives a short text back.
string-message :
    (size : ℕ) (text : List ℕ)
    → size ≤ max_msg_size
    → Short size text
    → string (message size text) ≡ some text
string-message size text fits short =
    let all : take 529 text ≡ text = take_all text 529 (omega (arith, short.1)) in
    let (cs, e, f) = string-strncpy size text [] short.0 short.1 in ground (arith, all, e, f)

module _ (cap size : ℕ) where
  -- What the user of a logger sees of a ring of `cap + 1` slots.
  pub record Shows (l : Logger) (s : Screen) : Type 0 where
    pub valid : IsValid l.shm
    pub slots : l.shm.max_messages - 1 ≡ cap
    pub bytes : l.shm.max_message_size ≡ size
    pub waiting : messages l.shm ≡ map (message size) s.queue
    pub lines : l.stdout ≡ s.shown
    pub short : AllShort size s.queue

  prints_lem :
      (l : Logger) (s : Screen) (text : List ℕ)
      → Shows l s
      → Short size text
      → (l' : Logger) × (handle l (Event.prints text) ≡ some l')
        × Shows l' (serve cap s (Event.prints text))
  unfolding handle
  prints_lem l s text v short =
      let (shm', e, w, max, same, pushed) = shm_printf_refines l.shm text v.valid in
      (
        record l { shm = shm' },
        rw (e, ◌>>=◌) refl,
        record {
          valid = w;
          slots = ap (λ n. n - 1) max ∙ v.slots;
          bytes = same ∙ v.bytes;
          waiting =
              pushed
              ∙ ap (λ n. push n (messages l.shm) (message l.shm.max_message_size text)) v.slots
              ∙ ap (λ b. push cap (messages l.shm) (message b text)) v.bytes
              ∙ ap (λ q. push cap q (message size text)) v.waiting
              ∙ sym (map-push (message size) cap s.queue text);
          lines = v.lines;
          short = AllShort-push size cap s.queue text v.short short;
        },
      )

  -- The ring that a pass reads from, after the wait where nothing was unread.
  seen-arrived :
      (shm : IoShm) (queue texts : List (List ℕ))
      → IsValid shm
      → shm.max_messages - 1 ≡ cap
      → shm.max_message_size ≡ size
      → messages shm ≡ map (message size) queue
      → (shm' : IoShm) × (seen shm (some (meanwhile texts)) ≡ shm')
        × IsValid shm'
        × (shm'.max_messages - 1 ≡ cap)
        × (shm'.max_message_size ≡ size)
        × (messages shm' ≡ map (message size) (arrived cap queue texts))
  seen-arrived shm [] texts v slots bytes waiting =
      let (shm', e, w, max, same, all) = print_all-push_all shm texts v in
      (
        shm',
        ground (arith, waiting, e),
        w,
        ap (λ n. n - 1) max ∙ slots,
        same ∙ bytes,
        all
            ∙ ap (λ n. push_all n (messages shm) (map (message shm.max_message_size) texts)) slots
            ∙ ap (λ b. push_all cap (messages shm) (map (message b) texts)) bytes
            ∙ ap (λ q. push_all cap q (map (message size) texts)) waiting
            ∙ sym (map-push_all (message size) cap [] texts),
      )
  seen-arrived shm (text ∷ queue) texts v slots bytes waiting =
      (shm, ground (arith, waiting), v, slots, bytes, waiting)

  -- What a pass makes of the texts that wait.
  shown_lem :
      (l : Logger) (shown q texts : List (List ℕ)) (ret : Retval) (got : List ℕ) (shm' : IoShm)
      → size ≤ max_msg_size
      → AllShort size q
      → l.stdout ≡ shown
      → get_message l.shm (some (meanwhile texts)) ≡ some (ret, got, shm')
      → IsValid shm'
      → shm'.max_messages - 1 ≡ cap
      → shm'.max_message_size ≡ size
      → (ret, got, messages shm') ≡ pop (map (message size) q)
      → (l' : Logger) × (log_once l texts ≡ some l') × Shows l' (show q shown)
  unfolding log_once
  shown_lem l shown [] texts ret got shm' fits short lines read w slots bytes popped =
      let failed : ret ≡ Retval.unavailable = ap (λ p. p.0) popped in
      (
        record l { shm = shm' },
        rw (read, failed, ◌>>=◌) refl,
        record {
          valid = w;
          slots = slots;
          bytes = bytes;
          waiting = ap (λ p. p.2) popped;
          lines = lines;
          short = tt;
        },
      )
  shown_lem l shown (text ∷ q) texts ret got shm' fits short lines read w slots bytes popped =
      let found : ret ≡ Retval.ok = ap (λ p. p.0) popped in
      let line : string got ≡ some text =
        ap (λ p. string (p.1)) popped ∙ string-message size text fits short.0 in
      (
        record { shm = shm'; stdout = l.stdout ++ (text ∷ []) },
        rw (read, found, line, ◌>>=◌) refl,
        record {
          valid = w;
          slots = slots;
          bytes = bytes;
          waiting = ap (λ p. p.2) popped;
          lines = ap (λ ls. ls ++ (text ∷ [])) lines;
          short = short.1;
        },
      )

  -- What a pass makes of the ring that it reads from.
  logs_lem :
      (l : Logger) (s : Screen) (texts : List (List ℕ))
      → size ≤ max_msg_size
      → Shows l s
      → AllShort size texts
      → (l' : Logger) × (handle l (Event.logs texts) ≡ some l')
        × Shows l' (serve cap s (Event.logs texts))
  unfolding handle log_once
  logs_lem l s texts fits v short =
      let (shm, seen_e, w, slots, bytes, waiting) =
        seen-arrived l.shm s.queue texts v.valid v.slots v.bytes v.waiting in
      let (ret, got, shm', e, w', popped) = take_message_refines shm w (omega (arith, bytes)) in
      let kept = take_message-keeps shm shm' ret got w e in
      let read : get_message l.shm (some (meanwhile texts)) ≡ some (ret, got, shm') =
        seen_lem l.shm (some (meanwhile texts)) v.valid ∙ ap take_message seen_e ∙ e in
      shown_lem l s.shown (arrived cap s.queue texts) texts ret got shm' fits
        (AllShort-arrived size cap s.queue texts v.short short) v.lines read w'
        (ap (λ n. n - 1) kept.0 ∙ slots) (kept.1 ∙ bytes) (popped ∙ ap pop waiting)

  handle_lem :
      (l : Logger) (s : Screen) (event : Event)
      → size ≤ max_msg_size
      → Shows l s
      → EventShort size event
      → (l' : Logger) × (handle l event ≡ some l') × Shows l' (serve cap s event)
  handle_lem l s (Event.prints text) fits v short = prints_lem l s text v short
  handle_lem l s (Event.logs texts) fits v short = logs_lem l s texts fits v short

  -- From a valid ring with slots of at most 512 bytes, whose unread messages are those of texts that
  -- fit a slot with their NUL: whatever the order in which other programs print such texts and the
  -- logger runs through its loop, no step faults, and the lines that the logger has put out and the
  -- messages that wait are those of a queue that takes the texts as they were printed, keeps the
  -- newest of them in one slot less than the ring has, and gives the oldest to each pass.
  pub logger_refines :
      (events : List Event) (l : Logger) (s : Screen)
      → size ≤ max_msg_size
      → Shows l s
      → EventsShort size events
      → (l' : Logger) × (run l events ≡ some l') × Shows l' (serve_all cap s events)
  unfolding run
  logger_refines [] l s fits v short = (l, refl, v)
  logger_refines (event ∷ events) l s fits v short =
      let (next, e, w) = handle_lem l s event fits v short.0 in
      let (last, f, x) = logger_refines events next (serve cap s event) fits w short.1 in
      (last, rw (e, ◌>>=◌) f, x)
