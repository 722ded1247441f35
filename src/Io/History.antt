-- ===== src/Io/History.antt =====
-- What a reader gets after many messages: the newest ones, in the order in which they were printed.
use libosal.Prelude.{
  ℕ, zero, suc, ◌+◌, ◌-◌, ◌≤◌, ◌≡◌, refl, ap, ◌∙◌, Option, some, List, [], ◌∷◌, ◌++◌, arith, length,
  drop, length-append, length-drop, length-map,
}
use mathlib.Core.List.{map, append_assoc, append-nil}
use libosal.Prelude.Memory.{◌>>=◌}
use libosal.Io.{IoShm, shm_printf}
use libosal.Io.Queue.{push}
use libosal.Io.Slots.{IsValid, message}
use libosal.Io.Ring.{messages, shm_printf_refines}

-- osal_printf, message after message.
pub print_all : IoShm → List (List ℕ) → Option IoShm
print_all shm [] = some shm
print_all shm (text ∷ texts) = shm_printf shm text >>= λ shm'. print_all shm' texts

abbrev pub push_all : ℕ → List (List ℕ) → List (List ℕ) → List (List ℕ)
push_all cap queue [] = queue
push_all cap queue (m ∷ ms) = push_all cap (push cap queue m) ms

pub print_all-push_all :
    (shm : IoShm) (texts : List (List ℕ))
    → IsValid shm
    → (shm' : IoShm) × (print_all shm texts ≡ some shm')
      × IsValid shm'
      × (shm'.max_messages ≡ shm.max_messages)
      × (shm'.max_message_size ≡ shm.max_message_size)
      × (messages shm'
          ≡ push_all
              (shm.max_messages - 1)
              (messages shm)
              (map (message shm.max_message_size) texts))
unfolding print_all
print_all-push_all shm [] v = (shm, refl, v, refl, refl, refl)
print_all-push_all shm (text ∷ texts) v =
    let (next, e, w, max, size, pushed) = shm_printf_refines shm text v in
    let (last, f, valid, max', size', all) = print_all-push_all next texts w in
    (
      last,
      ground (arith, e, f),
      valid,
      max' ∙ max,
      size' ∙ size,
      ground (arith, all, pushed, max, size),
    )

drop-append_drop :
    (n m : ℕ) (xs ys : List (List ℕ))
    → n ≤ length xs
    → drop m (drop n xs ++ ys) ≡ drop (n + m) (xs ++ ys)
drop-append_drop zero m xs ys h = ground arith
drop-append_drop (suc n) m [] ys h = elim h [ ]
drop-append_drop (suc n) m (x ∷ xs) ys h =
    let shift : suc (n + m) ≡ suc n + m = omega arith in
    drop-append_drop n m xs ys (omega arith) ∙ ap (λ k. drop k (x ∷ xs ++ ys)) shift

push_all-drop :
    (cap : ℕ) (queue ms : List (List ℕ))
    → length queue ≤ cap
    → push_all cap queue ms ≡ drop (length queue + length ms - cap) (queue ++ ms)
push_all-drop cap queue [] h =
    let all : length queue + 0 - cap ≡ 0 = omega (arith, h) in ground (arith, all, append-nil queue)
push_all-drop cap queue (m ∷ ms) h =
    let extended = length-append queue (m ∷ []) in
    let pushed = length-drop (length queue + 1 - cap) (queue ++ (m ∷ [])) in
    push_all-drop cap (push cap queue m) ms (omega (arith, h, extended, pushed))
    ∙ drop-append_drop (length queue + 1 - cap) (length (push cap queue m) + length ms - cap)
        (queue ++ (m ∷ [])) ms (omega (arith, h, extended))
    ∙ ap (λ n. drop n ((queue ++ (m ∷ [])) ++ ms)) (omega (arith, h, extended, pushed))
    ∙ ap (drop (length queue + suc (length ms) - cap)) (append_assoc queue (m ∷ []) ms)

-- From a valid ring with no unread message, osal_printf stores each of a list of texts, and then the
-- unread messages are the newest ones of the list, in its order: as many as fit in one slot less
-- than the ring has.
pub print_all_lem :
    (shm : IoShm) (texts : List (List ℕ))
    → IsValid shm
    → messages shm ≡ []
    → (shm' : IoShm) × (print_all shm texts ≡ some shm')
      × IsValid shm'
      × (messages shm'
          ≡ drop (length texts - (shm.max_messages - 1)) (map (message shm.max_message_size) texts))
print_all_lem shm texts v empty =
    let (shm', e, w, max, size, all) = print_all-push_all shm texts v in
    let sent = map (message shm.max_message_size) texts in
    (
      shm',
      e,
      w,
      all
          ∙ ap (λ q. push_all (shm.max_messages - 1) q sent) empty
          ∙ push_all-drop (shm.max_messages - 1) [] sent (omega arith)
          ∙ ap (λ n. drop n sent) (omega (arith, length-map texts (message shm.max_message_size))),
    )
