-- ===== src/Io/Logger/Queue.antt =====
-- What a user of the logger sees: texts that wait, the newest of them where there are too many, and
-- texts that were put out.
use libosal.Prelude.{
  ℕ, zero, suc, ◌+◌, ◌-◌, ◌<◌, ◌≡◌, refl, sym, ap, ap₂, ◌∙◌, List, [], ◌∷◌, ◌++◌, length, drop,
  length-map,
}
use mathlib.Core.List.{map}
use libosal.Prelude.Bytes.{NoNul}
use libosal.Io.Queue.{push}
use libosal.Io.History.{push_all}
use libosal.Io.Logger.{Event}

pub record Screen : Type 0 where
  pub queue : List (List ℕ)
  pub shown : List (List ℕ)

-- The texts that wait when a pass reads: with none, those that come meanwhile.
abbrev pub arrived : ℕ → List (List ℕ) → List (List ℕ) → List (List ℕ)
arrived cap [] texts = push_all cap [] texts
arrived cap (text ∷ queue) texts = text ∷ queue

-- The oldest one is put out.
abbrev pub show : List (List ℕ) → List (List ℕ) → Screen
show [] shown = record { queue = []; shown = shown }
show (text ∷ queue) shown = record { queue = queue; shown = shown ++ (text ∷ []) }

abbrev pub serve : ℕ → Screen → Event → Screen
serve cap s (Event.prints text) = record s { queue = push cap s.queue text }
serve cap s (Event.logs texts) = show (arrived cap s.queue texts) s.shown

abbrev pub serve_all : ℕ → Screen → List Event → Screen
serve_all cap s [] = s
serve_all cap s (event ∷ events) = serve_all cap (serve cap s event) events

-- Texts that a slot of `size` bytes holds with their NUL.
abbrev pub Short : ℕ → List ℕ → Type 0
Short size text = NoNul text × (length text < size)

abbrev pub AllShort : ℕ → List (List ℕ) → Type 0
AllShort size [] = Unit
AllShort size (text ∷ texts) = Short size text × AllShort size texts

abbrev pub EventShort : ℕ → Event → Type 0
EventShort size (Event.prints text) = Short size text
EventShort size (Event.logs texts) = AllShort size texts

abbrev pub EventsShort : ℕ → List Event → Type 0
EventsShort size [] = Unit
EventsShort size (event ∷ events) = EventShort size event × EventsShort size events

AllShort-append :
    (size : ℕ) (xs : List (List ℕ)) (text : List ℕ)
    → AllShort size xs
    → Short size text
    → AllShort size (xs ++ (text ∷ []))
AllShort-append size [] text h k = (k, tt)
AllShort-append size (x ∷ xs) text h k = (h.0, AllShort-append size xs text h.1 k)

AllShort-drop : (size n : ℕ) (xs : List (List ℕ)) → AllShort size xs → AllShort size (drop n xs)
AllShort-drop size zero xs h = h
AllShort-drop size (suc n) [] h = tt
AllShort-drop size (suc n) (x ∷ xs) h = AllShort-drop size n xs h.1

pub AllShort-push :
    (size cap : ℕ) (queue : List (List ℕ)) (text : List ℕ)
    → AllShort size queue
    → Short size text
    → AllShort size (push cap queue text)
AllShort-push size cap queue text h k =
    AllShort-drop size (length queue + 1 - cap) (queue ++ (text ∷ []))
      (AllShort-append size queue text h k)

AllShort-push_all :
    (size cap : ℕ) (queue texts : List (List ℕ))
    → AllShort size queue
    → AllShort size texts
    → AllShort size (push_all cap queue texts)
AllShort-push_all size cap queue [] h k = h
AllShort-push_all size cap queue (text ∷ texts) h k =
    AllShort-push_all size cap (push cap queue text) texts (AllShort-push size cap queue text h k.0)
      k.1

pub AllShort-arrived :
    (size cap : ℕ) (queue texts : List (List ℕ))
    → AllShort size queue
    → AllShort size texts
    → AllShort size (arrived cap queue texts)
AllShort-arrived size cap [] texts h k = AllShort-push_all size cap [] texts tt k
AllShort-arrived size cap (text ∷ queue) texts h k = h

-- The queue of the ring holds what the slots hold of the texts.
map-drop :
    (f : List ℕ → List ℕ) (n : ℕ) (xs : List (List ℕ)) → map f (drop n xs) ≡ drop n (map f xs)
map-drop f zero xs = refl
map-drop f (suc n) [] = refl
map-drop f (suc n) (x ∷ xs) = map-drop f n xs

map-snoc :
    (f : List ℕ → List ℕ) (xs : List (List ℕ)) (x : List ℕ)
    → map f (xs ++ (x ∷ [])) ≡ map f xs ++ (f x ∷ [])
map-snoc f [] x = refl
map-snoc f (y ∷ xs) x = ap (λ l. f y ∷ l) (map-snoc f xs x)

pub map-push :
    (f : List ℕ → List ℕ) (cap : ℕ) (queue : List (List ℕ)) (text : List ℕ)
    → map f (push cap queue text) ≡ push cap (map f queue) (f text)
map-push f cap queue text =
    map-drop f (length queue + 1 - cap) (queue ++ (text ∷ []))
    ∙ ap₂ drop (ap (λ n. n + 1 - cap) (sym (length-map queue f))) (map-snoc f queue text)

pub map-push_all :
    (f : List ℕ → List ℕ) (cap : ℕ) (queue texts : List (List ℕ))
    → map f (push_all cap queue texts) ≡ push_all cap (map f queue) (map f texts)
map-push_all f cap queue [] = refl
map-push_all f cap queue (text ∷ texts) =
    map-push_all f cap (push cap queue text) texts
    ∙ ap (λ q. push_all cap q (map f texts)) (map-push f cap queue text)
