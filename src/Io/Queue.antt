-- ===== src/Io/Queue.antt =====
-- A queue that keeps the newest `cap` messages, and the window of a ring of slots that holds one.
use libosal.Prelude.{
  ℕ, zero, suc, ◌+◌, ◌-◌, ◌<◌, ◌≡◌, ◌≢◌, refl, ap, ap₂, List, [], ◌∷◌, ◌++◌, arith, ltb, leb, ◌==◌,
  if◌then◌else◌, length, drop, Bool-cases, inl, inr,
}

-- A message goes to the end; what is more than `cap` is dropped from the front.
abbrev pub push : ℕ → List (List ℕ) → List ℕ → List (List ℕ)
push cap queue message = drop (length queue + 1 - cap) (queue ++ (message ∷ []))

-- The slot after a slot.
abbrev pub after : ℕ → ℕ → ℕ
after max i = if i + 1 == max then 0 else i + 1

-- The slot `d` after a slot.
abbrev ahead : ℕ → ℕ → ℕ → ℕ
ahead max i d = if ltb (i + d) max then i + d else i + d - max

-- The number of messages in a ring that was read up to `p` and written up to `w`.
abbrev pub used : ℕ → ℕ → ℕ → ℕ
used max p w = if leb p w then w - p else w + max - p

-- Where reading goes on after one more write.
abbrev pub oldest : ℕ → ℕ → ℕ → ℕ
oldest max p w = if after max w == p then after max p else p

module _ (max : ℕ) where
  -- The contents of the `n` slots after `i`.
  unfoldable pub window : (ℕ → List ℕ) → ℕ → ℕ → List (List ℕ)
  window slot i zero = []
  window slot i (suc n) = slot (after max i) ∷ window slot (after max i) n

  length-window : (slot : ℕ → List ℕ) (i n : ℕ) → length (window slot i n) ≡ n
  unfolding window
  length-window slot i zero = refl
  length-window slot i (suc n) = ap suc (length-window slot (after max i) n)

  -- A message in the slot behind a window extends it.
  pub window-snoc :
      (slot slot' : ℕ → List ℕ) (i n w : ℕ)
      → i < max
      → n + 1 < max
      → w ≡ ahead max i (n + 1)
      → ((k : ℕ) → k < max → k ≢ w → slot' k ≡ slot k)
      → window slot' i (suc n) ≡ window slot i n ++ (slot' w ∷ [])
  unfolding window
  window-snoc slot slot' i zero w hi hn e same =
      let last : after max i ≡ w = ground arith in ap (λ k. slot' k ∷ []) last
  window-snoc slot slot' i (suc n) w hi hn e same =
      ap₂ ◌∷◌ (same (after max i) (ground arith) (ground arith))
        (window-snoc slot slot' (after max i) n w (ground arith) (omega arith) (ground arith) same)

  module _ (slot slot' : ℕ → List ℕ) (m : List ℕ) where
    -- A message for a ring with space,
    window-space :
        (i n w : ℕ)
        → i < max
        → n + 1 < max
        → w ≡ ahead max i (n + 1)
        → slot' w ≡ m
        → ((k : ℕ) → k < max → k ≢ w → slot' k ≡ slot k)
        → window slot' i (n + 1) ≡ push (max - 1) (window slot i n) m
    window-space i n w hi hn e new same =
        let fits : length (window slot i n) + 1 - (max - 1) ≡ 0 =
          omega (arith, length-window slot i n) in
        let appended = window-snoc slot slot' i n w hi hn e same in
        ground (arith, fits, appended, new)

    -- and for a full one.
    window-full :
        (i n w : ℕ)
        → i < max
        → n + 1 ≡ max
        → w ≡ i
        → slot' w ≡ m
        → ((k : ℕ) → k < max → k ≢ w → slot' k ≡ slot k)
        → window slot' (after max i) n ≡ push n (window slot i n) m
    unfolding window
    window-full i zero w hi hn e new same = refl
    window-full i (suc n) w hi hn e new same =
        let one : suc (length (window slot (after max i) n)) + 1 - suc n ≡ 1 =
          omega (arith, length-window slot (after max i) n) in
        let appended =
          window-snoc slot slot' (after max i) n w (ground arith) (ground arith) (ground arith)
            same in
        ground (arith, one, appended, new)

    -- A message for the slot after `w` drops the oldest one where the ring is full.
    pub window-push :
        (p w : ℕ)
        → p < max
        → w < max
        → slot' (after max w) ≡ m
        → ((k : ℕ) → k < max → k ≢ after max w → slot' k ≡ slot k)
        → window slot' (oldest max p w) (used max (oldest max p w) (after max w))
          ≡ push (max - 1) (window slot p (used max p w)) m
    window-push p w hp hw new same = elim (Bool-cases (after max w == p)) [
      | inl full ↦
          let last =
            window-full p (max - 1) (after max w) hp (omega arith) (ground arith) new same in
          let was : used max p w ≡ max - 1 = ground arith in
          let is : used max (after max p) (after max w) ≡ max - 1 = ground arith in
          ground (arith, last, ap (window slot p) was, ap (window slot' (after max p)) is)
      | inr space ↦
          let last =
            window-space p (used max p w) (after max w) hp (ground arith) (ground arith) new same in
          let is : used max p (after max w) ≡ used max p w + 1 = ground arith in
          ground (arith, last, ap (window slot' p) is)
    ]

  module _ (slot : ℕ → List ℕ) (p w : ℕ) where
    -- Nothing is unread where reading has caught up,
    pub window_nil : p ≡ w → window slot p (used max p w) ≡ []
    unfolding window
    window_nil e = let none_left : used max p w ≡ 0 = ground arith in ap (window slot p) none_left

    -- and otherwise the next slot is the oldest message.
    pub window_cons :
        p < max
        → w < max
        → p ≢ w
        → window slot p (used max p w)
          ≡ slot (after max p) ∷ window slot (after max p) (used max (after max p) w)
    unfolding window
    window_cons hp hw ne =
        let one_more : used max p w ≡ suc (used max (after max p) w) = ground arith in
        ap (window slot p) one_more
