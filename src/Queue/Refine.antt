-- ===== src/Queue/Refine.antt =====
-- A valid `ChannelFrameQueue` behaves as the bounded FIFO of the frames that it holds.
use native.Mathlib.Nat.{div-add-mod}
use sim_vision_sdk.Prelude.{
  ℕ, zero, suc, ◌+◌, ◌-◌, ◌/◌, ◌%◌, ◌<◌, ◌≡◌, ◌≢◌, ◌⊎◌, inl, inr, refl, sym, subst, ap, ap₂, ◌∙◌,
  Option, none, some, List, [], ◌∷◌, ◌++◌, arith, length, get_or, set, get_or-set_self,
  get_or-set_ne, dec_lt,
}
use sim_vision_sdk.Queue.{Queue, word, try_push, try_pop}
use sim_vision_sdk.Queue.Fifo
use sim_vision_sdk.Queue.Fifo.{Fifo}
use sim_vision_sdk.Queue.Valid.{IsValid}

module _ {A : Type 0} (buf : List (Option A)) (cap : ℕ) where
  -- The `n` slots that the counters from `t` on name.
  abbrev pub window : ℕ → ℕ → List (Option A)
  window t zero = []
  window t (suc n) = get_or buf (t % cap) none ∷ window (t + 1) n

  pub length-window : (t n : ℕ) → length (window t n) ≡ n
  length-window t zero = refl
  length-window t (suc n) = ap suc (length-window (t + 1) n)

  pub window_of_pos :
      (t n : ℕ) → 0 < n → window t n ≡ get_or buf (t % cap) none ∷ window (t + 1) (n - 1)
  window_of_pos t zero h = elim h [ ]
  window_of_pos t (suc n) h = ap (λ k. window t (suc k)) (omega arith)

  pub window-snoc :
      (t n : ℕ) → window t (suc n) ≡ window t n ++ get_or buf ((t + n) % cap) none ∷ []
  window-snoc t zero = ap (λ k. get_or buf (k % cap) none ∷ []) (omega arith)
  window-snoc t (suc n) = ap (◌∷◌ (get_or buf (t % cap) none)) (
      window-snoc (t + 1) n
      ∙ ap (λ k. window (t + 1) n ++ get_or buf (k % cap) none ∷ []) (omega arith))

abbrev pub contents : {A : Type 0} → Queue A → List (Option A)
contents q = window q.buffer q.capacity q.tail (q.head - q.tail)

-- Two counters that differ by less than the capacity name different slots.
pub mod_ne : (cap a b : ℕ) → a < b → b - a < cap → a % cap ≢ b % cap
mod_ne cap a b lt near e = elim (dec_lt (a / cap) (b / cap)) [
  | yes p ↦ grind (arith, div-add-mod a cap, div-add-mod b cap)
  | no p ↦ grind (arith, div-add-mod a cap, div-add-mod b cap)
]

module _ {A : Type 0} (cap i : ℕ) (v : Option A) where
  -- Writing a slot that the window does not name leaves the window.
  pub window-set_outside :
      (buf : List (Option A)) (t n : ℕ)
      → ((k : ℕ) → k < n → i ≢ (t + k) % cap)
      → window (set buf i v) cap t n ≡ window buf cap t n
  window-set_outside buf t zero h = refl
  window-set_outside buf t (suc n) h =
      ap₂ ◌∷◌
        (get_or-set_ne buf i (t % cap) v none
          (λ e. h 0 (omega arith) (e ∙ ap (λ k. k % cap) (omega arith))))
        (window-set_outside buf (t + 1) n
          (λ k lt e. h (suc k) (omega arith) (e ∙ ap (λ k. k % cap) (omega arith))))

module _ {A : Type 0} where
  -- Writing the slot just past a window extends it.
  pub window-set_next :
      (buf : List (Option A)) (cap t n : ℕ) (v : Option A)
      → cap ≡ length buf
      → n < cap
      → window (set buf ((t + n) % cap) v) cap t (suc n) ≡ window buf cap t n ++ v ∷ []
  window-set_next buf cap t n v e lt =
      window-snoc (set buf ((t + n) % cap) v) cap t n
      ∙ ap₂ (λ xs x. xs ++ x ∷ [])
          (window-set_outside cap ((t + n) % cap) v buf t n
            (λ k h e. mod_ne cap (t + k) (t + n) (omega arith) (omega arith) (sym e)))
          (get_or-set_self buf ((t + n) % cap) v none (omega arith))

abbrev pub view : {A : Type 0} → Queue A → Fifo A
view q = record { frames = contents q; accepted = q.pushed; refused = q.dropped }

module _ {A : Type 0} (q : Queue A) (v : IsValid q) where
  open q use {capacity, buffer, head, tail}

  -- The contents once the slot of `head` is written and `head` has moved on.
  window-push :
      (frame : Option A)
      → head - tail < capacity
      → window (set buffer (head % capacity) frame) capacity tail (head + 1 - tail)
        ≡ contents q ++ frame ∷ []
  window-push frame room =
      subst
        (λ i.
          window (set buffer (i % capacity) frame) capacity tail (head + 1 - tail)
          ≡ contents q ++ frame ∷ [])
        (let e : tail + (head - tail) ≡ head = omega (arith, v.ordered) in e)
        (subst
          (λ n.
            window (set buffer ((tail + (head - tail)) % capacity) frame) capacity tail n
            ≡ contents q ++ frame ∷ [])
          (let e : suc (head - tail) ≡ head + 1 - tail = omega (arith, v.ordered) in e)
          (window-set_next buffer capacity tail (head - tail) frame (sym v.slots) room))

  -- On a valid queue whose `head` and count of drops are below the largest word, `try_push` accepts and
  -- refuses as the bounded FIFO does, and leaves the frames and the counts that the FIFO has.
  pub try_push_refines :
      (frame : Option A)
      → q.head + 1 < word
      → q.dropped + 1 < word
      → (let (q', ok) = try_push q frame in (view q', ok)) ≡ Fifo.push q.capacity (view q) frame
  unfolding try_push Fifo.push
  try_push_refines frame room room' =
      ground (arith, length-window buffer capacity tail (head - tail), window-push frame)

  -- With a free slot and a count that does not wrap the frame joins the contents.
  pub try_push-accepts :
      (frame : Option A)
      → q.head + 1 < word
      → length (contents q) < capacity
      → contents (try_push q frame).0 ≡ contents q ++ frame ∷ []
  unfolding try_push
  try_push-accepts frame room free =
      ground (arith, length-window buffer capacity tail (head - tail), window-push frame)

  -- The state after a `try_pop` that returns a frame.
  abbrev popped : Queue A
  popped = record q { buffer = set buffer (tail % capacity) none; tail = tail + 1 }

  -- Emptying the slot of `tail` leaves the frames behind it.
  window-pop : tail < head → contents popped ≡ window buffer capacity (tail + 1) (head - tail - 1)
  window-pop lt =
      window-set_outside capacity (tail % capacity) none buffer (tail + 1) (head - (tail + 1))
        (λ k h.
          mod_ne capacity tail (tail + 1 + k) (omega arith) (omega (arith, v.fits, v.ordered)))
      ∙ ap (window buffer capacity (tail + 1)) (omega arith)

  -- On a valid queue `try_pop` and the FIFO's `pop` both fail, or both return the same frame and leave
  -- the same frames and counts.
  pub try_pop_refines :
      ((try_pop q ≡ none) × (Fifo.pop (view q) ≡ none))
      ⊎ ((frame : Option A) × (q' : Queue A) × (try_pop q ≡ some (frame, q'))
          × (Fifo.pop (view q) ≡ some (frame, view q')))
  unfolding try_pop Fifo.pop
  try_pop_refines = elim (dec_lt tail head) [
    | yes p ↦ inr (
      get_or buffer (tail % capacity) none,
      popped,
      ground arith,
      ground (arith, window-pop p, window_of_pos buffer capacity tail (head - tail)),
    )
    | no p ↦ inl (ground arith, rw (let e : head - tail ≡ 0 = omega arith in e) refl)
  ]
