-- ===== src/Queue/Filled.antt =====
-- data/SPSCQueue.cpp: a write into the slot of `head`, and the counts, leave what the producer and the consumer know.
use sim_vision_sdk.Prelude.{
  ℕ, suc, ◌+◌, ◌-◌, ◌%◌, ◌≤◌, ◌<◌, ◌≡◌, refl, sym, ap, ◌∙◌, Option, none, List, [], ◌∷◌, ◌++◌,
  arith, get_or, set,
}
use sim_vision_sdk.Queue.{Queue}
use sim_vision_sdk.Queue.Refine.{window, contents, mod_ne, window-snoc, window-set_outside}
use sim_vision_sdk.Queue.Sound.{Shape, ConsumerKnows, held}
use sim_vision_sdk.Queue.Threads.{Consumer, resting, loaded_tail, loaded_head, took}

module _ {A : Type 0} where
  window-set_head :
      (buf : List (Option A)) (cap h t n : ℕ) (v : Option A)
      → t + n ≤ h
      → h - t < cap
      → window (set buf (h % cap) v) cap t n ≡ window buf cap t n
  window-set_head buf cap h t n v le room =
      window-set_outside cap (h % cap) v buf t n
        (λ k lt e. mod_ne cap (t + k) h (omega arith) (omega arith) (sym e))

  -- Writing the free slot behind the last frame leaves the frames on their way.
  pub held-set_head :
      (q : Queue A) (c : Consumer A) (v : Option A)
      → Shape q
      → ConsumerKnows q c
      → q.head - q.tail < q.capacity
      → held (record q { buffer = set q.buffer (q.head % q.capacity) v }) c ≡ held q c
  held-set_head q resting v sh k room =
      window-set_head q.buffer q.capacity q.head q.tail (q.head - q.tail) v
        (omega (arith, sh.ordered)) room
  held-set_head q (loaded_tail _) v sh k room =
      window-set_head q.buffer q.capacity q.head q.tail (q.head - q.tail) v
        (omega (arith, sh.ordered)) room
  held-set_head q (loaded_head _ _) v sh k room =
      window-set_head q.buffer q.capacity q.head q.tail (q.head - q.tail) v
        (omega (arith, sh.ordered)) room
  held-set_head q (took t frame) v sh k room = ap (◌∷◌ frame) (
      window-set_head q.buffer q.capacity q.head (q.tail + 1) (q.head - q.tail - 1) v
        (omega (arith, k.1)) (omega arith))

  window-grow :
      (buf : List (Option A)) (cap h t n : ℕ)
      → t + n ≡ h
      → window buf cap t (n + 1) ≡ window buf cap t n ++ get_or buf (h % cap) none ∷ []
  window-grow buf cap h t n e =
      (let one_more : n + 1 ≡ suc n = omega arith in ap (window buf cap t) one_more)
      ∙ window-snoc buf cap t n
      ∙ ap (λ i. window buf cap t n ++ get_or buf (i % cap) none ∷ []) e

  contents-head :
      (q : Queue A)
      → Shape q
      → contents (record q { head = q.head + 1 })
        ≡ contents q ++ get_or q.buffer (q.head % q.capacity) none ∷ []
  contents-head q sh =
      let e : q.head + 1 - q.tail ≡ q.head - q.tail + 1 = omega (arith, sh.ordered) in
      ap (window q.buffer q.capacity q.tail) e
      ∙ window-grow q.buffer q.capacity q.head q.tail (q.head - q.tail) (omega (arith, sh.ordered))

  -- Moving `head` on adds the frame of its slot.
  pub held-head :
      (q : Queue A) (c : Consumer A)
      → Shape q
      → ConsumerKnows q c
      → held (record q { head = q.head + 1 }) c
        ≡ held q c ++ get_or q.buffer (q.head % q.capacity) none ∷ []
  held-head q resting sh k = contents-head q sh
  held-head q (loaded_tail _) sh k = contents-head q sh
  held-head q (loaded_head _ _) sh k = contents-head q sh
  held-head q (took t frame) sh k =
      let e : q.head + 1 - q.tail - 1 ≡ q.head - q.tail - 1 + 1 = omega (arith, k.1) in
      ap (◌∷◌ frame) (
        ap (window q.buffer q.capacity (q.tail + 1)) e
        ∙ window-grow q.buffer q.capacity q.head (q.tail + 1) (q.head - q.tail - 1)
            (omega (arith, k.1)))

  -- What the consumer knows stays true while the producer writes and moves `head` on.
  pub ConsumerKnows-push :
      (q : Queue A) (c : Consumer A) (buf : List (Option A)) (h : ℕ)
      → q.head ≤ h
      → ConsumerKnows q c
      → ConsumerKnows (record q { buffer = buf; head = h }) c
  ConsumerKnows-push q resting buf h le k = tt
  ConsumerKnows-push q (loaded_tail t) buf h le k = k
  ConsumerKnows-push q (loaded_head t h') buf h le k = (k.0, k.1, omega (arith, k.2))
  ConsumerKnows-push q (took t frame) buf h le k = (k.0, omega (arith, k.1))

  -- The counts of pushed and dropped frames do not matter to the consumer.
  pub held-counts :
      (q : Queue A) (c : Consumer A) (n m : ℕ)
      → held (record q { pushed = n; dropped = m }) c ≡ held q c
  held-counts q resting n m = refl
  held-counts q (loaded_tail _) n m = refl
  held-counts q (loaded_head _ _) n m = refl
  held-counts q (took _ _) n m = refl

  pub Shape-counts :
      (q : Queue A) (n m : ℕ) → Shape q → Shape (record q { pushed = n; dropped = m })
  Shape-counts q n m sh = record {
    positive = sh.positive;
    slots = sh.slots;
    ordered = sh.ordered;
    fits = sh.fits;
    bounded = sh.bounded;
  }

  pub ConsumerKnows-counts :
      (q : Queue A) (c : Consumer A) (n m : ℕ)
      → ConsumerKnows q c
      → ConsumerKnows (record q { pushed = n; dropped = m }) c
  ConsumerKnows-counts q resting n m k = k
  ConsumerKnows-counts q (loaded_tail _) n m k = k
  ConsumerKnows-counts q (loaded_head _ _) n m k = k
  ConsumerKnows-counts q (took _ _) n m k = k
