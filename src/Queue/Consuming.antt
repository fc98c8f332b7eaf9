-- ===== src/Queue/Consuming.antt =====
-- The consumer's steps keep the threads sound.
use sim_vision_sdk.Prelude.{
  ℕ, ◌+◌, ◌-◌, ◌%◌, ◌≤◌, ◌<◌, ◌≡◌, refl, sym, ap, subst, ◌∙◌, Option, none, List, [], ◌∷◌, ◌++◌,
  arith, get_or, set, append_assoc, length-set, get_or-set_ne, nat_eq, Bool-cases, inl, inr,
  nat_eq_iff,
}
use sim_vision_sdk.Queue.{Queue, inc}
use sim_vision_sdk.Queue.Refine.{window, contents, mod_ne, window_of_pos, window-set_outside}
use sim_vision_sdk.Queue.Sound.{Shape, ProducerKnows, ConsumerKnows, held, Sound}
use sim_vision_sdk.Queue.Threads.{
  Producer, idle, read_head, read_tail, wrote, stored, Consumer, resting, loaded_tail, loaded_head,
  took, Threads, pop_step,
}

module _ {A : Type 0} where
  window-set_tail :
      (buf : List (Option A)) (cap t n : ℕ) (v : Option A)
      → n < cap
      → window (set buf (t % cap) v) cap (t + 1) n ≡ window buf cap (t + 1) n
  window-set_tail buf cap t n v lt =
      window-set_outside cap (t % cap) v buf (t + 1) n
        (λ k h e. mod_ne cap t (t + 1 + k) (omega arith) (omega arith) e)

  -- What the producer knows stays true while the consumer empties a slot and moves `tail` on.
  ProducerKnows-take :
      (q : Queue A) (p : Producer A)
      → Shape q
      → q.tail < q.head
      → ProducerKnows q p
      → ProducerKnows (record q { buffer = set q.buffer (q.tail % q.capacity) none }) p
  ProducerKnows-take q idle sh lt k = k
  ProducerKnows-take q (read_head x h) sh lt k = k
  ProducerKnows-take q (read_tail x h t) sh lt k = k
  ProducerKnows-take q (wrote x h) sh lt k = (
    k.0,
    k.1,
    get_or-set_ne q.buffer (q.tail % q.capacity) (q.head % q.capacity) none none
          (mod_ne q.capacity q.tail q.head lt k.1)
        ∙ k.2,
  )
  ProducerKnows-take q stored sh lt k = k

  ProducerKnows-tail :
      (q : Queue A) (p : Producer A)
      → q.tail < q.head
      → ProducerKnows q p
      → ProducerKnows (record q { tail = q.tail + 1 }) p
  ProducerKnows-tail q idle lt k = k
  ProducerKnows-tail q (read_head x h) lt k = k
  ProducerKnows-tail q (read_tail x h t) lt k = (k.0, omega (arith, k.1))
  ProducerKnows-tail q (wrote x h) lt k = (k.0, omega (arith, k.1), k.2)
  ProducerKnows-tail q stored lt k = k

  -- The consumer took the frame of its slot.
  took-Sound :
      (s : Threads A)
      → Shape s.queue
      → ProducerKnows s.queue s.producer
      → s.returned ++ contents s.queue ≡ s.accepted
      → s.queue.tail < s.queue.head
      → Sound (record s {
        queue = record (s.queue) {
          buffer = set s.queue.buffer (s.queue.tail % s.queue.capacity) none;
        };
        consumer = took s.queue.tail (get_or s.queue.buffer (s.queue.tail % s.queue.capacity) none);
      })
  took-Sound s sh k f lt =
      let q = s.queue in
      record {
        shape = record {
          positive = sh.positive;
          slots = length-set q.buffer (q.tail % q.capacity) none ∙ sh.slots;
          ordered = sh.ordered;
          fits = sh.fits;
          bounded = sh.bounded;
        };
        producing = ProducerKnows-take q s.producer sh lt k;
        consuming = (refl, lt);
        flow =
            ap (λ xs. s.returned ++ get_or q.buffer (q.tail % q.capacity) none ∷ xs)
              (window-set_tail q.buffer q.capacity q.tail (q.head - q.tail - 1) none
                (omega (arith, sh.fits)))
            ∙ ap (◌++◌ s.returned)
                (sym (window_of_pos q.buffer q.capacity q.tail (q.head - q.tail) (omega arith)))
            ∙ f;
      }

  -- The consumer moved `tail` on.
  returned-Sound :
      (s : Threads A) (frame : Option A)
      → Shape s.queue
      → ProducerKnows s.queue s.producer
      → s.returned ++ held s.queue (took s.queue.tail frame) ≡ s.accepted
      → s.queue.tail < s.queue.head
      → Sound (record s {
        queue = record (s.queue) { tail = s.queue.tail + 1 };
        consumer = resting;
        returned = s.returned ++ frame ∷ [];
      })
  returned-Sound s frame sh k f lt =
      let q = s.queue in
      let left : q.head - (q.tail + 1) ≡ q.head - q.tail - 1 = omega arith in
      record {
        shape = record {
          positive = sh.positive;
          slots = sh.slots;
          ordered = lt_le lt;
          fits = omega (arith, sh.fits);
          bounded = sh.bounded;
        };
        producing = ProducerKnows-tail q s.producer lt k;
        consuming = tt;
        flow =
            append_assoc s.returned (frame ∷ []) _
            ∙ ap (λ n. s.returned ++ frame ∷ window q.buffer q.capacity (q.tail + 1) n) left
            ∙ f;
      }
    where
      lt_le : {a b : ℕ} → a < b → a + 1 ≤ b
      lt_le h = omega arith

  -- Each step of the consumer keeps the threads sound.
  pub pop_step-Sound :
      (s : Threads A) (c : Consumer A)
      → Shape s.queue
      → ProducerKnows s.queue s.producer
      → ConsumerKnows s.queue c
      → s.returned ++ held s.queue c ≡ s.accepted
      → Sound (pop_step s c)
  unfolding pop_step
  pop_step-Sound s resting sh k c f = record {
    shape = sh;
    producing = k;
    consuming = refl;
    flow = f;
  }
  pop_step-Sound s (loaded_tail t) sh k c f = record {
    shape = sh;
    producing = k;
    consuming = (c, sh.ordered, omega arith);
    flow = f;
  }
  pop_step-Sound s (loaded_head t h) sh k c f = elim (Bool-cases (nat_eq h t)) [
    | inl e ↦ rw e (record { shape = sh; producing = k; consuming = tt; flow = f })
    | inr e ↦ rw e (
        subst
          (λ i. Sound (record s {
            queue = record (s.queue) { buffer = set s.queue.buffer (i % s.queue.capacity) none };
            consumer = took i (get_or s.queue.buffer (i % s.queue.capacity) none);
          }))
          (sym c.0) (took-Sound s sh k f (ground (arith, nat_eq_iff h t, e, c))))
  ]
  pop_step-Sound s (took t frame) sh k c f =
      subst
        (λ i. Sound (record s {
          queue = record (s.queue) { tail = i };
          consumer = resting;
          returned = s.returned ++ frame ∷ [];
        }))
        (let next : s.queue.tail + 1 ≡ inc t = omega (arith, c.0, c.1, sh.bounded) in next)
        (returned-Sound s frame sh k f c.1)
