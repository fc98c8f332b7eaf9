-- ===== src/Queue/Producing.antt =====
-- The producer's steps keep the threads sound.
use sim_vision_sdk.Prelude.{
  ◌+◌, ◌-◌, ◌%◌, ◌<◌, ◌≡◌, refl, sym, ap, ap₂, subst, ◌∙◌, Option, none, [], ◌∷◌, ◌++◌, arith,
  get_or, set, append_assoc, length-set, get_or-set_self, leb, Bool-cases, inl, inr,
}
use sim_vision_sdk.Queue.{word, inc, sub}
use sim_vision_sdk.Queue.Sound.{Shape, ProducerKnows, ConsumerKnows, held, Sound}
use sim_vision_sdk.Queue.Threads.{
  Producer, idle, read_head, read_tail, wrote, stored, Threads, push_step,
}
use sim_vision_sdk.Queue.Filled.{
  held-set_head, held-head, ConsumerKnows-push, held-counts, Shape-counts, ConsumerKnows-counts,
}

module _ {A : Type 0} where
  -- The producer wrote its slot.
  wrote-Sound :
      (s : Threads A) (frame : Option A)
      → Shape s.queue
      → ConsumerKnows s.queue s.consumer
      → s.returned ++ held s.queue s.consumer ≡ s.accepted
      → s.queue.head - s.queue.tail < s.queue.capacity
      → Sound (record s {
        queue = record (s.queue) {
          buffer = set s.queue.buffer (s.queue.head % s.queue.capacity) frame;
        };
        producer = wrote frame s.queue.head;
      })
  wrote-Sound s frame sh c f room =
      let q = s.queue in
      record {
        shape = record {
          positive = sh.positive;
          slots = length-set q.buffer (q.head % q.capacity) frame ∙ sh.slots;
          ordered = sh.ordered;
          fits = sh.fits;
          bounded = sh.bounded;
        };
        producing = (
          refl,
          room,
          get_or-set_self q.buffer (q.head % q.capacity) frame none
              (omega (arith, sh.slots, sh.positive)),
        );
        consuming =
            ConsumerKnows-push q s.consumer (set q.buffer (q.head % q.capacity) frame) q.head
              (omega arith) c;
        flow = ap (◌++◌ s.returned) (held-set_head q s.consumer frame sh c room) ∙ f;
      }

  -- The producer moved `head` on.
  stored-Sound :
      (s : Threads A) (frame : Option A)
      → s.queue.head + 1 < word
      → Shape s.queue
      → ConsumerKnows s.queue s.consumer
      → s.returned ++ held s.queue s.consumer ≡ s.accepted
      → s.queue.head - s.queue.tail < s.queue.capacity
      → get_or s.queue.buffer (s.queue.head % s.queue.capacity) none ≡ frame
      → Sound (record s {
        queue = record (s.queue) { head = s.queue.head + 1 };
        producer = stored;
        accepted = s.accepted ++ frame ∷ [];
      })
  stored-Sound s frame wide sh c f room slot =
      let q = s.queue in
      record {
        shape = record {
          positive = sh.positive;
          slots = sh.slots;
          ordered = omega (arith, sh.ordered);
          fits = omega arith;
          bounded = wide;
        };
        producing = tt;
        consuming = ConsumerKnows-push q s.consumer q.buffer (q.head + 1) (omega arith) c;
        flow =
            ap (◌++◌ s.returned) (held-head q s.consumer sh c)
            ∙ sym (append_assoc s.returned (held q s.consumer) _)
            ∙ ap₂ (λ xs y. xs ++ y ∷ []) f slot;
      }

  -- Each step of the producer keeps the threads sound, as long as `head` does not wrap.
  pub push_step-Sound :
      (s : Threads A) (frame : Option A) (p : Producer A)
      → s.producer ≡ p
      → s.queue.head + 1 < word
      → Shape s.queue
      → ProducerKnows s.queue p
      → ConsumerKnows s.queue s.consumer
      → s.returned ++ held s.queue s.consumer ≡ s.accepted
      → Sound (push_step s frame p)
  unfolding push_step
  push_step-Sound s frame idle e room sh k c f = record {
    shape = sh;
    producing = refl;
    consuming = c;
    flow = f;
  }
  push_step-Sound s frame (read_head x h) e room sh k c f = record {
    shape = sh;
    producing = (k, omega arith);
    consuming = c;
    flow = f;
  }
  push_step-Sound s frame (read_tail x h t) e room sh k c f =
      elim (Bool-cases (leb s.queue.capacity (sub h t))) [
        | inl full ↦ rw full (record {
          shape = Shape-counts s.queue s.queue.pushed (inc s.queue.dropped) sh;
          producing = tt;
          consuming =
              ConsumerKnows-counts s.queue s.consumer s.queue.pushed (inc s.queue.dropped) c;
          flow =
              ap (◌++◌ s.returned)
                (held-counts s.queue s.consumer s.queue.pushed (inc s.queue.dropped))
              ∙ f;
        })
        | inr free ↦ rw free (written_at k.0 (ground (arith, free, k.0, k.1)))
      ]
    where
      written_at :
          h ≡ s.queue.head
          → s.queue.head - s.queue.tail < s.queue.capacity
          → Sound (record s {
            queue = record (s.queue) { buffer = set s.queue.buffer (h % s.queue.capacity) x };
            producer = wrote x h;
          })
      written_at same room' =
          subst
            (λ i. Sound (record s {
              queue = record (s.queue) { buffer = set s.queue.buffer (i % s.queue.capacity) x };
              producer = wrote x i;
            }))
            (sym same) (wrote-Sound s x sh c f room')
  push_step-Sound s frame (wrote x h) e room sh k c f =
      subst
        (λ i. Sound (record s {
          queue = record (s.queue) { head = i };
          producer = stored;
          accepted = s.accepted ++ x ∷ [];
        }))
        (let next : s.queue.head + 1 ≡ inc h = omega (arith, k.0) in next)
        (stored-Sound s x room sh c f k.1 k.2)
  push_step-Sound s frame stored e room sh k c f = record {
    shape = Shape-counts s.queue (inc s.queue.pushed) s.queue.dropped sh;
    producing = tt;
    consuming = ConsumerKnows-counts s.queue s.consumer (inc s.queue.pushed) s.queue.dropped c;
    flow =
        ap (◌++◌ s.returned) (held-counts s.queue s.consumer (inc s.queue.pushed) s.queue.dropped)
        ∙ f;
  }
