-- ===== src/Queue/TwoConsumers.antt =====
-- data/SPSCQueue.cpp with a second thread in `try_pop`, as when `DataPipeline::drain` is called for a request
-- while the publisher thread is in `pop_all`. The queue is made for one consumer.
use sim_vision_sdk.Prelude.{
  ℕ, ◌+◌, ◌-◌, ◌%◌, ◌<◌, ◌≤◌, ◌≡◌, ◌≢◌, refl, sym, subst, ap, ap₂, ◌∙◌, false, Option, none, List,
  [], ◌∷◌, ◌++◌, arith, get_or, set, nat_eq, nat_eq_iff, get_or-set_ne, get_or-set_self, length,
  length-set,
}
use sim_vision_sdk.Queue.{Queue, inc}
use sim_vision_sdk.Queue.Valid.{IsValid}
use sim_vision_sdk.Queue.Refine.{window, contents, mod_ne, window_of_pos, window-set_outside}
use sim_vision_sdk.Queue.Threads.{
  Consumer, resting, loaded_head, Threads, idle, Event, consume, step, pop_step, started,
}

-- The two threads of the queue, and the consumer that should not be there, with what it took.
pub record Contended (A : Type 0) : Type 0 where
  pub threads : Threads A
  pub drainer : Consumer A
  pub drained : List (Option A)

-- What the scheduler picks.
pub data Turn (A : Type 0) : Type 0 where
  proper : Event A → Turn A
  intrude : Turn A

module _ {A : Type 0} where
  -- A step of the second consumer is one of `try_pop` with its own variables.
  abbrev as_drainer : Contended A → Threads A
  as_drainer s = record (s.threads) { consumer = s.drainer; returned = s.drained }

  unfoldable pub turn : Contended A → Turn A → Contended A
  turn s (proper e) = record s { threads = step s.threads e }
  turn s intrude =
      let t = pop_step (as_drainer s) s.drainer in
      record {
        threads = record t { consumer = s.threads.consumer; returned = s.threads.returned };
        drainer = t.consumer;
        drained = t.returned;
      }

  unfoldable pub turns : Contended A → List (Turn A) → Contended A
  unfolding turn
  turns s [] = s
  turns s (e ∷ more) = turns (turn s e) more

  abbrev pub contended : Queue A → Contended A
  contended q = record { threads = started q (contents q); drainer = resting; drained = [] }

  -- a whole `try_pop` of the proper consumer
  abbrev pub one_pop : List (Turn A)
  one_pop = proper consume ∷ proper consume ∷ proper consume ∷ proper consume ∷ []

  -- The second consumer reads both counters, the first pops twice, and the second goes on.
  abbrev pub overtaken : List (Turn A)
  overtaken = (intrude ∷ intrude ∷ []) ++ one_pop ++ one_pop ++ intrude ∷ intrude ∷ []

  -- Where both consumers are, the first outside of `try_pop`.
  abbrev between :
      Queue A → List (Option A) → List (Option A) → Consumer A → List (Option A) → Contended A
  between q accepted returned drainer drained = record {
    threads = record {
      queue = q;
      producer = idle;
      consumer = resting;
      accepted = accepted;
      returned = returned;
    };
    drainer = drainer;
    drained = drained;
  }

  -- what taking slot `t` leaves
  abbrev taken : Queue A → ℕ → Queue A
  taken q t = record q { buffer = set q.buffer (t % q.capacity) none; tail = inc t }

  -- A pop of the first consumer leaves the second where it is.
  turns-one_pop :
      (q : Queue A) (accepted returned : List (Option A)) (d : Consumer A)
      (drained : List (Option A)) (more : List (Turn A))
      → nat_eq q.head q.tail ≡ false
      → turns (between q accepted returned d drained) (one_pop ++ more)
        ≡ turns
            (between
              (taken q q.tail)
              accepted
              (returned ++ get_or q.buffer (q.tail % q.capacity) none ∷ [])
              d
              drained)
            more
  unfolding turns turn step pop_step
  turns-one_pop q accepted returned d drained more e = rw e refl

  -- The second consumer goes on with counters that it read before.
  turns-late :
      (q : Queue A) (accepted returned : List (Option A)) (t h : ℕ) (drained : List (Option A))
      → nat_eq h t ≡ false
      → turns (between q accepted returned (loaded_head t h) drained) (intrude ∷ intrude ∷ [])
        ≡ between
            (taken q t)
            accepted
            returned
            resting
            (drained ++ get_or q.buffer (t % q.capacity) none ∷ [])
  unfolding turns turn step pop_step
  turns-late q accepted returned t h drained e = rw e refl

  -- Emptying a slot before a window leaves the window.
  window-set_before :
      (buf : List (Option A)) (cap i t n : ℕ)
      → i < t
      → t + n ≤ i + cap
      → window (set buf (i % cap) none) cap t n ≡ window buf cap t n
  window-set_before buf cap i t n lt room =
      window-set_outside cap (i % cap) none buf t n
        (λ k h. mod_ne cap i (t + k) (omega arith) (omega arith))

  module _ (q : Queue A) (v : IsValid q) (two : q.tail + 2 ≤ q.head) where
    next : inc q.tail ≡ q.tail + 1
    next = omega (arith, v.bounded)

    abbrev first : Queue A
    first = taken q q.tail

    abbrev second : Queue A
    second = taken first (inc q.tail)

    abbrev left : List (Option A)
    left = window q.buffer q.capacity (q.tail + 2) (q.head - (q.tail + 2))

    abbrev slots : List (Option A)
    slots =
        get_or q.buffer (q.tail % q.capacity) none
        ∷ get_or first.buffer (inc q.tail % q.capacity) none
        ∷ []

    differ : (a b : ℕ) → a < b → nat_eq b a ≡ false
    differ a b lt = ground (arith, nat_eq_iff b a)

    schedule :
        turns (contended q) overtaken
        ≡ between
            (taken second q.tail)
            (contents q)
            slots
            resting
            (get_or second.buffer (q.tail % q.capacity) none ∷ [])
    unfolding turns turn step pop_step
    schedule =
        turns-one_pop q (contents q) [] (loaded_head q.tail q.head) []
          (one_pop ++ intrude ∷ intrude ∷ []) (differ q.tail q.head (omega arith))
        ∙ turns-one_pop first (contents q) (get_or q.buffer (q.tail % q.capacity) none ∷ [])
            (loaded_head q.tail q.head) [] (intrude ∷ intrude ∷ [])
            (differ (inc q.tail) q.head (omega (arith, next)))
        ∙ turns-late second (contents q) slots q.tail q.head [] (differ q.tail q.head (omega arith))

    apart : q.tail % q.capacity ≢ (q.tail + 1) % q.capacity
    apart = mod_ne q.capacity q.tail (q.tail + 1) (omega arith) (omega (arith, v.fits))

    mod_inside : (t : ℕ) → t % q.capacity < length q.buffer
    mod_inside t = omega (arith, v.slots, v.positive)

    -- The two frames and those behind them are what the queue held.
    slots-left : contents q ≡ slots ++ left
    slots-left =
        window_of_pos q.buffer q.capacity q.tail (q.head - q.tail) (omega arith)
        ∙ ap (◌∷◌ (get_or q.buffer (q.tail % q.capacity) none)) (
            window_of_pos q.buffer q.capacity (q.tail + 1) (q.head - q.tail - 1) (omega arith)
            ∙ ap₂ ◌∷◌
                (sym (
                    get_or-set_ne q.buffer (q.tail % q.capacity) ((q.tail + 1) % q.capacity) none
                      none apart)
                  ∙ ap (λ i. get_or first.buffer (i % q.capacity) none) (sym next))
                (ap₂ (window q.buffer q.capacity) (omega arith) (omega arith)))

    -- The slot of the first frame was emptied already.
    slot-empty : get_or second.buffer (q.tail % q.capacity) none ≡ none
    slot-empty =
        get_or-set_ne first.buffer (inc q.tail % q.capacity) (q.tail % q.capacity) none none
          (λ e. apart (sym e ∙ ap (λ i. i % q.capacity) next))
        ∙ get_or-set_self q.buffer (q.tail % q.capacity) none none (mod_inside q.tail)

    nulls : contents (taken second q.tail) ≡ none ∷ left
    nulls =
        let t = inc q.tail in
        let last = (taken second q.tail).buffer in
        window_of_pos last q.capacity t (q.head - t) (omega (arith, next))
        ∙ ap₂ ◌∷◌
            (get_or-set_ne second.buffer (q.tail % q.capacity) (t % q.capacity) none none
                (λ e. apart (e ∙ ap (λ i. i % q.capacity) next))
              ∙ get_or-set_self first.buffer (t % q.capacity) none none (
                  subst (◌<◌ (t % q.capacity))
                    (sym (length-set q.buffer (q.tail % q.capacity) none)) (mod_inside t)))
            (window-set_before second.buffer q.capacity q.tail (t + 1) (q.head - t - 1)
                (omega (arith, next)) (omega (arith, next, v.fits))
              ∙ window-set_before first.buffer q.capacity t (t + 1) (q.head - t - 1) (omega arith)
                  (omega (arith, next, v.fits))
              ∙ window-set_before q.buffer q.capacity q.tail (t + 1) (q.head - t - 1)
                  (omega (arith, next)) (omega (arith, next, v.fits))
              ∙ ap₂ (window q.buffer q.capacity) (omega (arith, next)) (omega (arith, next)))

  -- Let a valid queue hold two frames at least, and let the publisher pop two of them while another thread
  -- has read the counters in `try_pop` and not gone on. Then that thread takes a null pointer, and it sets
  -- `tail` back, so that a null pointer is queued before the frames that are left.
  pub overtaken_lem :
      (q : Queue A)
      → IsValid q
      → q.tail + 2 ≤ q.head
      → let s = turns (contended q) overtaken in
        let left = window q.buffer q.capacity (q.tail + 2) (q.head - (q.tail + 2)) in
        (contents q ≡ s.threads.returned ++ left)
        × (s.drained ≡ none ∷ [])
        × (contents s.threads.queue ≡ none ∷ left)
  overtaken_lem q v two =
      subst
        (λ s.
          let rest = window q.buffer q.capacity (q.tail + 2) (q.head - (q.tail + 2)) in
          (contents q ≡ s.threads.returned ++ rest)
          × (s.drained ≡ none ∷ [])
          × (contents s.threads.queue ≡ none ∷ rest))
        (sym (schedule q v two))
        (slots-left q v two, ap (λ x. x ∷ []) (slot-empty q v two), nulls q v two)
