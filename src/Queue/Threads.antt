-- ===== src/Queue/Threads.antt =====
-- data/SPSCQueue.cpp as its two threads run it: one producer in `try_push` and one consumer in `try_pop`,
-- with a step for each access to memory that the other thread shares. A release store is seen by the
-- acquire load that reads it, with all that came before, so a step sees the memory as it is.
use sim_vision_sdk.Prelude.{
  ℕ, ◌%◌, Option, none, List, [], ◌∷◌, ◌++◌, leb, nat_eq, if◌then◌else◌, get_or, set,
}
use sim_vision_sdk.Queue.{Queue, inc, sub}

-- Where the producer is: outside, after `head_.load`, after `tail_.load`, after the slot was written, and
-- after `head_.store`.
pub data Producer (A : Type 0) : Type 0 where
  idle : Producer A
  read_head : Option A → ℕ → Producer A
  read_tail : Option A → ℕ → ℕ → Producer A
  wrote : Option A → ℕ → Producer A
  stored : Producer A

-- Where the consumer is: outside, after `tail_.load`, after `head_.load`, and after the slot was taken.
pub data Consumer (A : Type 0) : Type 0 where
  resting : Consumer A
  loaded_tail : ℕ → Consumer A
  loaded_head : ℕ → ℕ → Consumer A
  took : ℕ → Option A → Consumer A

-- The shared queue, the two threads, the frames that `try_push` accepted and those that `try_pop`
-- returned, oldest first.
pub record Threads (A : Type 0) : Type 0 where
  pub queue : Queue A
  pub producer : Producer A
  pub consumer : Consumer A
  pub accepted : List (Option A)
  pub returned : List (Option A)

-- What the scheduler picks: the producer, with the frame of its next call, or the consumer.
pub data Event (A : Type 0) : Type 0 where
  produce : Option A → Event A
  consume : Event A

module _ {A : Type 0} where
  -- one step of `try_push`
  unfoldable pub push_step : Threads A → Option A → Producer A → Threads A
  push_step s frame idle = record s { producer = read_head frame s.queue.head }
  push_step s _ (read_head frame h) = record s { producer = read_tail frame h s.queue.tail }
  push_step s _ (read_tail frame h t) =
      if leb s.queue.capacity (sub h t)
      then record s { queue = record (s.queue) { dropped = inc s.queue.dropped }; producer = idle }
      else record s {
        queue = record (s.queue) { buffer = set s.queue.buffer (h % s.queue.capacity) frame };
        producer = wrote frame h;
      }
  push_step s _ (wrote frame h) = record s {
    queue = record (s.queue) { head = inc h };
    producer = stored;
    accepted = s.accepted ++ frame ∷ [];
  }
  push_step s _ stored = record s {
    queue = record (s.queue) { pushed = inc s.queue.pushed };
    producer = idle;
  }

  -- one step of `try_pop`
  unfoldable pub pop_step : Threads A → Consumer A → Threads A
  pop_step s resting = record s { consumer = loaded_tail s.queue.tail }
  pop_step s (loaded_tail t) = record s { consumer = loaded_head t s.queue.head }
  pop_step s (loaded_head t h) = if nat_eq h t then record s { consumer = resting } else record s {
    queue = record (s.queue) { buffer = set s.queue.buffer (t % s.queue.capacity) none };
    consumer = took t (get_or s.queue.buffer (t % s.queue.capacity) none);
  }
  pop_step s (took t frame) = record s {
    queue = record (s.queue) { tail = inc t };
    consumer = resting;
    returned = s.returned ++ frame ∷ [];
  }

  unfoldable pub step : Threads A → Event A → Threads A
  step s (produce frame) = push_step s frame s.producer
  step s consume = pop_step s s.consumer

  -- A schedule: the steps in the order in which they happen.
  unfoldable pub run : Threads A → List (Event A) → Threads A
  run s [] = s
  run s (e ∷ more) = run (step s e) more

  -- Both threads are about to start.
  abbrev pub started : Queue A → List (Option A) → Threads A
  started q frames = record {
    queue = q;
    producer = idle;
    consumer = resting;
    accepted = frames;
    returned = [];
  }
