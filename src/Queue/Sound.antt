-- ===== src/Queue/Sound.antt =====
-- What holds between any two steps of the two threads.
use sim_vision_sdk.Prelude.{
  ◌+◌, ◌-◌, ◌%◌, ◌≤◌, ◌<◌, ◌≡◌, Option, none, List, ◌∷◌, ◌++◌, length, get_or,
}
use sim_vision_sdk.Queue.{Queue, word}
use sim_vision_sdk.Queue.Refine.{window, contents}
use sim_vision_sdk.Queue.Threads.{
  Producer, idle, read_head, read_tail, wrote, stored, Consumer, resting, loaded_tail, loaded_head,
  took, Threads,
}

module _ {A : Type 0} where
  -- The shape of the queue while both threads work on it.
  pub record Shape (q : Queue A) : Type 0 where
    pub positive : 1 ≤ q.capacity
    pub slots : length q.buffer ≡ q.capacity
    pub ordered : q.tail ≤ q.head
    pub fits : q.head - q.tail ≤ q.capacity
    pub bounded : q.head < word

  -- What the producer knows.
  abbrev pub ProducerKnows : Queue A → Producer A → Type 0
  ProducerKnows q idle = Unit {0}
  ProducerKnows q (read_head frame h) = h ≡ q.head
  ProducerKnows q (read_tail frame h t) = (h ≡ q.head) × (t ≤ q.tail)
  ProducerKnows q (wrote frame h) =
      (h ≡ q.head)
      × (q.head - q.tail < q.capacity)
      × (get_or q.buffer (q.head % q.capacity) none ≡ frame)
  ProducerKnows q stored = Unit {0}

  -- What the consumer knows.
  abbrev pub ConsumerKnows : Queue A → Consumer A → Type 0
  ConsumerKnows q resting = Unit {0}
  ConsumerKnows q (loaded_tail t) = t ≡ q.tail
  ConsumerKnows q (loaded_head t h) = (t ≡ q.tail) × (q.tail ≤ h) × (h ≤ q.head)
  ConsumerKnows q (took t frame) = (t ≡ q.tail) × (q.tail < q.head)

  -- The frames on their way: those in the queue, and the one that the consumer holds.
  abbrev pub held : Queue A → Consumer A → List (Option A)
  held q resting = contents q
  held q (loaded_tail _) = contents q
  held q (loaded_head _ _) = contents q
  held q (took t frame) = frame ∷ window q.buffer q.capacity (q.tail + 1) (q.head - q.tail - 1)

  pub record Sound (s : Threads A) : Type 0 where
    pub shape : Shape s.queue
    pub producing : ProducerKnows s.queue s.producer
    pub consuming : ConsumerKnows s.queue s.consumer
    pub flow : s.returned ++ held s.queue s.consumer ≡ s.accepted
