-- ===== src/Queue/Interleaving.antt =====
-- Whatever the order of their steps, one producer and one consumer pass the frames on in order, and none
-- is lost or repeated.
use sim_vision_sdk.Prelude.{◌+◌, ◌-◌, ◌≤◌, ◌<◌, ◌≡◌, refl, List, [], ◌∷◌, ◌++◌, arith, length}
use sim_vision_sdk.Queue.{Queue, word}
use sim_vision_sdk.Queue.Refine.{contents, length-window}
use sim_vision_sdk.Queue.Sound.{ProducerKnows, ConsumerKnows, held, Sound}
use sim_vision_sdk.Queue.Producing.{push_step-Sound}
use sim_vision_sdk.Queue.Consuming.{pop_step-Sound}
use sim_vision_sdk.Queue.Valid.{IsValid}
use sim_vision_sdk.Queue.Threads.{
  Producer, idle, read_head, read_tail, wrote, stored, Consumer, resting, loaded_tail, loaded_head,
  took, Threads, Event, produce, consume, push_step, pop_step, step, run, started,
}

module _ {A : Type 0} where
  -- One step moves `head` on by one at most.
  step-head :
      (s : Threads A) (e : Event A)
      → Sound s
      → s.queue.head + 1 < word
      → (step s e).queue.head ≤ s.queue.head + 1
  unfolding step push_step pop_step
  step-head s (produce frame) v room = go s.producer v.producing
    where
      go :
          (p : Producer A)
          → ProducerKnows s.queue p
          → (push_step s frame p).queue.head ≤ s.queue.head + 1
      go idle e = omega arith
      go (read_head x h) e = omega arith
      go (read_tail x h t) e = ground arith
      go (wrote x h) e = omega (arith, e.0)
      go stored e = omega arith
  step-head s consume v room = go s.consumer
    where
      go : (c : Consumer A) → (pop_step s c).queue.head ≤ s.queue.head + 1
      go resting = omega arith
      go (loaded_tail t) = omega arith
      go (loaded_head t h) = ground arith
      go (took t frame) = omega arith

  step-Sound : (s : Threads A) (e : Event A) → s.queue.head + 1 < word → Sound s → Sound (step s e)
  unfolding step
  step-Sound s (produce frame) room v =
      push_step-Sound s frame s.producer refl room v.shape v.producing v.consuming v.flow
  step-Sound s consume room v = pop_step-Sound s s.consumer v.shape v.producing v.consuming v.flow

  -- Every schedule keeps the threads sound.
  run-Sound :
      (s : Threads A) (events : List (Event A))
      → s.queue.head + length events < word
      → Sound s
      → Sound (run s events)
  unfolding run
  run-Sound s [] room v = v
  run-Sound s (e ∷ more) room v =
      run-Sound (step s e) more (omega (arith, step-head s e v (omega arith)))
        (step-Sound s e (omega arith) v)

  started-Sound : (q : Queue A) → IsValid q → Sound (started q (contents q))
  started-Sound q v = record {
    shape = record {
      positive = v.positive;
      slots = v.slots;
      ordered = v.ordered;
      fits = v.fits;
      bounded = v.bounded;
    };
    producing = tt;
    consuming = tt;
    flow = refl;
  }

  length-held :
      (q : Queue A) (c : Consumer A) → ConsumerKnows q c → length (held q c) ≡ q.head - q.tail
  length-held q resting k = length-window q.buffer q.capacity q.tail (q.head - q.tail)
  length-held q (loaded_tail _) k = length-window q.buffer q.capacity q.tail (q.head - q.tail)
  length-held q (loaded_head _ _) k = length-window q.buffer q.capacity q.tail (q.head - q.tail)
  length-held q (took t frame) k =
      omega (arith, k.1, length-window q.buffer q.capacity (q.tail + 1) (q.head - q.tail - 1))

  -- Start the two threads on a valid queue and let their steps interleave in any order, `head` staying below
  -- the largest word: the frames that `try_pop` returned, followed by those still on their way, are exactly
  -- the frames that the queue held and that `try_push` accepted, in that order, and at most `capacity` are
  -- on their way.
  pub run_in_order :
      (q : Queue A) (events : List (Event A))
      → IsValid q
      → q.head + length events < word
      → let s = run (started q (contents q)) events in
        (s.returned ++ held s.queue s.consumer ≡ s.accepted)
        × (length (held s.queue s.consumer) ≤ s.queue.capacity)
  run_in_order q events v room =
      let s = run (started q (contents q)) events in
      let w : Sound s = run-Sound (started q (contents q)) events room (started-Sound q v) in
      (w.flow, omega (arith, length-held s.queue s.consumer w.consuming, w.shape.fits))
