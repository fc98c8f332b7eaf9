-- ===== src/Pipeline.antt =====
-- data/DataPipeline.h and data/DataPipeline.cpp: three queues, one for each group, and the flag under
-- which the consumer waits. What other threads do while `pop_all` waits is an argument of it.
pub mod Valid
pub mod PopAll
pub mod Pushed
use sim_vision_sdk.Prelude.{
  ℕ, Bool, true, false, Option, none, some, List, [], ◌∷◌, ◌++◌, if◌then◌else◌,
}
use sim_vision_sdk.Types.{DataGroup, visual_2d, visual_3d, sensor_data}
use sim_vision_sdk.Queue.{Queue, make, try_push, pop_while, size}

-- `DataPipeline`
pub record Pipeline (A : Type 0) : Type 0 where
  pub q2d : Queue A
  pub q3d : Queue A
  pub qsensor : Queue A
  pub notified : Bool

-- `PipelineStats`
pub record PipelineStats : Type 0 where
  pub pushed_2d : ℕ
  pub pushed_3d : ℕ
  pub pushed_sensor : ℕ
  pub dropped_2d : ℕ
  pub dropped_3d : ℕ
  pub dropped_sensor : ℕ
  pub queue_2d : ℕ
  pub queue_3d : ℕ
  pub queue_sensor : ℕ

abbrev pub is_nonempty : {A : Type 0} → List A → Bool
is_nonempty [] = false
is_nonempty (_ ∷ _) = true

module _ {A : Type 0} where
  abbrev pub queue_of : Pipeline A → DataGroup → Queue A
  queue_of p visual_2d = p.q2d
  queue_of p visual_3d = p.q3d
  queue_of p sensor_data = p.qsensor

  abbrev pub with_queue : Pipeline A → DataGroup → Queue A → Pipeline A
  with_queue p visual_2d q = record p { q2d = q }
  with_queue p visual_3d q = record p { q3d = q }
  with_queue p sensor_data q = record p { qsensor = q }

  -- the constructor
  unfoldable pub make_pipeline : ℕ → Pipeline A
  make_pipeline queue_capacity = record {
    q2d = make queue_capacity;
    q3d = make queue_capacity;
    qsensor = make queue_capacity;
    notified = false;
  }

  -- `push`: the frame goes to its group's queue; the consumer is notified whether it was taken or not.
  unfoldable pub push : Pipeline A → DataGroup → Option A → Pipeline A × Bool
  push p g frame =
      let (q, ok) = try_push (queue_of p g) frame in
      (record (with_queue p g q) { notified = true }, ok)

  -- The pushes that other threads make, in their order.
  unfoldable pub pushes : Pipeline A → List (DataGroup × Option A) → Pipeline A
  unfolding push
  pushes p [] = p
  pushes p ((g, frame) ∷ more) = pushes (push p g frame).0 more

  -- The three loops of `pop_all`: what they append to `out`.
  unfoldable pub sweep : Pipeline A → List (Option A) × Pipeline A
  sweep p =
      let (xs, a) = pop_while p.q2d in
      let (ys, b) = pop_while p.q3d in
      let (zs, c) = pop_while p.qsensor in
      (xs ++ (ys ++ zs), record p { q2d = a; q3d = b; qsensor = c })

  -- `pop_all`: `during` are the pushes until the flag is reset, `after` those between the reset and the
  -- second sweep. The result is the returned value, `out` and the new state.
  unfoldable pub pop_all :
      Pipeline A
      → List (DataGroup × Option A)
      → List (DataGroup × Option A)
      → Bool × List (Option A) × Pipeline A
  pop_all p during after =
      let (xs, p') = sweep p in
      if is_nonempty xs
      then (true, xs, p')
      else (let (ys, p'') = sweep (pushes (record (pushes p' during) { notified = false }) after) in
          (is_nonempty ys, ys, p''))

  unfoldable pub drain_group : Pipeline A → DataGroup → Pipeline A
  drain_group p g = with_queue p g (pop_while (queue_of p g)).1

  unfoldable pub drain : Pipeline A → Pipeline A
  unfolding drain_group
  drain p = drain_group (drain_group (drain_group p visual_2d) visual_3d) sensor_data

  unfoldable pub stats : Pipeline A → PipelineStats
  stats p = record {
    pushed_2d = p.q2d.pushed;
    pushed_3d = p.q3d.pushed;
    pushed_sensor = p.qsensor.pushed;
    dropped_2d = p.q2d.dropped;
    dropped_3d = p.q3d.dropped;
    dropped_sensor = p.qsensor.dropped;
    queue_2d = size p.q2d;
    queue_3d = size p.q3d;
    queue_sensor = size p.qsensor;
  }

  unfoldable pub capacity : Pipeline A → ℕ
  capacity p = p.q2d.capacity
