-- ===== src/Pipeline/Valid.antt =====
-- The three queues of a pipeline are valid after every operation.
use sim_vision_sdk.Prelude.{ℕ, ◌+◌, ◌<◌, Option}
use sim_vision_sdk.Types.{DataGroup, visual_2d, visual_3d, sensor_data}
use sim_vision_sdk.Queue.{Queue, word}
use sim_vision_sdk.Queue.Valid.{IsValid, make-IsValid, try_push-IsValid}
use sim_vision_sdk.Queue.Loop.{pop_while-Drained}
use sim_vision_sdk.Pipeline.{
  Pipeline, queue_of, with_queue, make_pipeline, push, sweep, drain_group, drain,
}

abbrev pub AllValid : {A : Type 0} → Pipeline A → Type 0
AllValid p = IsValid p.q2d × IsValid p.q3d × IsValid p.qsensor

module _ {A : Type 0} where
  pub queue-IsValid : (p : Pipeline A) (g : DataGroup) → AllValid p → IsValid (queue_of p g)
  queue-IsValid p visual_2d v = v.0
  queue-IsValid p visual_3d v = v.1
  queue-IsValid p sensor_data v = v.2

  pub with_queue-AllValid :
      (p : Pipeline A) (g : DataGroup) (q : Queue A)
      → AllValid p
      → IsValid q
      → AllValid (with_queue p g q)
  with_queue-AllValid p visual_2d q v w = (w, v.1, v.2)
  with_queue-AllValid p visual_3d q v w = (v.0, w, v.2)
  with_queue-AllValid p sensor_data q v w = (v.0, v.1, w)

  pub make_pipeline-AllValid : (n : ℕ) → AllValid (make_pipeline {A = A} n)
  unfolding make_pipeline
  make_pipeline-AllValid n = (make-IsValid n, make-IsValid n, make-IsValid n)

  -- `push` keeps the three queues valid, as long as the counter of its queue does not wrap.
  pub push-AllValid :
      (p : Pipeline A) (g : DataGroup) (frame : Option A)
      → (queue_of p g).head + 1 < word
      → AllValid p
      → AllValid (push p g frame).0
  unfolding push
  push-AllValid p visual_2d frame room v = (try_push-IsValid _ frame room v.0, v.1, v.2)
  push-AllValid p visual_3d frame room v = (v.0, try_push-IsValid _ frame room v.1, v.2)
  push-AllValid p sensor_data frame room v = (v.0, v.1, try_push-IsValid _ frame room v.2)

  pub sweep-AllValid : (p : Pipeline A) → AllValid p → AllValid (sweep p).1
  unfolding sweep
  sweep-AllValid p v = (
    (pop_while-Drained p.q2d v.0).valid,
    (pop_while-Drained p.q3d v.1).valid,
    (pop_while-Drained p.qsensor v.2).valid,
  )

  pub drain_group-AllValid :
      (p : Pipeline A) (g : DataGroup) → AllValid p → AllValid (drain_group p g)
  unfolding drain_group
  drain_group-AllValid p g v =
      with_queue-AllValid p g _ v (pop_while-Drained _ (queue-IsValid p g v)).valid

  pub drain-AllValid : (p : Pipeline A) → AllValid p → AllValid (drain p)
  unfolding drain
  drain-AllValid p v =
      let a = drain_group p visual_2d in
      let b = drain_group a visual_3d in
      drain_group-AllValid b sensor_data
        (drain_group-AllValid a visual_3d (drain_group-AllValid p visual_2d v))
