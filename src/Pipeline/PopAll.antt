-- ===== src/Pipeline/PopAll.antt =====
-- What `pop_all` delivers, and what `drain` discards.
use sim_vision_sdk.Prelude.{
  ◌≡◌, ◌≢◌, ◌⊎◌, refl, ap₂, true, false, Option, List, [], ◌∷◌, ◌++◌, arith,
}
use sim_vision_sdk.Types.{DataGroup, visual_2d, visual_3d, sensor_data}
use sim_vision_sdk.Queue.{pop_while}
use sim_vision_sdk.Queue.Refine.{contents}
use sim_vision_sdk.Queue.Loop.{Drained, pop_while-Drained, pop_while_empty}
use sim_vision_sdk.Pipeline.{
  Pipeline, queue_of, is_nonempty, pushes, sweep, pop_all, drain_group, drain,
}
use sim_vision_sdk.Pipeline.Valid.{AllValid}

pub append-eq-nil : {B : Type 0} (xs ys : List B) → xs ++ ys ≡ [] → (xs ≡ []) × (ys ≡ [])
append-eq-nil [] ys e = (refl, e)
append-eq-nil (x ∷ xs) ys e = ground arith

module _ {A : Type 0} where
  -- The frames that wait in the three queues, in the order in which a sweep takes them.
  abbrev pub pending : Pipeline A → List (Option A)
  pending p = contents p.q2d ++ (contents p.q3d ++ contents p.qsensor)

  pub sweep_lem :
      (p : Pipeline A) → AllValid p → ((sweep p).0 ≡ pending p) × (pending (sweep p).1 ≡ [])
  unfolding sweep
  sweep_lem p v =
      (ap₂ ◌++◌ a.taken (ap₂ ◌++◌ b.taken c.taken), ap₂ ◌++◌ a.left (ap₂ ◌++◌ b.left c.left))
    where
      a : Drained p.q2d (pop_while p.q2d)
      a = pop_while-Drained p.q2d v.0

      b : Drained p.q3d (pop_while p.q3d)
      b = pop_while-Drained p.q3d v.1

      c : Drained p.qsensor (pop_while p.qsensor)
      c = pop_while-Drained p.qsensor v.2

  sweep_empty : (p : Pipeline A) → AllValid p → pending p ≡ [] → sweep p ≡ ([], p)
  unfolding sweep
  sweep_empty p v e =
      let (e₁, e') = append-eq-nil (contents p.q2d) _ e in
      let (e₂, e₃) = append-eq-nil (contents p.q3d) (contents p.qsensor) e' in
      rw (
        pop_while_empty p.q2d v.0 e₁,
        pop_while_empty p.q3d v.1 e₂,
        pop_while_empty p.qsensor v.2 e₃,
      )

  -- The state in which the second sweep starts.
  abbrev pub after_wait :
      Pipeline A → List (DataGroup × Option A) → List (DataGroup × Option A) → Pipeline A
  after_wait p during after = pushes (record (pushes p during) { notified = false }) after

  nonempty : (xs : List (Option A)) → xs ≢ [] → is_nonempty xs ≡ true
  nonempty [] h = absurd (h refl)
  nonempty (x ∷ xs) h = refl

  -- On valid queues with frames pending, `pop_all` returns true and all of them, whatever is pushed later,
  -- and leaves none.
  pub pop_all-pending :
      (p : Pipeline A) (during after : List (DataGroup × Option A))
      → AllValid p
      → pending p ≢ []
      → let (got, out, p') = pop_all p during after in
        (got ≡ true) × (out ≡ pending p) × (pending p' ≡ [])
  unfolding pop_all
  pop_all-pending p during after v ne = ground (arith, sweep_lem p v, nonempty (pending p))

  -- With none pending, `pop_all` returns all that waits after the pushes made meanwhile, says whether there
  -- was anything, and leaves none, if the queues are valid before it and after those pushes.
  pub pop_all_waited :
      (p : Pipeline A) (during after : List (DataGroup × Option A))
      → AllValid p
      → AllValid (after_wait p during after)
      → pending p ≡ []
      → let (got, out, p') = pop_all p during after in
        (got ≡ is_nonempty out) × (out ≡ pending (after_wait p during after)) × (pending p' ≡ [])
  unfolding pop_all
  pop_all_waited p during after v w e =
      let (taken, left) = sweep_lem (after_wait p during after) w in
      rw (sweep_empty p v e) (refl, taken, left)

  -- On valid queues `drain` leaves no frame in any of them.
  pub drain_lem : (p : Pipeline A) → AllValid p → pending (drain p) ≡ []
  unfolding drain drain_group
  drain_lem p v =
      ap₂ ◌++◌ (pop_while-Drained p.q2d v.0).left
        (ap₂ ◌++◌ (pop_while-Drained p.q3d v.1).left (pop_while-Drained p.qsensor v.2).left)

  -- On valid queues `drain_group` empties its group's queue and leaves the other two alone.
  pub drain_group_lem :
      (p : Pipeline A) (g h : DataGroup)
      → AllValid p
      → (contents (queue_of (drain_group p g) g) ≡ [])
        × ((h ≡ g) ⊎ (queue_of (drain_group p g) h ≡ queue_of p h))
  unfolding drain_group
  drain_group_lem p visual_2d h v = (d.left, ground arith)
    where
      d : Drained p.q2d (pop_while p.q2d)
      d = pop_while-Drained p.q2d v.0
  drain_group_lem p visual_3d h v = (d.left, ground arith)
    where
      d : Drained p.q3d (pop_while p.q3d)
      d = pop_while-Drained p.q3d v.1
  drain_group_lem p sensor_data h v = (d.left, ground arith)
    where
      d : Drained p.qsensor (pop_while p.qsensor)
      d = pop_while-Drained p.qsensor v.2
