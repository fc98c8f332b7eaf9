-- ===== src/Pipeline/Pushed.antt =====
-- data/DataPipeline.cpp: what several pushes leave in the queues.
use sim_vision_sdk.Prelude.{
  ℕ, suc, ◌+◌, ◌≤◌, ◌<◌, ◌≡◌, refl, sym, ap, ◌∙◌, Bool, true, false, Option, List, [], ◌∷◌, ◌++◌,
  arith, length, length-append, append_assoc, append-nil, if◌then◌else◌,
}
use sim_vision_sdk.Types.{DataGroup, visual_2d, visual_3d, sensor_data, group_eq}
use sim_vision_sdk.Queue.{Queue, try_push, word}
use sim_vision_sdk.Queue.Valid.{IsValid}
use sim_vision_sdk.Queue.Refine.{contents, try_push-accepts}
use sim_vision_sdk.Pipeline.{Pipeline, queue_of, push, pushes}
use sim_vision_sdk.Pipeline.Valid.{AllValid, push-AllValid}

-- The frames for one group, in their order.
abbrev pub frames_of : {A : Type 0} → DataGroup → List (DataGroup × Option A) → List (Option A)
frames_of g [] = []
frames_of g ((h, frame) ∷ more) =
    if group_eq h g then frame ∷ frames_of g more else frames_of g more

module _ {A : Type 0} where
  -- The queue has free slots for this many frames, and its count does not wrap.
  abbrev pub Free : ℕ → Queue A → Type 0
  Free n q = (length (contents q) + n ≤ q.capacity) × (q.head + n < word)

  abbrev pub AllFree : Pipeline A → List (DataGroup × Option A) → Type 0
  AllFree p xs = (g : DataGroup) → Free (length (frames_of g xs)) (queue_of p g)

  grown-Free :
      (q : Queue A) (frame : Option A) (n : ℕ)
      → IsValid q
      → Free (suc n) q
      → Free n (try_push q frame).0 × (contents (try_push q frame).0 ≡ contents q ++ frame ∷ [])
  unfolding try_push
  grown-Free q frame n v (free, room) =
      let e = try_push-accepts q v frame (omega (arith, room)) (omega (arith, free)) in
      let longer : length (contents (try_push q frame).0) ≡ length (contents q) + 1 =
        ap length e ∙ length-append (contents q) (frame ∷ []) in
      let moved : ((try_push q frame).0.capacity ≡ q.capacity)
          × ((try_push q frame).0.head ≤ q.head + 1) =
        ground (arith, room) in
      ((omega (arith, free, longer, moved), omega (arith, room, moved)), e)

  -- A push with a free slot adds its frame to its group's queue and leaves the others.
  push_lem :
      (p : Pipeline A) (h : DataGroup) (frame : Option A) (more : List (DataGroup × Option A))
      → AllValid p
      → AllFree p ((h, frame) ∷ more)
      → (g : DataGroup)
      → Free (length (frames_of g more)) (queue_of (push p h frame).0 g)
        × (contents (queue_of (push p h frame).0 g)
            ≡ contents (queue_of p g) ++ (if group_eq h g then frame ∷ [] else []))
  unfolding push
  push_lem p visual_2d frame more v free visual_2d = grown-Free p.q2d frame _ v.0 (free visual_2d)
  push_lem p visual_2d frame more v free visual_3d =
      (free visual_3d, sym (append-nil (contents p.q3d)))
  push_lem p visual_2d frame more v free sensor_data =
      (free sensor_data, sym (append-nil (contents p.qsensor)))
  push_lem p visual_3d frame more v free visual_2d =
      (free visual_2d, sym (append-nil (contents p.q2d)))
  push_lem p visual_3d frame more v free visual_3d = grown-Free p.q3d frame _ v.1 (free visual_3d)
  push_lem p visual_3d frame more v free sensor_data =
      (free sensor_data, sym (append-nil (contents p.qsensor)))
  push_lem p sensor_data frame more v free visual_2d =
      (free visual_2d, sym (append-nil (contents p.q2d)))
  push_lem p sensor_data frame more v free visual_3d =
      (free visual_3d, sym (append-nil (contents p.q3d)))
  push_lem p sensor_data frame more v free sensor_data =
      grown-Free p.qsensor frame _ v.2 (free sensor_data)

  cons-if :
      (b : Bool) (frame : Option A) (xs : List (Option A))
      → (if b then frame ∷ [] else []) ++ xs ≡ (if b then frame ∷ xs else xs)
  cons-if true frame xs = refl
  cons-if false frame xs = refl

  -- With free slots for all of them, several pushes add to each queue the frames of its group, in the order of
  -- the pushes.
  pub pushes_lem :
      (p : Pipeline A) (xs : List (DataGroup × Option A))
      → AllValid p
      → AllFree p xs
      → (g : DataGroup)
      → contents (queue_of (pushes p xs) g) ≡ contents (queue_of p g) ++ frames_of g xs
  unfolding pushes
  pushes_lem p [] v free g = sym (append-nil (contents (queue_of p g)))
  pushes_lem p ((h, frame) ∷ more) v free g =
      let valid = push-AllValid p h frame (room h (free h)) v in
      pushes_lem (push p h frame).0 more valid (λ k. (push_lem p h frame more v free k).0) g
      ∙ ap (λ xs. xs ++ frames_of g more) (push_lem p h frame more v free g).1
      ∙ append_assoc (contents (queue_of p g)) _ (frames_of g more)
      ∙ ap (◌++◌ (contents (queue_of p g))) (cons-if (group_eq h g) frame (frames_of g more))
    where
      room :
          (k : DataGroup)
          → Free (length (frames_of k ((k, frame) ∷ more))) (queue_of p k)
          → (queue_of p k).head + 1 < word
      room visual_2d f = omega (arith, f.1)
      room visual_3d f = omega (arith, f.1)
      room sensor_data f = omega (arith, f.1)
