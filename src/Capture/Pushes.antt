-- ===== src/Capture/Pushes.antt =====
-- capture/CaptureEngine.cpp: the pushes that one round of `run` makes, and what they leave in the pipeline.
use sim_vision_sdk.Prelude.{
  ℕ, ◌+◌, ◌≤◌, ◌<◌, ◌^◌, ◌≡◌, refl, sym, ap, ap₂, ◌∙◌, Bool, true, false, Option, none, some, List,
  [], ◌∷◌, ◌++◌, arith, length, if◌then◌else◌, Bool-cases, inl, inr, ◌&&◌, ◌||◌, ◌≢◌,
}
use sim_vision_sdk.Prelude.Int.{ℤ}
use sim_vision_sdk.Json.{Json}
use sim_vision_sdk.Types.{DataGroup, visual_2d, visual_3d, sensor_data}
use sim_vision_sdk.Types.Frame.{ChannelFrame}
use sim_vision_sdk.Queue.Refine.{contents}
use sim_vision_sdk.Pipeline.{Pipeline, queue_of, push, pushes, is_nonempty}
use sim_vision_sdk.Pipeline.Valid.{AllValid, queue-IsValid}
use sim_vision_sdk.Pipeline.PopAll.{pending, append-eq-nil}
use sim_vision_sdk.Pipeline.Pushed.{frames_of, AllFree, pushes_lem}
use sim_vision_sdk.Channels.{ChannelManager, group_active}
use sim_vision_sdk.Parameters.{Parameters}
use sim_vision_sdk.Source.{Source}
use sim_vision_sdk.Capture.Frames.{Same}
use sim_vision_sdk.Capture.Generating.{Generates, Generates-size, built_frame}
use sim_vision_sdk.Capture.{Generators, build_frame, capture_group, capture_groups}

-- the frames of some pushes
abbrev pub frames : {A : Type 0} → List (DataGroup × Option A) → List (Option A)
frames [] = []
frames ((h, frame) ∷ more) = frame ∷ frames more

pushes-append :
    {A : Type 0} (p : Pipeline A) (xs ys : List (DataGroup × Option A))
    → pushes p (xs ++ ys) ≡ pushes (pushes p xs) ys
unfolding pushes
pushes-append p [] ys = refl
pushes-append p ((g, frame) ∷ xs) ys = pushes-append (push p g frame).0 xs ys

-- at most one push of each group
abbrev pushed_if : {A : Type 0} → Bool → DataGroup → Option A → List (DataGroup × Option A)
pushed_if b g frame = if b then (g, frame) ∷ [] else []

module _ {A : Type 0} (f f' f'' : Option A) where
  abbrev pushed_by : Bool → Bool → Bool → List (DataGroup × Option A)
  pushed_by a b c =
      pushed_if a visual_2d f ++ (pushed_if b visual_3d f' ++ pushed_if c sensor_data f'')

  in_order :
      (a b c : Bool)
      → let xs = pushed_by a b c in
        frames_of visual_2d xs ++ (frames_of visual_3d xs ++ frames_of sensor_data xs) ≡ frames xs
  in_order true true true = refl
  in_order true true false = refl
  in_order true false true = refl
  in_order true false false = refl
  in_order false true true = refl
  in_order false true false = refl
  in_order false false true = refl
  in_order false false false = refl

  one_each : (a b c : Bool) (g : DataGroup) → length (frames_of g (pushed_by a b c)) ≤ 1
  one_each a b c visual_2d = ground arith
  one_each a b c visual_3d = ground arith
  one_each a b c sensor_data = ground arith

  pub pushed_by-cons : (a b c : Bool) → a || (b || c) ≡ true → frames (pushed_by a b c) ≢ []
  pushed_by-cons true b c h e = ground (arith, e)
  pushed_by-cons false true c h e = ground (arith, e)
  pushed_by-cons false false true h e = ground (arith, e)
  pushed_by-cons false false false h e = ground (arith, h)

  -- Pushed to empty queues, the frames are pending in the order of the groups.
  pushed_by-pending :
      (a b c : Bool) (p : Pipeline A)
      → AllValid p
      → ((g : DataGroup) → (queue_of p g).head + 1 < 2 ^ 64)
      → pending p ≡ []
      → pending (pushes p (pushed_by a b c)) ≡ frames (pushed_by a b c)
  pushed_by-pending a b c p v room none_waits =
      ap₂ ◌++◌ (left visual_2d) (ap₂ ◌++◌ (left visual_3d) (left sensor_data)) ∙ in_order a b c
    where
      none_of : (g : DataGroup) → contents (queue_of p g) ≡ []
      none_of visual_2d = (append-eq-nil (contents p.q2d) _ none_waits).0
      none_of visual_3d =
          (append-eq-nil (contents p.q3d) _ (append-eq-nil (contents p.q2d) _ none_waits).1).0
      none_of sensor_data =
          (append-eq-nil (contents p.q3d) _ (append-eq-nil (contents p.q2d) _ none_waits).1).1

      free : AllFree p (pushed_by a b c)
      free g =
          let one = one_each a b c g in
          let valid = queue-IsValid p g v in
          let empty : length (contents (queue_of p g)) ≡ 0 = ap length (none_of g) in
          (omega (arith, one, valid.positive, empty), omega (arith, one, room g))

      left :
          (g : DataGroup)
          → contents (queue_of (pushes p (pushed_by a b c)) g) ≡ frames_of g (pushed_by a b c)
      left g =
          pushes_lem p (pushed_by a b c) v free g
          ∙ ap (λ xs. xs ++ frames_of g (pushed_by a b c)) (none_of g)

abbrev pub holds_any : Option (ChannelFrame × Source) → Bool
holds_any none = false
holds_any (some (frame, src)) = is_nonempty frame.bundles

abbrev frame_in : Option (ChannelFrame × Source) → Option ChannelFrame
frame_in none = none
frame_in (some (frame, src)) = some frame

abbrev source_in : Source → Option (ChannelFrame × Source) → Source
source_in src none = src
source_in src (some (frame, src')) = src'

module _ (J : Json) (G : Generators) (cm : ChannelManager) (params : Parameters J) (sec nsec : ℤ)
    (index : ℕ) where
  abbrev pub built : DataGroup → Source → Option (ChannelFrame × Source)
  built g src = build_frame J G cm params src g sec nsec index []

  -- Is the frame of the group pushed?
  abbrev pub is_shot : DataGroup → Source → Bool
  is_shot g src = group_active cm g && holds_any (built g src)

  -- A group's push: its frame, if the group is active and the frame holds anything.
  abbrev pub shot : DataGroup → Source → List (DataGroup × Option ChannelFrame)
  shot g src = pushed_if (is_shot g src) g (frame_in (built g src))

  -- the source after a group
  abbrev pub after : DataGroup → Source → Source
  after g src = if group_active cm g then source_in src (built g src) else src

  -- The pushes of a round, in the order of the groups.
  abbrev pub shots : Source → List (DataGroup × Option ChannelFrame)
  shots src =
      let src' = after visual_2d src in
      shot visual_2d src ++ (shot visual_3d src' ++ shot sensor_data (after visual_3d src'))

  capture_group_lem :
      (g : DataGroup) (src : Source) (p : Pipeline ChannelFrame)
      → Generates G src.width src.height
      → capture_group J G cm params sec nsec index g (src, p)
        ≡ some (after g src, pushes p (shot g src))
  unfolding capture_group pushes
  capture_group_lem g src p well = elim (Bool-cases (group_active cm g)) [
    | inr e ↦ rw e refl
    | inl e ↦
        let (frame, src', q, _, _, _, _, _) =
          built_frame J G cm params src g sec nsec index [] well in
        elim (Bool-cases (is_nonempty frame.bundles)) [
          | inl e' ↦ rw (e, q) (rw e' refl)
          | inr e' ↦ rw (e, q) (rw e' refl)
        ]
  ]

  pub after-Same :
      (g : DataGroup) (src : Source) → Generates G src.width src.height → Same src (after g src)
  after-Same g src well = elim (Bool-cases (group_active cm g)) [
    | inr e ↦ rw e (refl, refl, refl)
    | inl e ↦
        let (frame, src', q, _, _, _, _, same) =
          built_frame J G cm params src g sec nsec index [] well in
        rw (e, q) same
  ]

  pub after-Generates :
      (g : DataGroup) (src : Source)
      → Generates G src.width src.height
      → Generates G (after g src).width (after g src).height
  after-Generates g src well =
      let same = after-Same g src well in Generates-size G src (after g src) same.1 same.2 well

  -- A round makes these pushes and no others.
  pub capture_groups_lem :
      (src : Source) (p : Pipeline ChannelFrame)
      → Generates G src.width src.height
      → (src' : Source) × (capture_groups J G cm params sec nsec index (src, p)
          ≡ some (src', pushes p (shots src)))
  unfolding capture_groups
  capture_groups_lem src p well =
      let src' = after visual_2d src in
      let src'' = after visual_3d src' in
      let p' = pushes p (shot visual_2d src) in
      let p'' = pushes p' (shot visual_3d src') in
      let well' = after-Generates visual_2d src well in
      let well'' = after-Generates visual_3d src' well' in
      (
        after sensor_data src'',
        rw (capture_group_lem visual_2d src p well) (
            rw (capture_group_lem visual_3d src' p' well') (
              capture_group_lem sensor_data src'' p'' well''
              ∙ ap (λ x. some (after sensor_data src'', x))
                  (sym (
                    pushes-append p (shot visual_2d src) _
                    ∙ pushes-append p' (shot visual_3d src') _)))),
      )

  -- A round in which the queues are empty leaves its frames pending, in the order of the groups.
  pub capture_groups-pending :
      (src : Source) (p : Pipeline ChannelFrame)
      → AllValid p
      → ((g : DataGroup) → (queue_of p g).head + 1 < 2 ^ 64)
      → pending p ≡ []
      → pending (pushes p (shots src)) ≡ frames (shots src)
  capture_groups-pending src p v room none_waits =
      let src' = after visual_2d src in
      let src'' = after visual_3d src' in
      pushed_by-pending (frame_in (built visual_2d src)) (frame_in (built visual_3d src'))
        (frame_in (built sensor_data src'')) (is_shot visual_2d src) (is_shot visual_3d src')
        (is_shot sensor_data src'') p v room none_waits
