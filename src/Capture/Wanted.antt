-- ===== src/Capture/Wanted.antt =====
-- capture/CaptureEngine.cpp: an active type that can be captured makes a round push a frame.
use sim_vision_sdk.Prelude.{
  ℕ, ◌≡◌, ◌≢◌, refl, sym, subst, ◌∙◌, Bool, true, List, [], ◌∷◌, arith, Bool-cases, inl, inr, ◌&&◌,
  ◌||◌,
}
use sim_vision_sdk.Prelude.Int.{ℤ}
use sim_vision_sdk.Json.{Json}
use sim_vision_sdk.Types.{
  DataType, DataGroup, visual_2d, visual_3d, sensor_data, data_type_to_group, group_members,
  type_eq,
}
use sim_vision_sdk.Types.Table.{type_eq_iff, DataType-eq, group_members_iff}
use sim_vision_sdk.Prelude.Set.{contains}
use sim_vision_sdk.Types.Frame.{DataBundle}
use sim_vision_sdk.Pipeline.{is_nonempty}
use sim_vision_sdk.Channels.{ChannelManager, is_active}
use sim_vision_sdk.Channels.Groups.{group_active_iff}
use sim_vision_sdk.Parameters.{Parameters}
use sim_vision_sdk.Source.{Source, StereoPair}
use sim_vision_sdk.Capture.{Generators}
use sim_vision_sdk.Capture.Frames.{types_of, available, captured}
use sim_vision_sdk.Capture.Generating.{Generates, built_frame}
use sim_vision_sdk.Capture.Pushes.{
  frames, shots, is_shot, after, after-Same, after-Generates, pushed_by-cons,
}

nonempty-types : (bs : List DataBundle) → types_of bs ≢ [] → is_nonempty bs ≡ true
nonempty-types [] ne = absurd (ne refl)
nonempty-types (b ∷ bs) ne = refl

captured-member :
    (cm : ChannelManager) (ps : List StereoPair) (ts : List DataType) (t : DataType)
    → contains t ts ≡ true
    → is_active cm t ≡ true
    → available ps t ≡ true
    → captured cm ps ts ≢ []
unfolding contains
captured-member cm ps [] t h on can e = ground (arith, h)
captured-member cm ps (u ∷ ts) t h on can e = elim (Bool-cases (type_eq u t)) [
  | inl same ↦
      let taken : is_active cm u && available ps u ≡ true =
        subst (λ v. is_active cm v && available ps v ≡ true) (sym ((type_eq_iff u t).0 same))
          (ground (arith, on, can)) in
      ground (arith, e, taken)
  | inr other ↦
      captured-member cm ps ts t (ground (arith, h, other)) on can
        (elim (Bool-cases (is_active cm u && available ps u)) [
          | inl taken ↦ absurd (ground (arith, e, taken))
          | inr passed ↦ ground (arith, e, passed)
        ])
]

module _ (J : Json) (G : Generators) (cm : ChannelManager) (params : Parameters J) (sec nsec : ℤ)
    (index : ℕ) where
  is_shot-wanted :
      (src : Source) (t : DataType)
      → Generates G src.width src.height
      → is_active cm t ≡ true
      → available src.pairs t ≡ true
      → is_shot J G cm params sec nsec index (data_type_to_group t) src ≡ true
  is_shot-wanted src t well on can =
      let g = data_type_to_group t in
      let busy = (group_active_iff cm g).0.1 (t, refl, on) in
      let (frame, src', q, types, _, _, _, _) =
        built_frame J G cm params src g sec nsec index [] well in
      let full = nonempty-types frame.bundles (
        subst (λ ts. ts ≢ []) (sym types)
          (captured-member cm src.pairs (group_members g) t ((group_members_iff g t).1 refl) on
            can)) in
      rw (busy, q) full

  -- If a type is active, and a pair is loaded where it needs one, a round builds some frame.
  pub shots-wanted :
      (src : Source) (t : DataType)
      → Generates G src.width src.height
      → is_active cm t ≡ true
      → available src.pairs t ≡ true
      → frames (shots J G cm params sec nsec index src) ≢ []
  shots-wanted src t well on can =
      by_group (data_type_to_group t) (is_shot-wanted src t well on can)
        (is_shot-wanted src' t well' on (subst (λ ps. available ps t ≡ true) (sym same) can))
        (is_shot-wanted src'' t well'' on (subst (λ ps. available ps t ≡ true) (sym same') can))
    where
      src' : Source
      src' = after J G cm params sec nsec index visual_2d src

      src'' : Source
      src'' = after J G cm params sec nsec index visual_3d src'

      same : src'.pairs ≡ src.pairs
      same = (after-Same J G cm params sec nsec index visual_2d src well).0

      well' : Generates G src'.width src'.height
      well' = after-Generates J G cm params sec nsec index visual_2d src well

      well'' : Generates G src''.width src''.height
      well'' = after-Generates J G cm params sec nsec index visual_3d src' well'

      same' : src''.pairs ≡ src.pairs
      same' = (after-Same J G cm params sec nsec index visual_3d src' well').0 ∙ same

      shot_of : DataGroup → Source → Bool
      shot_of = is_shot J G cm params sec nsec index

      some_shot :
          (shot_of visual_2d src || (shot_of visual_3d src' || shot_of sensor_data src'')) ≡ true
          → frames (shots J G cm params sec nsec index src) ≢ []
      some_shot =
          pushed_by-cons _ _ _ (shot_of visual_2d src) (shot_of visual_3d src')
            (shot_of sensor_data src'')

      by_group :
          (g : DataGroup)
          → shot_of g src ≡ true
          → shot_of g src' ≡ true
          → shot_of g src'' ≡ true
          → frames (shots J G cm params sec nsec index src) ≢ []
      by_group visual_2d x y z = some_shot (ground (arith, x))
      by_group visual_3d x y z = some_shot (ground (arith, y))
      by_group sensor_data x y z = some_shot (ground (arith, z))
