-- ===== src/Capture/Generating.antt =====
-- capture/CaptureEngine.cpp: if the generators do not throw, every frame is built.
use sim_vision_sdk.Prelude.{
  ℕ, ◌≡◌, refl, sym, subst, some, List, [], ◌∷◌, arith, inl, inr, false, Text,
}
use sim_vision_sdk.Prelude.Int.{ℤ}
use sim_vision_sdk.Json.{Json}
use sim_vision_sdk.Types.{DataType, DataGroup, group_members}
use sim_vision_sdk.Types.Frame.{ChannelFrame}
use sim_vision_sdk.Channels.{ChannelManager}
use sim_vision_sdk.Parameters.{Parameters}
use sim_vision_sdk.Source.{Source}
use sim_vision_sdk.Capture.{Generators, build_frame}
use sim_vision_sdk.Capture.Frames.{throws, some_throws, types_of, captured, Same, build_frame_lem}

module _ (G : Generators) where
  -- No generator throws for this size.
  abbrev pub Generates : ℤ → ℤ → Type 0
  Generates w h = (n : ℕ) (t : DataType) → throws G w h n t ≡ false

  none_throws :
      (cm : ChannelManager) (w h : ℤ) (n : ℕ) (ts : List DataType)
      → Generates w h
      → some_throws G cm w h n ts ≡ false
  none_throws cm w h n [] well = refl
  none_throws cm w h n (t ∷ ts) well = ground (arith, well n t, none_throws cm w h n ts well)

  pub Generates-size :
      (src src' : Source)
      → src'.width ≡ src.width
      → src'.height ≡ src.height
      → Generates src.width src.height
      → Generates src'.width src'.height
  Generates-size src src' w h well =
      subst (λ x. Generates x src'.height) (sym w) (subst (λ y. Generates src.width y) (sym h) well)

-- Then every frame is built.
pub built_frame :
    (J : Json) (G : Generators) (cm : ChannelManager) (params : Parameters J) (src : Source)
    (g : DataGroup) (ts_sec ts_nsec : ℤ) (frame_index : ℕ) (pub_id : Text)
    → Generates G src.width src.height
    → (frame : ChannelFrame) × (src' : Source) × (build_frame J G cm params src g ts_sec ts_nsec
          frame_index pub_id
        ≡ some (frame, src'))
      × (types_of frame.bundles ≡ captured cm src.pairs (group_members g))
      × (frame.group ≡ g)
      × (frame.pair_id ≡ frame_index)
      × (frame.frame_index ≡ frame_index)
      × Same src src'
built_frame J G cm params src g ts_sec ts_nsec frame_index pub_id well =
    elim (build_frame_lem J G cm params src g ts_sec ts_nsec frame_index pub_id) [
      | inl (thrown, _) ↦ absurd (
          ground (
            arith,
            thrown,
            none_throws G cm src.width src.height frame_index (group_members g) well,
          ))
      | inr (_, built) ↦ built
    ]
