-- ===== src/Capture/Frames.antt =====
-- Which data types the bundles of a frame have.
use sim_vision_sdk.Prelude.{
  ℕ, ◌≡◌, refl, ap, ◌∙◌, Bool, true, some, List, [], ◌∷◌, ◌++◌, if◌then◌else◌, arith, Bool-cases,
  inl, inr, ◌⊎◌, Option, none, false, ◌&&◌, not, Text, get_elem?,
}
use sim_vision_sdk.Prelude.Int.{ℤ}
use sim_vision_sdk.Queue.{inc}
use sim_vision_sdk.Json.{Json}
use sim_vision_sdk.Types.{
  DataType, DataGroup, stereo_image, depth_map, disparity_map, confidence_map, point_cloud, imu,
  temperature, magnetometer, barometer, type_eq, group_members,
}
use sim_vision_sdk.Types.Frame.{DataBundle, ChannelFrame}
use sim_vision_sdk.Channels.{ChannelManager, is_active}
use sim_vision_sdk.Parameters.{Parameters}
use sim_vision_sdk.Source.{Source, StereoPair, next_stereo_lem}
use sim_vision_sdk.Capture.{
  Generators, Shot, stereo_bundle, add_map, shot_of, build_bundle, build_bundles, build_frame,
}

abbrev pub types_of : List DataBundle → List DataType
types_of [] = []
types_of (b ∷ bs) = b.type ∷ types_of bs

types_of-append : (xs ys : List DataBundle) → types_of (xs ++ ys) ≡ types_of xs ++ types_of ys
types_of-append [] ys = refl
types_of-append (x ∷ xs) ys = ap (◌∷◌ x.type) (types_of-append xs ys)

-- Can the type be captured? A stereo image needs a loaded pair.
abbrev pub available : List StereoPair → DataType → Bool
available [] t = not (type_eq t stereo_image)
available (_ ∷ _) t = true

-- The types of the list that are active and available, in the order of the list.
abbrev pub captured : ChannelManager → List StereoPair → List DataType → List DataType
captured cm pairs [] = []
captured cm pairs (t ∷ ts) =
    if is_active cm t && available pairs t then t ∷ captured cm pairs ts else captured cm pairs ts

available_found :
    (ps : List StereoPair) (i : ℕ) (t : DataType) {pair : StereoPair}
    → get_elem? ps i ≡ some pair
    → available ps t ≡ true
available_found [] i t e = absurd (ground (arith, e))
available_found (_ ∷ _) i t e = refl

-- The source has the same pairs and the same size.
abbrev pub Same : Source → Source → Type 0
Same src src' = (src'.pairs ≡ src.pairs) × (src'.width ≡ src.width) × (src'.height ≡ src.height)

abbrev is_none : {A : Type 0} → Option A → Bool
is_none none = true
is_none (some _) = false

module _ (G : Generators) where
  -- Does the generator of this type throw, for a size and an index?
  abbrev pub throws : ℤ → ℤ → ℕ → DataType → Bool
  throws w h n depth_map = is_none (G.depth w h n)
  throws w h n disparity_map = is_none (G.disparity w h n)
  throws w h n confidence_map = is_none (G.confidence w h n)
  throws w h n _ = false

  -- Does that of some active type of the list?
  abbrev pub some_throws : ChannelManager → ℤ → ℤ → ℕ → List DataType → Bool
  some_throws cm w h n [] = false
  some_throws cm w h n (t ∷ ts) =
      let later = some_throws cm w h n ts in
      if is_active cm t && throws w h n t then true else later

  -- Either a generator throws, or there are bundles, of these types.
  abbrev Bundled : Bool → Source → List DataType → Option (List DataBundle × Source) → Type 0
  Bundled thrown src ts o =
      ((thrown ≡ true) × (o ≡ none))
      ⊎ ((thrown ≡ false)
          × ((bs : List DataBundle) × (src' : Source) × (o ≡ some (bs, src'))
              × (types_of bs ≡ ts)
              × Same src src'))

  add_map-Bundled :
      (t : DataType) (id : Text) (shot : Shot) (src : Source) (o : Option (List ℕ))
      → Bundled (is_none o) src (t ∷ []) (add_map t id shot src o)
  add_map-Bundled t id shot src none = inl (refl, refl)
  add_map-Bundled t id shot src (some content) =
      inr (refl, (_, src, refl, refl, (refl, refl, refl)))

  map-Bundled :
      (t : DataType) (id : Text) (shot : Shot) (src : Source) (o : Option (List ℕ))
      → available src.pairs t ≡ true
      → Bundled
          (is_none o)
          src
          (if available src.pairs t then t ∷ [] else [])
          (add_map t id shot src o)
  map-Bundled t id shot src o can = rw can (add_map-Bundled t id shot src o)

  build_bundle_lem :
      (shot : Shot) (src : Source) (t : DataType)
      → Bundled
          (throws shot.width shot.height shot.index t)
          src
          (if available src.pairs t then t ∷ [] else [])
          (build_bundle G shot src t)
  unfolding build_bundle stereo_bundle type_eq
  build_bundle_lem shot src stereo_image = elim (next_stereo_lem src) [
    | inl (none_loaded, e) ↦
        inr (refl, ([], src, rw e refl, ground (arith, none_loaded), (refl, refl, refl)))
    | inr (pair, found, e) ↦ inr (
      refl,
      (
        stereo_bundle shot.sec shot.nsec pair ∷ [],
        record src { cursor = inc src.cursor },
        rw e refl,
        ground (arith, available_found src.pairs _ stereo_image found),
        (refl, refl, refl),
      ),
    )
  ]
  build_bundle_lem shot src depth_map =
      map-Bundled depth_map _ shot src (G.depth shot.width shot.height shot.index) (ground arith)
  build_bundle_lem shot src disparity_map =
      map-Bundled disparity_map _ shot src (G.disparity shot.width shot.height shot.index)
        (ground arith)
  build_bundle_lem shot src confidence_map =
      map-Bundled confidence_map _ shot src (G.confidence shot.width shot.height shot.index)
        (ground arith)
  build_bundle_lem shot src point_cloud =
      inr (refl, (_, src, refl, ground arith, (refl, refl, refl)))
  build_bundle_lem shot src imu = inr (refl, (_, src, refl, ground arith, (refl, refl, refl)))
  build_bundle_lem shot src temperature =
      inr (refl, (_, src, refl, ground arith, (refl, refl, refl)))
  build_bundle_lem shot src magnetometer =
      inr (refl, (_, src, refl, ground arith, (refl, refl, refl)))
  build_bundle_lem shot src barometer = inr (refl, (_, src, refl, ground arith, (refl, refl, refl)))

  build_bundles_lem :
      (cm : ChannelManager) (shot : Shot) (src : Source) (ts : List DataType)
      → Bundled
          (some_throws cm shot.width shot.height shot.index ts)
          src
          (captured cm src.pairs ts)
          (build_bundles G cm shot src ts)
  unfolding build_bundles
  build_bundles_lem cm shot src [] = inr (refl, ([], src, refl, refl, (refl, refl, refl)))
  build_bundles_lem cm shot src (t ∷ ts) = elim (Bool-cases (is_active cm t)) [
    | inr e ↦ elim (build_bundles_lem cm shot src ts) [
      | inl (thrown, q) ↦ inl (ground (arith, e, thrown), rw (e, q) refl)
      | inr (well, (bs, src', q, types, same)) ↦
          inr (ground (arith, e, well), (bs, src', rw (e, q) refl, ground (arith, e, types), same))
    ]
    | inl e ↦ elim (build_bundle_lem shot src t) [
      | inl (thrown, q) ↦ inl (ground (arith, e, thrown), rw (e, q) refl)
      | inr (well, (bs, src', q, types, same)) ↦ elim (build_bundles_lem cm shot src' ts) [
        | inl (thrown, q') ↦ inl (ground (arith, e, well, thrown), rw (e, q, q') refl)
        | inr (well', (more, src'', q', types', same')) ↦ inr (
          ground (arith, e, well, well'),
          (
            bs ++ more,
            src'',
            rw (e, q, q') refl,
            types_of-append bs more
                ∙ ground (arith, e, types, types', ap (λ ps. captured cm ps ts) same.0),
            (same'.0 ∙ same.0, same'.1 ∙ same.1, same'.2 ∙ same.2),
          ),
        )
      ]
    ]
  ]

-- If the generator of some active type of the group throws, no frame is built. Otherwise the frame holds one bundle
-- for each type of its group that is active, in the order of the group, but no stereo image if no pair is
-- loaded; it carries the group and the index that it was built for; and the pairs and the size of the
-- source stay.
pub build_frame_lem :
    (J : Json) (G : Generators) (cm : ChannelManager) (params : Parameters J) (src : Source)
    (g : DataGroup) (ts_sec ts_nsec : ℤ) (frame_index : ℕ) (pub_id : Text)
    → let thrown = some_throws G cm src.width src.height frame_index (group_members g) in
      let built = build_frame J G cm params src g ts_sec ts_nsec frame_index pub_id in
      ((thrown ≡ true) × (built ≡ none))
      ⊎ ((thrown ≡ false)
          × ((frame : ChannelFrame) × (src' : Source) × (built ≡ some (frame, src'))
              × (types_of frame.bundles ≡ captured cm src.pairs (group_members g))
              × (frame.group ≡ g)
              × (frame.pair_id ≡ frame_index)
              × (frame.frame_index ≡ frame_index)
              × Same src src'))
unfolding build_frame
build_frame_lem J G cm params src g ts_sec ts_nsec frame_index pub_id =
    elim (build_bundles_lem G cm (shot_of J G params src ts_sec ts_nsec frame_index) src
      (group_members g)) [
        | inl (thrown, q) ↦ inl (thrown, rw q refl)
        | inr (well, (bs, src', q, types, same)) ↦
            let frame : ChannelFrame = record {
              group = g;
              ts_sec = ts_sec;
              ts_nsec = ts_nsec;
              pair_id = frame_index;
              frame_index = frame_index;
              pub_id = pub_id;
              bundles = bs;
            } in
            inr (well, (frame, src', rw q refl, types, refl, refl, refl, same))
      ]
