-- ===== src/Capture.antt =====
-- capture/CaptureEngine.cpp: how a frame is built from the active types of a group, and the pace. The
-- simulated data of `SimDataSource::generate_*`, arithmetic of `double`, are an argument.
pub mod Stereo
pub mod Frames
pub mod Generating
pub mod Pace
pub mod Rounds
pub mod Pushes
pub mod Wanted
pub mod Sent
use sim_vision_sdk.Prelude.{
  ℕ, ◌+◌, ◌-◌, ◌/◌, ◌%◌, ◌^◌, Bool, true, false, Option, none, some, List, [], ◌∷◌, ◌++◌, Text,
  text, if◌then◌else◌, length, ltb,
}
use sim_vision_sdk.Prelude.Int.{ℤ, pos, negsuc, to_int}
use sim_vision_sdk.Json.{Json}
use sim_vision_sdk.Types.{
  DataType, DataGroup, stereo_image, depth_map, point_cloud, imu, disparity_map, confidence_map,
  temperature, magnetometer, barometer, visual_2d, visual_3d, sensor_data, group_members,
}
use sim_vision_sdk.Types.Frame.{DataBundle, ChannelFrame}
use sim_vision_sdk.Queue.{inc}
use sim_vision_sdk.Pipeline.{Pipeline, push, is_nonempty}
use sim_vision_sdk.Channels.{ChannelManager, is_active, group_active}
use sim_vision_sdk.Parameters.{ParamValue, integer, float, enum, Parameter, Parameters, get}
use sim_vision_sdk.Source.Read.{◌>>=◌}
use sim_vision_sdk.Source.{Source, StereoPair, version_tag, next_stereo}

-- `SimDataSource::generate_*`: the bytes for a size or a mode, and the index of the frame. For the three
-- maps `none` is an exception, as of a `std::vector` with a negative size.
pub record Generators : Type 0 where
  pub depth : ℤ → ℤ → ℕ → Option (List ℕ)
  pub disparity : ℤ → ℤ → ℕ → Option (List ℕ)
  pub confidence : ℤ → ℤ → ℕ → Option (List ℕ)
  pub pointcloud : Text → ℕ → List ℕ
  pub imu_data : ℕ → List ℕ
  pub temperature_data : ℕ → List ℕ
  pub magnetometer_data : ℕ → List ℕ
  pub barometer_data : ℕ → List ℕ

-- The bytes of a stereo part: the length of the left image as four bytes, lowest first, and both images.
unfoldable pub stereo_bytes : List ℕ → List ℕ → List ℕ
stereo_bytes left right =
    let lsize = length left % 2 ^ 32 in
    lsize % 256 ∷ lsize / 256 % 256 ∷ lsize / 65536 % 256 ∷ lsize / 16777216 % 256 ∷ left ++ right

-- `make_bundle`, with the fields that every part of the type sets behind it
abbrev pub make_bundle : DataType → Text → ℤ → ℤ → List ℕ → Text → DataBundle
make_bundle t id sec nsec content format = record {
  type = t;
  part_id = id;
  bytes = content;
  ts_sec = sec;
  ts_nsec = nsec;
  source = version_tag;
  format = format;
  is_encoded = false;
  channels = pos 0;
  code = [];
  right_channels = pos 0;
  right_code = [];
  width = pos 0;
  height = pos 0;
}

unfoldable pub stereo_bundle : ℤ → ℤ → StereoPair → DataBundle
stereo_bundle sec nsec pair =
    record (make_bundle stereo_image (text "stereo_image") sec nsec
      (stereo_bytes pair.left pair.right) pair.left_info.format) {
        is_encoded = pair.left_info.is_encoded;
        channels = pair.left_info.channels;
        code = pair.left_info.code;
        right_channels = pair.right_info.channels;
        right_code = pair.right_info.code;
        width = pair.left_info.width;
        height = pair.left_info.height;
      }

-- What the captured types of one frame share: the time, the index, the image's size and the depth mode.
pub record Shot : Type 0 where
  pub sec : ℤ
  pub nsec : ℤ
  pub index : ℕ
  pub width : ℤ
  pub height : ℤ
  pub depth_mode : Text

abbrev pub add_stereo : Shot → Source → Option (StereoPair × Source) → List DataBundle × Source
add_stereo shot src none = ([], src)
add_stereo shot src (some (pair, src')) = (stereo_bundle shot.sec shot.nsec pair ∷ [], src')

abbrev pub add_map :
    DataType → Text → Shot → Source → Option (List ℕ) → Option (List DataBundle × Source)
add_map t id shot src none = none
add_map t id shot src (some content) =
    some (make_bundle t id shot.sec shot.nsec content (text "raw_f32") ∷ [], src)

module _ (G : Generators) where
  -- The `switch` over the type: the bundle, if there is one, and the source behind it; `none` is an exception.
  unfoldable pub build_bundle : Shot → Source → DataType → Option (List DataBundle × Source)
  build_bundle shot src stereo_image = some (add_stereo shot src (next_stereo src))
  build_bundle shot src depth_map =
      add_map depth_map (text "depth_map") shot src (G.depth shot.width shot.height shot.index)
  build_bundle shot src disparity_map =
      add_map disparity_map (text "disparity_map") shot src
        (G.disparity shot.width shot.height shot.index)
  build_bundle shot src confidence_map =
      add_map confidence_map (text "confidence_map") shot src
        (G.confidence shot.width shot.height shot.index)
  build_bundle shot src point_cloud = some (
    make_bundle point_cloud (text "point_cloud") shot.sec shot.nsec
          (G.pointcloud shot.depth_mode shot.index) (text "raw_f32x4")
        ∷ [],
    src,
  )
  build_bundle shot src imu = some (
    make_bundle imu (text "imu") shot.sec shot.nsec (G.imu_data shot.index) (text "json") ∷ [],
    src,
  )
  build_bundle shot src temperature = some (
    make_bundle temperature (text "temperature") shot.sec shot.nsec (G.temperature_data shot.index)
          (text "json")
        ∷ [],
    src,
  )
  build_bundle shot src magnetometer = some (
    make_bundle magnetometer (text "magnetometer") shot.sec shot.nsec
          (G.magnetometer_data shot.index) (text "json")
        ∷ [],
    src,
  )
  build_bundle shot src barometer = some (
    make_bundle barometer (text "barometer") shot.sec shot.nsec (G.barometer_data shot.index)
          (text "json")
        ∷ [],
    src,
  )

  -- The loop over the members of the group; nobody changes the subscriptions while it runs.
  unfoldable pub build_bundles :
      ChannelManager → Shot → Source → List DataType → Option (List DataBundle × Source)
  build_bundles cm shot src [] = some ([], src)
  build_bundles cm shot src (t ∷ ts) = do
    (bs, src') ← (if is_active cm t then build_bundle shot src t else some ([], src))
    (more, src'') ← build_bundles cm shot src' ts
    some (bs ++ more, src'')

-- the value of `depth_mode`, or its default
abbrev pub mode_of : {J : Json} → Option (Parameter J) → Text
mode_of none = text "NEURAL"
mode_of (some p) = elim p.value [
  | integer _ ↦ text "NEURAL"
  | float _ ↦ text "NEURAL"
  | enum mode ↦ mode
]

module _ (J : Json) (G : Generators) where
  abbrev pub shot_of : Parameters J → Source → ℤ → ℤ → ℕ → Shot
  shot_of params src ts_sec ts_nsec frame_index = record {
    sec = ts_sec;
    nsec = ts_nsec;
    index = frame_index;
    width = src.width;
    height = src.height;
    depth_mode = mode_of (get J params (text "depth_mode"));
  }

  -- The frame and the source behind it; `none` is an exception.
  unfoldable pub build_frame :
      ChannelManager
      → Parameters J
      → Source
      → DataGroup
      → ℤ
      → ℤ
      → ℕ
      → Text
      → Option (ChannelFrame × Source)
  build_frame cm params src g ts_sec ts_nsec frame_index pub_id = do
    (bundles, src') ←
        build_bundles G cm (shot_of params src ts_sec ts_nsec frame_index) src (group_members g)
    some (
      record {
        group = g;
        ts_sec = ts_sec;
        ts_nsec = ts_nsec;
        pair_id = frame_index;
        frame_index = frame_index;
        pub_id = pub_id;
        bundles = bundles;
      },
      src',
    )

abbrev fps_of : {J : Json} → Option (Parameter J) → ℤ
fps_of none = pos 15
fps_of (some p) = elim p.value [ integer i ↦ to_int i | float _ ↦ pos 15 | enum _ ↦ pos 15 ]

-- `if (fps < 1) fps = 1; if (fps > 240) fps = 240;`
unfoldable pub clamp_fps : ℤ → ℕ
clamp_fps (negsuc _) = 1
clamp_fps (pos n) = if ltb n 1 then 1 else if ltb 240 n then 240 else n

-- The period of `run` in milliseconds.
unfoldable pub period : (J : Json) → Parameters J → ℕ
unfolding clamp_fps
period J params = 1000 / clamp_fps (fps_of (get J params (text "fps")))

module _ (J : Json) (G : Generators) where
  -- `build_frame` of an active group and, if the frame holds anything, the push
  unfoldable pub capture_group :
      ChannelManager
      → Parameters J
      → ℤ
      → ℤ
      → ℕ
      → DataGroup
      → Source × Pipeline ChannelFrame
      → Option (Source × Pipeline ChannelFrame)
  capture_group cm params ts_sec ts_nsec frame_index g (src, pipeline) =
      if group_active cm g
      then (build_frame J G cm params src g ts_sec ts_nsec frame_index [] >>= λ (frame, src').
          some (
            src',
            if is_nonempty frame.bundles then (push pipeline g (some frame)).0 else pipeline,
          ))
      else some (src, pipeline)

  -- The loop of one round of `run` over the groups.
  unfoldable pub capture_groups :
      ChannelManager
      → Parameters J
      → ℤ
      → ℤ
      → ℕ
      → Source × Pipeline ChannelFrame
      → Option (Source × Pipeline ChannelFrame)
  unfolding capture_group
  capture_groups cm params ts_sec ts_nsec frame_index s = do
    first ← capture_group cm params ts_sec ts_nsec frame_index visual_2d s
    second ← capture_group cm params ts_sec ts_nsec frame_index visual_3d first
    capture_group cm params ts_sec ts_nsec frame_index sensor_data second
