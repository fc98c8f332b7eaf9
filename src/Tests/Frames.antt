-- ===== src/Tests/Frames.antt =====
-- The publisher and the capture engine at concrete inputs.
use sim_vision_sdk.Prelude.{
  Option, none, List, ℕ, length, ◌+◌, ◌^◌, ◌<◌, ◌++◌, ◌⊎◌, arith, ℕ-eq, text-eq, ◌≡◌, refl, true,
  false, some, [], ◌∷◌, text,
}
use sim_vision_sdk.Prelude.Int.{ℤ, pos}
use sim_vision_sdk.Json.Tree.{tree_json}
use sim_vision_sdk.Zmq.Trace.{Trace, trace_zmq, trace_zmq-SendLaw}
use sim_vision_sdk.Types.{
  DataGroup, visual_2d, visual_3d, sensor_data, stereo_image, depth_map, disparity_map,
  confidence_map, point_cloud, imu, temperature, magnetometer, barometer, group_members, type_eq,
}
use sim_vision_sdk.Types.Frame.{DataBundle, ChannelFrame}
use sim_vision_sdk.Channels.{ChannelManager, group_active, any_active, is_active}
use sim_vision_sdk.Prelude.Map.{lookup}
use sim_vision_sdk.Source.{Source, next_stereo}
use sim_vision_sdk.Pipeline.{Pipeline, make_pipeline, queue_of}
use sim_vision_sdk.Capture.{
  Generators, build_frame, build_bundles, build_bundle, stereo_bundle, capture_groups,
}
use sim_vision_sdk.Capture.Frames.{types_of, captured, build_frame_lem, some_throws, Same}
use sim_vision_sdk.Capture.Generating.{Generates}
use sim_vision_sdk.Capture.Pushes.{frames, shots}
use sim_vision_sdk.Capture.Sent.{captured_sent}
use sim_vision_sdk.Pipeline.PopAll.{pending}
use sim_vision_sdk.Publisher.Delivered.{on_wire}
use sim_vision_sdk.Publisher.Round.{round, group_messages, Dumpable}
use sim_vision_sdk.Queue.{make}
use sim_vision_sdk.Capture.Rounds.{Engine, Tick, Ran, run, run-Ran}
use sim_vision_sdk.Pipeline.Valid.{make_pipeline-AllValid}
use sim_vision_sdk.Publisher.{PublisherStats}
use sim_vision_sdk.Publisher.Running.{Publisher}

abbrev depth_bundle : DataBundle
depth_bundle = record {
  type = depth_map;
  part_id = text "depth_map";
  bytes = 1 ∷ 2 ∷ [];
  ts_sec = pos 5;
  ts_nsec = pos 6;
  source = [];
  format = text "raw_f32";
  is_encoded = false;
  channels = pos 0;
  code = [];
  right_channels = pos 0;
  right_code = [];
  width = pos 0;
  height = pos 0;
}

abbrev pub frame : ChannelFrame
frame = record {
  group = visual_2d;
  ts_sec = pos 5;
  ts_nsec = pos 6;
  pair_id = 1;
  frame_index = 1;
  pub_id = [];
  bundles = depth_bundle ∷ [];
}

abbrev pub socket : Trace
socket = record { room = 1; accepted = [] }

abbrev pub no_stats : PublisherStats
no_stats = record { sent_2d = 0; sent_3d = 0; sent_sensor = 0; dropped_hwm = 0; shutdown_sent = 0 }

-- Generators of a byte each.
abbrev generators : Generators
generators = record {
  depth = λ w h n. some (n ∷ []);
  disparity = λ w h n. some (n ∷ []);
  confidence = λ w h n. some (n ∷ []);
  pointcloud = λ mode n. n ∷ [];
  imu_data = λ n. n ∷ [];
  temperature_data = λ n. n ∷ [];
  magnetometer_data = λ n. n ∷ [];
  barometer_data = λ n. n ∷ [];
}

-- A client wants the stereo image and the depth map.
abbrev visual : ChannelManager
visual = record {
  states =
      (0, record { subscriber_count = 1; force_active = false })
      ∷ (1, record { subscriber_count = 1; force_active = false })
      ∷ [];
  clients = (text "a", 0 ∷ 1 ∷ []) ∷ [];
}

-- No pair is loaded.
abbrev no_source : Source
no_source = record { pairs = []; cursor = 0; width = pos 4; height = pos 2; channels = pos 4 }

captured-visual : captured visual [] (group_members visual_2d) ≡ depth_map ∷ []
unfolding is_active type_eq group_members lookup
captured-visual = refl

build_frame_lem_example :
    let thrown = some_throws generators visual (pos 4) (pos 2) 9 (group_members visual_2d) in
    let built =
      build_frame tree_json generators visual [] no_source visual_2d (pos 5) (pos 6) 9 [] in
    ((thrown ≡ true) × (built ≡ none))
    ⊎ ((thrown ≡ false)
        × ((shown : ChannelFrame) × (src' : Source) × (built ≡ some (shown, src'))
            × (types_of shown.bundles ≡ captured visual [] (group_members visual_2d))
            × (shown.group ≡ visual_2d)
            × (shown.pair_id ≡ 9)
            × (shown.frame_index ≡ 9)
            × Same no_source src'))
build_frame_lem_example =
    build_frame_lem tree_json generators visual [] no_source visual_2d (pos 5) (pos 6) 9 []

generates : Generates generators (pos 4) (pos 2)
generates n stereo_image = refl
generates n depth_map = refl
generates n disparity_map = refl
generates n confidence_map = refl
generates n point_cloud = refl
generates n imu = refl
generates n temperature = refl
generates n magnetometer = refl
generates n barometer = refl

sensor_idle : group_active visual sensor_data ≡ false
unfolding group_active any_active is_active group_members lookup
sensor_idle = refl

-- All three sockets are open, with room for a part each.
abbrev pub publisher : Publisher trace_zmq
publisher = record {
  pub_id = text "p";
  bound_to = record { for_2d = text "a"; for_3d = text "b"; for_sensor = text "c" };
  sockets = record { for_2d = some socket; for_3d = some socket; for_sensor = some socket };
  running = true;
  stats = no_stats;
}

abbrev engine : Engine
engine = record {
  source = no_source;
  pipeline = make_pipeline 4;
  running = true;
  frame_index = 0;
  frames_produced = 0;
}

abbrev tick : Tick tree_json generators
tick = record { channels = visual; params = []; ts_sec = pos 5; ts_nsec = pos 6; elapsed = 2 }

run-Ran_example :
    (e' : Engine) × (run tree_json generators (tick ∷ tick ∷ []) engine ≡ some e')
    × Ran tree_json generators 2 engine e'
unfolding make_pipeline make
run-Ran_example =
    run-Ran tree_json generators (tick ∷ tick ∷ []) engine generates
      (make_pipeline-AllValid 4, omega arith, omega arith, omega arith) (omega arith) (omega arith)

-- The sockets have room for some messages.
abbrev pub roomy : Publisher trace_zmq
roomy =
    let s : Trace = record { room = 9; accepted = [] } in
    record publisher { sockets = record { for_2d = some s; for_3d = some s; for_sensor = some s } }

abbrev pub clock : ℕ → ℤ × ℤ
clock n = (pos n, pos 0)

heads : (h : DataGroup) → (queue_of {A = ChannelFrame} (make_pipeline 4) h).head + 3 < 2 ^ 64
unfolding make_pipeline make
heads visual_2d = omega arith
heads visual_3d = omega arith
heads sensor_data = omega arith

one_frame : length (frames (shots tree_json generators visual [] (pos 5) (pos 6) 9 no_source)) ≡ 1
unfolding build_frame build_bundles build_bundle stereo_bundle next_stereo group_active any_active
    is_active group_members lookup
one_frame = refl

dumpable :
    (fs : List (Option ChannelFrame)) → Dumpable trace_zmq tree_json trace_zmq-SendLaw (text "p") fs
dumpable [] = tt
dumpable (none ∷ more) = dumpable more
dumpable (some f ∷ more) = ((λ now. ([], refl)), dumpable more)

depth_on : is_active visual depth_map ≡ true
unfolding is_active lookup
depth_on = refl

-- A round for the client's depth map, the publisher's round after it, and the socket of the 2D group.
captured_sent_example :
    let sent = frames (shots tree_json generators visual [] (pos 5) (pos 6) 9 no_source) in
    (src' : Source) × (filled : Pipeline ChannelFrame) × (capture_groups tree_json generators visual
        []
        (pos 5)
        (pos 6)
        9
        (no_source, make_pipeline 4)
      ≡ some (src', filled))
    × (let (result, left) = round trace_zmq tree_json clock roomy filled [] [] in
        (pending left ≡ [])
        × ((p' : Publisher trace_zmq) × (result ≡ some p')
            × ((0 < p'.stats.dropped_hwm)
                ⊎ ((p'.stats.dropped_hwm ≡ 0)
                    × (on_wire trace_zmq p' visual_2d
                        ≡ on_wire trace_zmq roomy visual_2d
                          ++ group_messages trace_zmq tree_json trace_zmq-SendLaw clock 0
                              (text "p")
                              visual_2d
                              sent)))))
unfolding make_pipeline make type_eq
captured_sent_example =
    captured_sent trace_zmq tree_json generators trace_zmq-SendLaw visual [] (pos 5) (pos 6) 9
      no_source clock roomy (make_pipeline 4) [] [] depth_map visual_2d generates
      (make_pipeline-AllValid 4) heads refl depth_on refl refl
      (dumpable (frames (shots tree_json generators visual [] (pos 5) (pos 6) 9 no_source)))
      (omega (arith, one_frame))
