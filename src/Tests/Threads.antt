-- ===== src/Tests/Threads.antt =====
-- The threads at concrete inputs.
use sim_vision_sdk.Prelude.{
  ℕ, ◌+◌, ◌<◌, ◌≡◌, ◌⊎◌, refl, false, some, none, List, [], ◌∷◌, ◌++◌, text, arith, text-eq, ℕ-eq,
}
use sim_vision_sdk.Prelude.Int.{pos}
use sim_vision_sdk.Prelude.Map.{lookup}
use sim_vision_sdk.Json.Tree.{Tree, str, int, obj, field, end, tree_json}
use sim_vision_sdk.Types.Clock.{now_unix_sec, now_unix_nsec, nanoseconds, billion, timestamp_lem}
use sim_vision_sdk.Pipeline.{make_pipeline}
use sim_vision_sdk.Queue.{Queue, make}
use sim_vision_sdk.Queue.Valid.{IsValid}
use sim_vision_sdk.Queue.Refine.{contents, window}
use sim_vision_sdk.Queue.TwoConsumers.{contended, turns, overtaken, overtaken_lem}
use sim_vision_sdk.Sessions.{is_connected}
use sim_vision_sdk.Channels.Effects.{subscribed, among}
use sim_vision_sdk.Commands.Parse.{expand_types}
use sim_vision_sdk.Commands.Workers.{Event, begin, next, quiet, happens}
use sim_vision_sdk.Commands.Interleaved.{Core, interleaved-Core, Evolved, interleaved_types}
use sim_vision_sdk.Commands.Race.{race, subscribed_after_disconnect}
use sim_vision_sdk.Tests.Control.{a, b}
use sim_vision_sdk.Tests.Requests.{world, world-WorldInv, imu_body, imu_types, a_connected}

-- A full queue of two slots.
abbrev two_frames : Queue ℕ
two_frames = record {
  capacity = 2;
  buffer = some 7 ∷ some 8 ∷ [];
  head = 2;
  tail = 0;
  pushed = 2;
  dropped = 0;
}

two_frames-IsValid : IsValid two_frames
two_frames-IsValid = record {
  positive = omega arith;
  slots = refl;
  ordered = omega arith;
  fits = omega arith;
  bounded = omega arith;
  counted = omega arith;
}

overtaken_lem_example :
    let s = turns (contended two_frames) overtaken in
    let left = window two_frames.buffer 2 2 0 in
    (contents two_frames ≡ s.threads.returned ++ left)
    × (s.drained ≡ none ∷ [])
    × (contents s.threads.queue ≡ none ∷ left)
overtaken_lem_example = overtaken_lem two_frames two_frames-IsValid (omega arith)

-- Two commands of two clients, call by call in turn.
abbrev in_turn : List (Event tree_json)
in_turn =
    begin (text "start_capture") imu_body a
    ∷ begin (text "disconnect") imu_body b
    ∷ next 0
    ∷ next 1
    ∷ next 1
    ∷ next 0
    ∷ next 1
    ∷ []

world-Core : Core tree_json world
unfolding make_pipeline make
world-Core = record {
  counts = world-WorldInv.counts;
  slots = ((omega arith, refl), (omega arith, refl), (omega arith, refl));
  values = world-WorldInv.values;
}

interleaved-Core_example : Core tree_json (happens tree_json (quiet tree_json world) in_turn).world
interleaved-Core_example = interleaved-Core tree_json world in_turn world-Core

-- A client sets the gain while another starts to capture.
abbrev gain_body : Tree
gain_body = obj (field (text "name") (str (text "gain")) (field (text "value") (int (pos 70)) end))

abbrev setting : List (Event tree_json)
setting =
    begin (text "set_parameter") gain_body a
    ∷ begin (text "start_capture") imu_body b
    ∷ next 0
    ∷ next 1
    ∷ next 0
    ∷ next 1
    ∷ []

interleaved_types_example :
    Evolved tree_json
      (lookup (text "gain") world.params)
      (lookup (text "gain") (happens tree_json (quiet tree_json world) setting).world.params)
interleaved_types_example = interleaved_types tree_json world setting (text "gain")

subscribed_after_disconnect_example :
    let w' =
      (happens tree_json (quiet tree_json world) (race tree_json imu_body imu_body a)).world in
    (is_connected w'.sessions a ≡ false)
    × (subscribed w'.channels a 3 ≡ among 3 (expand_types tree_json imu_body))
subscribed_after_disconnect_example =
    subscribed_after_disconnect tree_json world imu_body imu_body a 3 a_connected imu_types

-- The clock is read just before a second ends, and just after.
timestamp_lem_example :
    let stamp = nanoseconds (now_unix_sec 5999999999) (now_unix_nsec 6000000001) in
    ((now_unix_sec 5999999999 ≡ now_unix_sec 6000000001) × (stamp ≡ 6000000001))
    ⊎ ((now_unix_sec 5999999999 + 1 ≡ now_unix_sec 6000000001)
        × (stamp + billion ≡ 6000000001)
        × (stamp < 5999999999))
timestamp_lem_example = timestamp_lem 5999999999 6000000001 (omega arith) (omega arith)
