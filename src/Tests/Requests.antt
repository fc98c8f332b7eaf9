-- ===== src/Tests/Requests.antt =====
-- The parameters, the sessions and the commands at concrete inputs.
use sim_vision_sdk.Prelude.{
  ◌≡◌, ◌⊎◌, ◌↔◌, refl, true, false, some, [], ◌∷◌, text, text_eq, arith, if◌then◌else◌, text-eq,
  ℕ-eq, to_lower,
}
use sim_vision_sdk.Prelude.Int.{pos}
use sim_vision_sdk.Prelude.Map
use sim_vision_sdk.Prelude.Map.{lookup}
use sim_vision_sdk.Prelude.Set.{contains}
use sim_vision_sdk.Json.Tree.{Tree, str, int, obj, arr, nil, cons, end, field, tree_json}
use sim_vision_sdk.Types.{imu, data_type_from_string}
use sim_vision_sdk.Pipeline.{make_pipeline}
use sim_vision_sdk.Pipeline.Valid.{make_pipeline-AllValid}
use sim_vision_sdk.Pipeline.PopAll.{pending}
use sim_vision_sdk.Channels.{any_subscriber}
use sim_vision_sdk.Channels.Effects.{subscribed}
use sim_vision_sdk.Sessions.{is_connected}
use sim_vision_sdk.Parameters.{
  integer, Parameter, Parameters, accepted, register_parameter, set_value, assign, check_value,
  same_type, in_range_integer,
}
use sim_vision_sdk.Parameters.SetValue.{Settable, set_value_iff}
use sim_vision_sdk.Parameters.Valid.{IsValid, register_parameter-IsValid}
use sim_vision_sdk.Startup.{int_parameter}
use sim_vision_sdk.Response.{success}
use sim_vision_sdk.Commands.Objects.{World}
use sim_vision_sdk.Commands.Parse.{expand_name, expand_types}
use sim_vision_sdk.Commands.{Returns, cmd_disconnect, channel_type, is_nil, handle}
use sim_vision_sdk.Commands.Invariant.{WorldInv, Keeps, handle-WorldInv}
use sim_vision_sdk.Commands.Flushes.{cmd_disconnect_lem}
use sim_vision_sdk.Tests.Control.{a, b, busy, busy-Inv}

-- The gain alone, from 0 to 100.
abbrev pub gain : Parameter tree_json
gain = int_parameter tree_json (text "gain") (pos 50) (pos 0) (pos 100) false

abbrev pub gains : Parameters tree_json
gains = (text "gain", gain) ∷ []

abbrev gains' : Parameters tree_json
gains' = (text "gain", record gain { value = integer (pos 70) }) ∷ []

set_gain : set_value tree_json gains (text "gain") (integer (pos 70)) ≡ accepted gains'
unfolding set_value assign same_type check_value in_range_integer lookup Map.insert
set_gain = refl

pub gains-IsValid : IsValid tree_json gains
unfolding register_parameter Map.insert lookup
gains-IsValid =
    register_parameter-IsValid tree_json [] gain (λ name p e. absurd (ground (arith, e)))
      (omega arith, omega arith)

set_value_iff_example :
    ((ps' : Parameters tree_json) × (set_value tree_json gains (text "gain") (integer (pos 70))
        ≡ accepted ps'))
    ↔ ((p : Parameter tree_json) × Settable tree_json gains (text "gain") (integer (pos 70)) p)
set_value_iff_example = set_value_iff tree_json gains (text "gain") (integer (pos 70))

-- Both clients are connected, and nothing waits.
abbrev pub world : World tree_json
world = record {
  sessions = a ∷ b ∷ [];
  channels = busy;
  params = gains;
  pipeline = make_pipeline 4;
  publisher = record {
    sent_2d = 0;
    sent_3d = 0;
    sent_sensor = 0;
    dropped_hwm = 0;
    shutdown_sent = 0;
  };
  pair_count = 0;
  frames_produced = 0;
}

pub world-WorldInv : WorldInv tree_json world
unfolding is_connected contains lookup
world-WorldInv = record {
  counts = busy-Inv;
  linked = λ c off. ground (arith, off);
  queues = make_pipeline-AllValid 4;
  values = gains-IsValid;
}

pub a_connected : is_connected world.sessions a ≡ true
unfolding is_connected contains
a_connected = refl

-- `{"data_types": ["imu"]}`
abbrev pub imu_body : Tree
imu_body = obj (field (text "data_types") (arr (cons (str (text "imu")) nil)) end)

pub imu_types : is_nil tree_json (expand_types tree_json imu_body) ≡ false
unfolding expand_types expand_name to_lower data_type_from_string
imu_types = refl

handle-WorldInv_example : Keeps tree_json (handle tree_json world (text "stop_capture") imu_body a)
handle-WorldInv_example =
    handle-WorldInv tree_json world (text "stop_capture") imu_body a world-WorldInv

cmd_disconnect_lem_example : Returns tree_json (cmd_disconnect tree_json world a) (λ w' r.
    (r.code ≡ success)
    × (is_connected w'.sessions b ≡ (if text_eq a b then false else is_connected world.sessions b))
    × (subscribed w'.channels b 3 ≡ (if text_eq a b then false else subscribed world.channels b 3))
    × ((any_subscriber w'.channels ≡ true) ⊎ (pending w'.pipeline ≡ [])))
cmd_disconnect_lem_example =
    cmd_disconnect_lem tree_json world a b 3 (make_pipeline-AllValid 4) a_connected

-- `{"data_type": "imu"}`
abbrev channel_body : Tree
channel_body = obj (field (text "data_type") (str (text "imu")) end)

reads_imu : channel_type tree_json channel_body ≡ some (some imu)
unfolding channel_type to_lower data_type_from_string
reads_imu = refl

-- `{"data_type": 5}`
abbrev bad_body : Tree
bad_body = obj (field (text "data_type") (int (pos 5)) end)

no_slash : contains b'/' (text "startcapture") ≡ false
unfolding contains
no_slash = refl
