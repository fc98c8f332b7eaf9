-- ===== src/Tests/Whole.antt =====
-- The program as a whole at concrete inputs.
use sim_vision_sdk.Prelude.{
  ℕ, ◌<◌, ◌≡◌, ◌⊎◌, refl, ap, subst, sym, ◌∙◌, true, false, Option, some, none, [], ◌∷◌, ◌++◌, Text,
  text, text_eq, text-eq, ℕ-eq, arith, if◌then◌else◌, Bool-cases, inl, inr,
}
use sim_vision_sdk.Prelude.Int.{pos, ◌≤ℤ◌}
use sim_vision_sdk.Prelude.Map
use sim_vision_sdk.Prelude.Map.{lookup, IsUnique, lookup-insert, insert-IsUnique}
use sim_vision_sdk.Json.{Json, IsBuilt, no_field, one_more, ObjectLaw}
use sim_vision_sdk.Json.Tree.{
  Tree, Fields, int, obj, end, field, tree_json, tree_items, tree_set, pairs_of, store,
}
use sim_vision_sdk.Parameters.{integer, Parameter, Parameters, all}
use sim_vision_sdk.Startup.Settings.{
  load_camera_setting, save_camera_setting, save_fields, param_value_to_json,
}
use sim_vision_sdk.Startup.Saved.{saved_restored}
use sim_vision_sdk.Parameters.SetValue.{SameType}
use sim_vision_sdk.Startup.{int_parameter}
use sim_vision_sdk.Types.{visual_2d}
use sim_vision_sdk.Types.Frame.{ChannelFrame}
use sim_vision_sdk.Pipeline.{Pipeline, make_pipeline}
use sim_vision_sdk.Pipeline.Valid.{AllValid, make_pipeline-AllValid}
use sim_vision_sdk.Pipeline.PopAll.{pending}
use sim_vision_sdk.Queue.{make}
use sim_vision_sdk.Zmq.Trace.{trace_zmq, trace_zmq-SendLaw}
use sim_vision_sdk.Publisher.Running.{PerGroup, Publisher, construct, send_ctrl, publish_shutdown}
use sim_vision_sdk.Publisher.Delivered.{on_wire}
use sim_vision_sdk.Publisher.Round.{round, group_messages, round_delivers}
use sim_vision_sdk.Config.Load.{
  load, read_config, read_zmq, read_endpoints, check_admin, check_capture, check_zmq,
  raise_queue_size, read_admin,
}
use sim_vision_sdk.Server.Listening.{Calls}
use sim_vision_sdk.Server.Listening as Listening
use sim_vision_sdk.Source.{no_source, set_image_channels, set_image_size}
use sim_vision_sdk.Source.Load as Images
use sim_vision_sdk.Publisher.Running as Running
use sim_vision_sdk.Startup.Main.{Surroundings, Node, ready, boot, objects, start_threads}
use sim_vision_sdk.Startup.Ready.{configured, IsReady, boot-IsReady}
use sim_vision_sdk.Tests.Setup.{document}
use sim_vision_sdk.Tests.Frames.{roomy, clock, frame}

-- The trees, with a text format that knows one document: a gain of 70.
abbrev saving : Json
saving = record tree_json { parse = λ s. some (obj (field (text "gain") (int (pos 70)) end)) }

abbrev IsObject : Tree → Type 0
IsObject t = (fs : Fields) × (t ≡ obj fs)

pairs_of-store :
    (fs : Fields) (k : Text) (v : Tree) → pairs_of (store fs k v) ≡ Map.insert k v (pairs_of fs)
unfolding Map.insert
pairs_of-store end k v = refl
pairs_of-store (field j w fs) k v = elim (Bool-cases (text_eq j k)) [
  | inl e ↦ rw (e, store) refl
  | inr e ↦ rw (e, store) (ap (◌∷◌ (j, w)) (pairs_of-store fs k v))
]

tree_items-set :
    (j : Tree) (k : Text) (v : Tree)
    → IsObject j
    → tree_items (tree_set j k v) ≡ Map.insert k v (tree_items j)
tree_items-set j k v (fs, e) =
    subst (λ t. tree_items (tree_set t k v) ≡ Map.insert k v (tree_items t)) (sym e)
      (pairs_of-store fs k v)

IsBuilt-IsObject : {j : Tree} → IsBuilt saving j → IsObject j
IsBuilt-IsObject no_field = (end, refl)
IsBuilt-IsObject (one_more {j} k v b) =
    let (fs, e) = IsBuilt-IsObject b in (store fs k v, ap (λ t. tree_set t k v) e)

saving-each_key_once : (j : Tree) → IsBuilt saving j → IsUnique (tree_items j)
saving-each_key_once j no_field = tt
saving-each_key_once j (one_more {j = i} k v b) =
    subst IsUnique (sym (tree_items-set i k v (IsBuilt-IsObject b)))
      (insert-IsUnique k v (tree_items i) (saving-each_key_once i b))

saving-ObjectLaw : ObjectLaw saving
saving-ObjectLaw = record {
  nothing_set = refl;
  each_key_once = saving-each_key_once;
  field_set = λ j v k n b.
      ap (lookup n) (tree_items-set j k v (IsBuilt-IsObject b))
      ∙ lookup-insert k n v (tree_items j);
  integer_back = λ i. refl;
  float_back = λ x. refl;
  string_back = λ s. refl;
}

-- The gain as it is registered, and as it was saved.
abbrev gain_at : ℕ → Parameter saving
gain_at n = record (int_parameter saving (text "gain") (pos 50) (pos 0) (pos 100) false) {
  value = integer (pos n);
}

abbrev at_gain : ℕ → Parameters saving
at_gain n = (text "gain", gain_at n) ∷ []

abbrev BothSame : Option (Parameter saving) → Option (Parameter saving) → Type 0
BothSame (some p) (some p') = SameType saving p'.value p.value
BothSame _ _ = Unit {0}

gain_same :
    (n : Text) (p p' : Parameter saving)
    → lookup n (at_gain 70) ≡ some p
    → lookup n (at_gain 50) ≡ some p'
    → SameType saving p'.value p.value
unfolding lookup
gain_same n p p' e e' = elim (Bool-cases (text_eq (text "gain") n)) [
  | inl same ↦
      subst (λ o. BothSame o (some p'))
        (subst (λ b. (if b then some (gain_at 70) else none) ≡ some p) same e)
        (subst (BothSame (some (gain_at 70)))
          (subst (λ b. (if b then some (gain_at 50) else none) ≡ some p') same e') tt)
  | inr other ↦ absurd (ground (arith, e, other))
]

saved_restored_example :
    lookup (text "gain") (load_camera_setting saving (at_gain 50) (some (saving.parse [])))
    ≡ some (record (gain_at 50) { value = integer (pos 70) })
unfolding lookup save_camera_setting save_fields param_value_to_json all
saved_restored_example =
    saved_restored saving saving-ObjectLaw (at_gain 70) (at_gain 50) [] (text "gain") (gain_at 70)
      (gain_at 50) (refl, tt) (refl, tt) gain_same refl refl refl
      (record { found = refl; writable = refl; typed = tt; allowed = (omega arith, omega arith) })

-- One frame waits.
abbrev waiting : Pipeline ChannelFrame
waiting = record (make_pipeline 2) {
  q2d = record {
    capacity = 2;
    buffer = some frame ∷ none ∷ [];
    head = 1;
    tail = 0;
    pushed = 1;
    dropped = 0;
  };
}

waiting-AllValid : AllValid waiting
unfolding make_pipeline
waiting-AllValid =
    let (_, b, c) = make_pipeline-AllValid {A = ChannelFrame} 2 in
    (
      record {
        positive = omega arith;
        slots = refl;
        ordered = omega arith;
        fits = omega arith;
        bounded = omega arith;
        counted = omega arith;
      },
      b,
      c,
    )

round_delivers_example :
    let (result, left) = round trace_zmq tree_json clock roomy waiting [] [] in
    (pending left ≡ [])
    × ((p' : Publisher trace_zmq) × (result ≡ some p')
        × ((0 < p'.stats.dropped_hwm)
            ⊎ ((p'.stats.dropped_hwm ≡ 0)
                × (on_wire trace_zmq p' visual_2d
                    ≡ on_wire trace_zmq roomy visual_2d
                      ++ group_messages trace_zmq tree_json trace_zmq-SendLaw clock 0
                          (text "p")
                          visual_2d
                          (pending waiting)))))
unfolding make_pipeline make
round_delivers_example =
    round_delivers trace_zmq tree_json trace_zmq-SendLaw clock roomy waiting [] [] visual_2d
      waiting-AllValid (λ e. ground (arith, e)) refl ((λ now. ([], refl)), tt) (omega arith)

-- Every call succeeds, the image directory is missing, and there are no settings.
abbrev surroundings : Surroundings tree_json trace_zmq
surroundings = record {
  config_path = [];
  exception_text = [];
  config_file = some (some document);
  settings_file = none;
  listing = Images.missing;
  contents = λ path. none;
  created = roomy.sockets;
  bind = λ s endpoint. (s, true);
  server_calls = record {
    new_context = true;
    certificate = λ path. true;
    private_key = λ path. true;
    new_socket = true;
    bind = λ host port. true;
    listen = true;
  };
}

-- The process as it is when `main` says that it is ready.
abbrev node : Node tree_json trace_zmq
node =
    let cfg = (configured tree_json trace_zmq surroundings).0 in
    record {
      world = objects tree_json trace_zmq cfg none no_source;
      source = no_source;
      publisher = record (construct trace_zmq cfg.zmq) { sockets = roomy.sockets; running = true };
      capturing = true;
      server = some (8443, 4);
    }

boots : boot tree_json trace_zmq surroundings ≡ ready node
unfolding boot load read_config read_zmq read_endpoints check_admin check_capture check_zmq
    raise_queue_size read_admin Map.insert start_threads Running.start Listening.start Images.load
    construct set_image_channels set_image_size
boots = refl

slow_enough : (configured tree_json trace_zmq surroundings).0.capture.fps ≤ℤ pos 120
unfolding load Map.insert
slow_enough = omega arith

boot-IsReady_example : IsReady tree_json trace_zmq node
boot-IsReady_example = boot-IsReady tree_json trace_zmq surroundings {node = node} slow_enough boots
