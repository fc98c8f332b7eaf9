-- ===== src/Tests/Setup.antt =====
-- The configuration, the loaded images and the log at concrete inputs.
use sim_vision_sdk.Prelude.{
  inl, ◌≤◌, arith, ℕ, ◌≡◌, ◌↔◌, refl, true, Option, none, some, List, [], ◌∷◌, ◌++◌, Text, text,
  text-eq,
}
use sim_vision_sdk.Prelude.Int.{negsuc, pos, ◌≤ℤ◌}
use sim_vision_sdk.Prelude.Map.{insert}
use sim_vision_sdk.Json.Tree.{Tree, str, int, obj, end, field, tree_json}
use sim_vision_sdk.Config.Load.{
  load, read_config, read_zmq, read_endpoints, check_admin, check_capture, check_zmq,
  raise_queue_size, read_admin,
}
use sim_vision_sdk.Config.Checked.{Checked, load-Checked}
use sim_vision_sdk.Server.Listening.{Calls, start, start_lem}
use sim_vision_sdk.Startup.{register_parameters}
use sim_vision_sdk.Parameters.Valid.{IsValid}
use sim_vision_sdk.Startup.Configured.{load-register_parameters}
use sim_vision_sdk.Source.{Source}
use sim_vision_sdk.Source.Bounds.{probe_image-Defined}
use sim_vision_sdk.Source.Read.{Defined}
use sim_vision_sdk.Source.Probe.{Defaults, probe_image}
use sim_vision_sdk.Source.Probe.{jpeg_magic}
use sim_vision_sdk.Source.Jpeg.{
  Segment, Frame, all_bytes, frame_bytes, frame_info, probe_image-Frame,
}
use sim_vision_sdk.Source.Generate.{
  Real, generate_depth, generate_disparity, generate_confidence, generate_negative,
}
use sim_vision_sdk.Source.Loaded.{IsLoaded, load_lem}
use sim_vision_sdk.Source.Load as Images
use sim_vision_sdk.Source.Load.{File}

abbrev three_endpoints : Tree
three_endpoints = obj (
    field (text "visual_2d") (str (text "a"))
      (field (text "visual_3d") (str (text "b")) (field (text "sensor_data") (str (text "c")) end)))

-- A configuration with the three endpoints, and the default values else.
abbrev pub document : Tree
document = obj (
    field (text "admin_server") (obj end)
      (field (text "zmq") (obj (field (text "endpoints") three_endpoints end)) end))

pub loads_document : (load tree_json [] [] (some (some document))).1 ≡ []
unfolding load read_config read_zmq read_endpoints check_admin check_capture check_zmq
    raise_queue_size read_admin insert
loads_document = refl

load-Checked_example : Checked tree_json (load tree_json [] [] (some (some document))).0
load-Checked_example = load-Checked tree_json [] [] (some (some document)) loads_document

load-register_parameters_example :
    IsValid tree_json
      (register_parameters tree_json (load tree_json [] [] (some (some document))).0.capture.fps)
    ↔ ((load tree_json [] [] (some (some document))).0.capture.fps ≤ℤ pos 120)
load-register_parameters_example =
    load-register_parameters tree_json [] [] (some (some document)) loads_document

-- `{"gain": 200}`
abbrev settings : Tree
settings = obj (field (text "gain") (int (pos 200)) end)

-- The start of a JPEG file.
abbrev jpeg : List ℕ
jpeg = 255 ∷ 216 ∷ 255 ∷ 224 ∷ 0 ∷ 2 ∷ []

abbrev hd : Defaults
hd = record { def_w = pos 1280; def_h = pos 720; def_ch = pos 4 }

probe_image-Defined_example : Defined (probe_image jpeg hd)
probe_image-Defined_example = probe_image-Defined jpeg hd

abbrev left_file : File
left_file = record {
  is_regular_file = true;
  filename = text "L_001.jpg";
  path = text "d/L_001.jpg";
}

abbrev no_pairs : Source
no_pairs = record { pairs = []; cursor = 0; width = pos 4; height = pos 2; channels = pos 4 }

abbrev contents : Text → Option (List ℕ)
contents path = some jpeg

load_lem_example :
    (s' : Source) × (Images.load contents (text "d") (Images.entries (left_file ∷ [])) no_pairs
      ≡ some (true, [], s'))
    × IsLoaded contents (left_file ∷ []) no_pairs s'
load_lem_example = load_lem contents (text "d") (left_file ∷ []) no_pairs refl

-- A segment of no bytes, and then a header of 2 by 3 pixels of one component.
abbrev app_segment : Segment
app_segment = record { marker = 224; high = 0; low = 2; payload = [] }

abbrev grey_frame : Frame
grey_frame = record {
  marker = 192;
  size_high = 0;
  size_low = 11;
  precision = 8;
  height_high = 0;
  height_low = 2;
  width_high = 0;
  width_low = 3;
  components = 1;
}

probe_image-Frame_example :
    probe_image
      (jpeg_magic ++ (all_bytes (app_segment ∷ []) ++ (frame_bytes grey_frame ++ (0 ∷ []))))
      hd
    ≡ some (frame_info grey_frame)
probe_image-Frame_example =
    probe_image-Frame (app_segment ∷ []) grey_frame (0 ∷ []) hd
      (record { other = ((λ e. ground (arith, e)), (λ e. ground (arith, e))); size = refl }, tt)
      (inl refl)

-- Numbers with no content, which are enough for the sizes.
abbrev no_reals : Real
no_reals = record {
  Double = ℕ;
  Float = ℕ;
  bytes = λ x. 0 ∷ 0 ∷ 0 ∷ 0 ∷ [];
  of_nat = λ n. n;
  literal = λ m k. m;
  add = λ a b. a;
  sub = λ a b. a;
  mul = λ a b. a;
  div = λ a b. a;
  sin = λ a. a;
  cos = λ a. a;
  to_float = λ a. a;
  literal_f = λ m k. m;
  of_nat_f = λ n. n;
  add_f = λ a b. a;
  mul_f = λ a b. a;
  div_f = λ a b. a;
  min_f = λ a b. a;
  max_f = λ a b. a;
}

generate_negative_example :
    (generate_depth no_reals (negsuc 0) (pos 720) 1 ≡ none)
    × (generate_disparity no_reals (negsuc 0) (pos 720) 1 ≡ none)
    × (generate_confidence no_reals (negsuc 0) (pos 720) 1 ≡ none)
generate_negative_example = generate_negative no_reals 0 1 (pos 720) (omega arith)

-- Every call succeeds.
abbrev calls : Calls
calls = record {
  new_context = true;
  certificate = λ path. true;
  private_key = λ path. true;
  new_socket = true;
  bind = λ host port. true;
  listen = true;
}

listens : start calls (load tree_json [] [] (some (some document))).0.admin ≡ some (8443, 4)
unfolding start load read_config read_zmq read_endpoints check_admin check_capture check_zmq
    raise_queue_size read_admin insert
listens = refl

start_lem_example :
    let port = (load tree_json [] [] (some (some document))).0.admin.port in
    (1 ≤ 4) × ((pos 8443 ≡ port) ↔ (port ≤ℤ pos 65535))
start_lem_example =
    start_lem tree_json [] [] (some (some document)) calls {out = (8443, 4)} loads_document listens
