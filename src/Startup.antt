-- ===== src/Startup.antt =====
-- main.cpp: the parameters that `main` registers.
pub mod Registered
pub mod Configured
pub mod Settings
pub mod Items
pub mod Saved
pub mod Main
pub mod Ready
use sim_vision_sdk.Prelude.{Bool, true, false, List, [], ◌∷◌, Text, text}
use sim_vision_sdk.Prelude.Int.{ℤ, pos}
use sim_vision_sdk.Json.{Json}
use sim_vision_sdk.Parameters.{ParamValue, integer, enum, Parameter, Parameters, register_parameter}

module _ (J : Json) where
  -- `add_int`
  abbrev pub int_parameter : Text → ℤ → ℤ → ℤ → Bool → Parameter J
  int_parameter n def lo hi reopen = record {
    name = n;
    value = integer def;
    min = integer lo;
    max = integer hi;
    default_value = integer def;
    is_readonly = false;
    is_available = true;
    needs_reopen = reopen;
    enum_options = [];
  }

  -- `add_enum`: `min` and `max` keep the variant's first alternative, which is 0.
  abbrev pub enum_parameter : Text → Text → List Text → Bool → Parameter J
  enum_parameter n def vals reopen = record {
    name = n;
    value = enum def;
    min = integer (pos 0);
    max = integer (pos 0);
    default_value = enum def;
    is_readonly = false;
    is_available = true;
    needs_reopen = reopen;
    enum_options = vals;
  }

  -- the read-only `scene_illuminance`
  abbrev pub scene_illuminance : Parameter J
  scene_illuminance =
      record (int_parameter (text "scene_illuminance") (pos 0) (pos 0) (pos 0) false) {
        is_readonly = true;
      }

  abbrev pub depth_modes : List Text
  depth_modes =
      text "NONE"
      ∷ text "NEURAL_LIGHT"
      ∷ text "NEURAL"
      ∷ text "NEURAL_PLUS"
      ∷ text "PERFORMANCE"
      ∷ text "QUALITY"
      ∷ text "ULTRA"
      ∷ []

  abbrev pub resolutions : List Text
  resolutions = text "HD2K" ∷ text "HD1080" ∷ text "HD720" ∷ text "HD1200" ∷ text "VGA" ∷ []

  -- In the order of registration, with the configured frame rate.
  unfoldable pub registered : ℤ → List (Parameter J)
  registered fps =
      int_parameter (text "fps") fps (pos 1) (pos 120) true
      ∷ enum_parameter (text "resolution") (text "HD720") resolutions true
      ∷ enum_parameter (text "depth_mode") (text "NEURAL") depth_modes true
      ∷ int_parameter (text "exposure_time") (pos 0) (pos 0) (pos 33333) false
      ∷ int_parameter (text "gain") (pos 50) (pos 0) (pos 100) false
      ∷ int_parameter (text "analog_gain") (pos 1000) (pos 1000) (pos 16000) false
      ∷ int_parameter (text "digital_gain") (pos 1) (pos 1) (pos 256) false
      ∷ enum_parameter (text "auto_exposure_gain") (text "On") (text "On" ∷ text "Off" ∷ []) false
      ∷ int_parameter (text "exposure_compensation") (pos 50) (pos 0) (pos 100) false
      ∷ int_parameter (text "denoising") (pos 50) (pos 0) (pos 100) false
      ∷ scene_illuminance
      ∷ enum_parameter (text "mem_type") (text "CPU") (text "CPU" ∷ text "GPU" ∷ []) false
      ∷ int_parameter (text "target_fps_2d") (pos 15) (pos 0) (pos 240) false
      ∷ int_parameter (text "target_fps_3d") (pos 15) (pos 0) (pos 240) false
      ∷ int_parameter (text "target_fps_sensor") (pos 200) (pos 0) (pos 1000) false
      ∷ []

  unfoldable pub register_all : Parameters J → List (Parameter J) → Parameters J
  register_all ps [] = ps
  register_all ps (p ∷ more) = register_all (register_parameter J ps p) more

  unfoldable pub register_parameters : ℤ → Parameters J
  unfolding register_all
  register_parameters fps = register_all [] (registered fps)
