-- ===== src/Parameters.antt =====
-- common/Parameter.h and common/Parameter.cpp: parameters with ranges. The map is an `unordered_map`,
-- whose order of iteration is not specified: here it is the order of registration.
pub mod SetValue
pub mod Valid
use sim_vision_sdk.Prelude.{
  ℕ, Bool, true, false, not, ◌&&◌, ◌||◌, Option, none, some, List, [], ◌∷◌, ◌++◌, map, Text, text,
  text_eq, text-eq, if◌then◌else◌,
}
use sim_vision_sdk.Prelude.Int.{ℤ, leb_ℤ}
use sim_vision_sdk.Prelude.Map
use sim_vision_sdk.Prelude.Map.{lookup}
use sim_vision_sdk.Prelude.Set.{contains}
use sim_vision_sdk.Json.{Json}

module _ (J : Json) where
  open J use {Float, float_leb}

  -- `std::variant<int64_t, double, std::string>`
  pub data ParamValue : Type 0 where
    integer : ℤ → ParamValue
    float : Float → ParamValue
    enum : Text → ParamValue

  pub record Parameter : Type 0 where
    pub name : Text
    pub value : ParamValue
    pub min : ParamValue
    pub max : ParamValue
    pub default_value : ParamValue
    pub is_readonly : Bool
    pub is_available : Bool
    pub needs_reopen : Bool
    pub enum_options : List Text

  abbrev pub Parameters : Type 0
  Parameters = List (Text × Parameter)

  unfoldable pub param_variant_type_name : ParamValue → Text
  param_variant_type_name (integer i) = text "Integer"
  param_variant_type_name (float x) = text "Float"
  param_variant_type_name (enum s) = text "Enum"

  unfoldable pub same_type : ParamValue → ParamValue → Bool
  same_type (integer _) (integer _) = true
  same_type (float _) (float _) = true
  same_type (enum _) (enum _) = true
  same_type _ _ = false

  -- `in_range` at `int64_t` and at `double`: bounds of another type do not bound.
  unfoldable pub in_range_integer : ℤ → ParamValue → ParamValue → Bool
  in_range_integer v (integer lo) (integer hi) = leb_ℤ lo v && leb_ℤ v hi
  in_range_integer v _ _ = true

  unfoldable pub in_range_float : Float → ParamValue → ParamValue → Bool
  in_range_float v (float lo) (float hi) = float_leb lo v && float_leb v hi
  in_range_float v _ _ = true

  abbrev is_empty : List Text → Bool
  is_empty [] = true
  is_empty (_ ∷ _) = false

  unfoldable pub enum_allowed : List Text → Text → Bool
  enum_allowed vals v = is_empty vals || contains v vals

  unfoldable pub register_parameter : Parameters → Parameter → Parameters
  register_parameter ps p = Map.insert p.name p ps

  -- `set_value`: the new map, or the message in `err`, with the map unchanged.
  pub data SetResult : Type 0 where
    accepted : Parameters → SetResult
    refused : Text → SetResult

  -- the check of the value by its alternative, with the message of a failure
  unfoldable pub check_value : Text → Parameter → ParamValue → Option Text
  check_value name p (integer i) =
      if in_range_integer i p.min p.max
      then none
      else some (text "value out of range for parameter: " ++ name)
  check_value name p (float x) =
      if in_range_float x p.min p.max
      then none
      else some (text "value out of range for parameter: " ++ name)
  check_value name p (enum s) =
      if enum_allowed p.enum_options s
      then none
      else some (text "invalid enum value for parameter: " ++ name)

  -- `set_value` on a parameter that was found
  unfoldable pub assign : Parameters → Text → Parameter → ParamValue → SetResult
  assign ps name p value =
      if p.is_readonly
      then refused (text "parameter is read-only: " ++ name)
      else if not (same_type p.value value)
      then refused (text "type mismatch for parameter: " ++ name)
      else elim (check_value name p value) [
        | some message ↦ refused message
        | none ↦ accepted (Map.insert name (record p { value = value }) ps)
      ]

  unfoldable pub set_value : Parameters → Text → ParamValue → SetResult
  set_value ps name value = elim (lookup name ps) [
    | none ↦ refused (text "unknown parameter: " ++ name)
    | some p ↦ assign ps name p value
  ]

  unfoldable pub get : Parameters → Text → Option Parameter
  get ps name = lookup name ps

  unfoldable pub all : Parameters → List Parameter
  all ps = map (λ e. e.1) ps

  unfoldable pub names : Parameters → List Text
  names ps = map (λ e. e.0) ps

  abbrev is_some : Option Parameter → Bool
  is_some none = false
  is_some (some _) = true

  unfoldable pub has : Parameters → Text → Bool
  has ps name = is_some (lookup name ps)
