-- ===== src/Startup/Settings.antt =====
-- main.cpp: `load_camera_setting` and `save_camera_setting`. What the file holds is an argument: `none` if it
-- cannot be opened, `some none` if it is no JSON.
use sim_vision_sdk.Prelude.{
  ◌≡◌, Option, none, some, List, [], ◌∷◌, Text, text-eq, refl, sym, subst, Option-cases, inl, inr,
}
use sim_vision_sdk.Prelude.Int.{ℤ}
use sim_vision_sdk.Json.{Json}
use sim_vision_sdk.Parameters.{
  ParamValue, integer, float, enum, Parameter, Parameters, SetResult, accepted, refused, get,
  set_value, all,
}
use sim_vision_sdk.Parameters.Valid.{IsValid, set_value-IsValid}

module _ (J : Json) where
  open J use {Value, get_integer, get_float, get_string, items, object, set_field, dump}

  abbrev as_integer : Option ℤ → Option (ParamValue J)
  as_integer none = none
  as_integer (some i) = some (integer i)

  abbrev as_float : Option J.Float → Option (ParamValue J)
  as_float none = none
  as_float (some x) = some (float x)

  abbrev as_enum : Option Text → Option (ParamValue J)
  as_enum none = none
  as_enum (some s) = some (enum s)

  -- the value of an item, read as the type of the parameter's own
  unfoldable pub setting_value : ParamValue J → Value → Option (ParamValue J)
  setting_value (integer _) v = as_integer (get_integer v)
  setting_value (float _) v = as_float (get_float v)
  setting_value (enum _) v = as_enum (get_string v)

  -- `pm.set_value(name, v, err)`, its result ignored
  abbrev pub after_set : Parameters J → SetResult J → Parameters J
  after_set ps (accepted ps') = ps'
  after_set ps (refused message) = ps

  -- The loop over the items, which an exception ends.
  unfoldable pub load_items : Parameters J → List (Text × Value) → Parameters J
  load_items ps [] = ps
  load_items ps ((name, item) ∷ more) = elim (get J ps name) [
    | none ↦ load_items ps more
    | some cur ↦ elim (setting_value cur.value item) [
      | none ↦ ps
      | some v ↦ load_items (after_set ps (set_value J ps name v)) more
    ]
  ]

  unfoldable pub load_camera_setting : Parameters J → Option (Option Value) → Parameters J
  unfolding load_items
  load_camera_setting ps none = ps
  load_camera_setting ps (some none) = ps
  load_camera_setting ps (some (some j)) = load_items ps (items j)

  -- `param_value_to_json`
  unfoldable pub param_value_to_json : Parameter J → Value
  param_value_to_json p = elim p.value [
    | integer i ↦ J.of_integer i
    | float x ↦ J.of_float x
    | enum s ↦ J.of_string s
  ]

  -- The loop of `save_camera_setting`.
  unfoldable pub save_fields : Value → List (Parameter J) → Value
  unfolding param_value_to_json
  save_fields j [] = j
  save_fields j (p ∷ more) = save_fields (set_field j p.name (param_value_to_json p)) more

  -- What `save_camera_setting` writes; `none` if `dump` throws.
  unfoldable pub save_camera_setting : Parameters J → Option Text
  unfolding save_fields
  save_camera_setting ps = dump (save_fields object (all J ps))

  after_set-IsValid :
      (ps : Parameters J) (name : Text) (v : ParamValue J) (r : SetResult J)
      → set_value J ps name v ≡ r
      → IsValid J ps
      → IsValid J (after_set ps r)
  after_set-IsValid ps name v (accepted ps') e ok = set_value-IsValid J ps name v ok e
  after_set-IsValid ps name v (refused message) e ok = ok

  -- One round of the loop: the name is unknown, or reading the value throws, or it is set.
  pub load_items_unknown :
      (ps : Parameters J) (name : Text) (item : Value) (more : List (Text × Value))
      → get J ps name ≡ none
      → load_items ps ((name, item) ∷ more) ≡ load_items ps more
  unfolding load_items
  load_items_unknown ps name item more e = rw (e, load_items)

  pub load_items_throws :
      (ps : Parameters J) (name : Text) (item : Value) (more : List (Text × Value))
      (cur : Parameter J)
      → get J ps name ≡ some cur
      → setting_value cur.value item ≡ none
      → load_items ps ((name, item) ∷ more) ≡ ps
  unfolding load_items
  load_items_throws ps name item more cur e e' = rw (e, load_items) (rw e')

  pub load_items_sets :
      (ps : Parameters J) (name : Text) (item : Value) (more : List (Text × Value))
      (cur : Parameter J) (v : ParamValue J)
      → get J ps name ≡ some cur
      → setting_value cur.value item ≡ some v
      → load_items ps ((name, item) ∷ more) ≡ load_items (after_set ps (set_value J ps name v)) more
  unfolding load_items
  load_items_sets ps name item more cur v e e' = rw (e, load_items) (rw e')

  load_items-IsValid :
      (ps : Parameters J) (its : List (Text × Value)) → IsValid J ps → IsValid J (load_items ps its)
  unfolding load_items
  load_items-IsValid ps [] ok = ok
  load_items-IsValid ps ((name, item) ∷ more) ok = elim (Option-cases (get J ps name)) [
    | inl e ↦
        subst (IsValid J) (sym (load_items_unknown ps name item more e))
          (load_items-IsValid ps more ok)
    | inr (cur, e) ↦ elim (Option-cases (setting_value cur.value item)) [
      | inl e' ↦ subst (IsValid J) (sym (load_items_throws ps name item more cur e e')) ok
      | inr (v, e') ↦ subst (IsValid J) (sym (load_items_sets ps name item more cur v e e')) (
          load_items-IsValid (after_set ps (set_value J ps name v)) more
            (after_set-IsValid ps name v (set_value J ps name v) refl ok))
    ]
  ]

  -- Whatever the settings file holds, loading it keeps every parameter at a value that it allows.
  pub load_camera_setting-IsValid :
      (ps : Parameters J) (file : Option (Option Value))
      → IsValid J ps
      → IsValid J (load_camera_setting ps file)
  unfolding load_camera_setting
  load_camera_setting-IsValid ps none ok = ok
  load_camera_setting-IsValid ps (some none) ok = ok
  load_camera_setting-IsValid ps (some (some j)) ok = load_items-IsValid ps (items j) ok
