-- ===== src/Startup/Saved.antt =====
-- main.cpp: what `save_camera_setting` writes is what `load_camera_setting` restores.
use sim_vision_sdk.Prelude.{
  ◌≡◌, refl, sym, ap, subst, ◌∙◌, Option, none, some, [], ◌∷◌, Text, text_eq, text_eq_iff, text-eq,
  if◌then◌else◌, arith, Option-cases, Bool-cases, inl, inr,
}
use sim_vision_sdk.Prelude.Map.{lookup, IsUnique}
use sim_vision_sdk.Json.{Json, IsBuilt, no_field, one_more, ObjectLaw}
use sim_vision_sdk.Parameters.{ParamValue, integer, float, enum, Parameter, Parameters, all}
use sim_vision_sdk.Parameters.SetValue.{SameType, Settable}
use sim_vision_sdk.Startup.Items.{Fits, as_read, load_items_restores}
use sim_vision_sdk.Startup.Settings.{
  setting_value, load_camera_setting, param_value_to_json, save_fields, save_camera_setting,
}

module _ (J : Json) where
  -- Every parameter is stored under its own name, once.
  abbrev pub IsNamed : Parameters J → Type 0
  IsNamed [] = Unit {0}
  IsNamed ((k, p) ∷ m) = (p.name ≡ k) × IsNamed m

  -- The item of a parameter of the map.
  abbrev item_of : Option (Parameter J) → Option J.Value → Option J.Value
  item_of none other = other
  item_of (some p) other = some (param_value_to_json J p)

  item_of-step :
      (k n : Text) (p : Parameter J) (m : Parameters J) (other : Option J.Value)
      → p.name ≡ k
      → lookup k m ≡ none
      → item_of (lookup n m) (if text_eq p.name n then some (param_value_to_json J p) else other)
        ≡ item_of (if text_eq k n then some p else lookup n m) other
  item_of-step k n p m other named absent = elim (Bool-cases (text_eq k n)) [
    | inl e ↦
        rw
          (
            ap (λ i. text_eq i n) named ∙ e,
            e,
            subst (λ i. lookup i m ≡ none) ((text_eq_iff k n).0 e) absent,
          )
          refl
    | inr e ↦ rw (ap (λ i. text_eq i n) named ∙ e, e) refl
  ]

  module _ (law : ObjectLaw J) where
    -- The object that is saved has just the parameters' values.
    save_fields_lem :
        (j : J.Value) (ps : Parameters J) (n : Text)
        → IsBuilt J j
        → IsNamed ps
        → IsUnique ps
        → IsBuilt J (save_fields J j (all J ps))
          × (lookup n (J.items (save_fields J j (all J ps)))
              ≡ item_of (lookup n ps) (lookup n (J.items j)))
    unfolding save_fields all lookup
    save_fields_lem j [] n b named u = (b, refl)
    save_fields_lem j ((k, p) ∷ m) n b named u =
        let v = param_value_to_json J p in
        let (built, e) =
          save_fields_lem (J.set_field j p.name v) m n (one_more p.name v b) named.1 u.1 in
        (
          built,
          e
              ∙ ap (item_of (lookup n m)) (law.field_set j v p.name n b)
              ∙ item_of-step k n p m _ named.0 u.0,
        )

    -- A value is read back as what it was.
    setting_value-param_value_to_json :
        (old : ParamValue J) (p : Parameter J)
        → SameType J old p.value
        → setting_value J old (param_value_to_json J p) ≡ some p.value
    unfolding setting_value param_value_to_json
    setting_value-param_value_to_json old p same = by_type old p.value refl same
      where
        by_type :
            (old v : ParamValue J)
            → p.value ≡ v
            → SameType J old v
            → setting_value J old (param_value_to_json J p) ≡ some v
        by_type (integer _) (integer i) e h = rw e (rw (law.integer_back i) refl)
        by_type (float _) (float x) e h = rw e (rw (law.float_back x) refl)
        by_type (enum _) (enum t) e h = rw e (rw (law.string_back t) refl)
        by_type (integer _) (float x) e h = absurd h
        by_type (integer _) (enum t) e h = absurd h
        by_type (float _) (integer i) e h = absurd h
        by_type (float _) (enum t) e h = absurd h
        by_type (enum _) (integer i) e h = absurd h
        by_type (enum _) (float x) e h = absurd h

    -- The parameters that both maps have are of the same types.
    abbrev pub SameTypes : Parameters J → Parameters J → Type 0
    SameTypes ps ps' =
        (n : Text) (p p' : Parameter J)
        → lookup n ps ≡ some p
        → lookup n ps' ≡ some p'
        → SameType J p'.value p.value

    document-Fits :
        (ps ps' : Parameters J)
        → IsNamed ps
        → IsUnique ps
        → SameTypes ps ps'
        → Fits J ps' (J.items (save_fields J J.object (all J ps)))
    unfolding lookup
    document-Fits ps ps' named u types n item p' e found =
        let (built, held) = save_fields_lem J.object ps n no_field named u in
        elim (Option-cases (lookup n ps)) [
          | inl missing ↦
              let absent : lookup n (J.items (save_fields J J.object (all J ps))) ≡ none =
                held
                ∙ ap (λ o. item_of o (lookup n (J.items J.object))) missing
                ∙ ap (lookup n) law.nothing_set in
              absurd (ground (arith, e, absent))
          | inr (p, known) ↦ (
            p.value,
            ap (as_read J p'.value)
                  (sym e ∙ held ∙ ap (λ o. item_of o (lookup n (J.items J.object))) known)
                ∙ setting_value-param_value_to_json p'.value p (types n p p' known found),
          )
        ]

    -- Let nlohmann::json keep what it documents, and let the text that `save_camera_setting` wrote be read back as
    -- the document that was written. Then loading it, where the parameters are of the same types, restores
    -- the saved value of every parameter that is writable and allows it.
    pub saved_restored :
        (ps ps' : Parameters J) (saved : Text) (n : Text) (p p' : Parameter J)
        → IsNamed ps
        → IsUnique ps
        → SameTypes ps ps'
        → save_camera_setting J ps ≡ some saved
        → J.parse saved ≡ some (save_fields J J.object (all J ps))
        → lookup n ps ≡ some p
        → Settable J ps' n p.value p'
        → lookup n (load_camera_setting J ps' (some (J.parse saved)))
          ≡ some (record p' { value = p.value })
    unfolding load_camera_setting
    saved_restored ps ps' saved n p p' named u types wrote read known s =
        let (built, held) = save_fields_lem J.object ps n no_field named u in
        rw read (
          load_items_restores J ps' _ n (param_value_to_json J p) p' p.value
            (law.each_key_once _ built) (document-Fits ps ps' named u types)
            (held ∙ ap (λ o. item_of o (lookup n (J.items J.object))) known)
            (setting_value-param_value_to_json p'.value p (types n p p' known s.found)) s)
