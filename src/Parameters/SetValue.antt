-- ===== src/Parameters/SetValue.antt =====
-- `ParameterManager::set_value` against what a parameter allows.
use sim_vision_sdk.Prelude.{
  ◌≡◌, ◌↔◌, ◌⊎◌, inl, inr, sym, ap, ◌∙◌, true, false, none, some, List, [], ◌∷◌, Text, text_eq,
  text-eq, if◌then◌else◌, arith, Option-cases,
}
use sim_vision_sdk.Prelude.Int.{ℤ, ◌≤ℤ◌, leb_ℤ_iff}
use sim_vision_sdk.Prelude.Map
use sim_vision_sdk.Prelude.Map.{lookup, lookup-insert}
use sim_vision_sdk.Prelude.Set.{contains}
use sim_vision_sdk.Json.{Json}
use sim_vision_sdk.Parameters.{
  ParamValue, integer, float, enum, Parameter, Parameters, accepted, same_type, in_range_integer,
  in_range_float, enum_allowed, check_value, assign, set_value,
}

module _ (J : Json) where
  open J use {Float, float_leb}

  -- The two values are of one alternative of the variant.
  abbrev pub SameType : ParamValue J → ParamValue J → Type 0
  SameType (integer _) (integer _) = Unit {0}
  SameType (float _) (float _) = Unit {0}
  SameType (enum _) (enum _) = Unit {0}
  SameType _ _ = ⊥

  -- What the parameter's bounds and options say of a value.
  abbrev pub Within : ℤ → ParamValue J → ParamValue J → Type 0
  Within i (integer lo) (integer hi) = (lo ≤ℤ i) × (i ≤ℤ hi)
  Within i _ _ = Unit {0}

  abbrev pub WithinFloat : Float → ParamValue J → ParamValue J → Type 0
  WithinFloat x (float lo) (float hi) = (float_leb lo x ≡ true) × (float_leb x hi ≡ true)
  WithinFloat x _ _ = Unit {0}

  abbrev pub Allowed : Parameter J → ParamValue J → Type 0
  Allowed p (integer i) = Within i p.min p.max
  Allowed p (float x) = WithinFloat x p.min p.max
  Allowed p (enum s) = (p.enum_options ≡ []) ⊎ (contains s p.enum_options ≡ true)

  same_type_iff : (a b : ParamValue J) → (same_type J a b ≡ true) ↔ SameType a b
  unfolding same_type
  same_type_iff (integer _) (integer _) = ground arith
  same_type_iff (float _) (float _) = ground arith
  same_type_iff (enum _) (enum _) = ground arith
  same_type_iff _ _ = ground arith

  in_range_integer_iff :
      (i : ℤ) (lo hi : ParamValue J) → (in_range_integer J i lo hi ≡ true) ↔ Within i lo hi
  unfolding in_range_integer
  in_range_integer_iff i (integer lo) (integer hi) = ground (arith, leb_ℤ_iff lo i, leb_ℤ_iff i hi)
  in_range_integer_iff i _ _ = ground arith

  in_range_float_iff :
      (x : Float) (lo hi : ParamValue J) → (in_range_float J x lo hi ≡ true) ↔ WithinFloat x lo hi
  unfolding in_range_float
  in_range_float_iff x (float lo) (float hi) = ground arith
  in_range_float_iff x _ _ = ground arith

  enum_allowed_iff :
      (vals : List Text) (s : Text)
      → (enum_allowed J vals s ≡ true) ↔ ((vals ≡ []) ⊎ (contains s vals ≡ true))
  unfolding enum_allowed
  enum_allowed_iff [] s = ground arith
  enum_allowed_iff (v ∷ vals) s = ground arith

  -- The check passes exactly on the allowed values.
  pub check_value_iff :
      (name : Text) (p : Parameter J) (v : ParamValue J)
      → (check_value J name p v ≡ none) ↔ Allowed p v
  unfolding check_value
  check_value_iff name p (integer i) = ground (arith, in_range_integer_iff i p.min p.max)
  check_value_iff name p (float x) = ground (arith, in_range_float_iff x p.min p.max)
  check_value_iff name p (enum s) = ground (arith, enum_allowed_iff p.enum_options s)

  -- What must hold of the parameter for a value to be set.
  pub record Settable (ps : Parameters J) (name : Text) (v : ParamValue J) (p : Parameter J)
      : Type 0 where
    pub found : lookup name ps ≡ some p
    pub writable : p.is_readonly ≡ false
    pub typed : SameType p.value v
    pub allowed : Allowed p v

  assign_accepts :
      (ps : Parameters J) (name : Text) (p : Parameter J) (v : ParamValue J)
      → Settable ps name v p
      → assign J ps name p v ≡ accepted (Map.insert name (record p { value = v }) ps)
  unfolding assign
  assign_accepts ps name p v s =
      ground (arith, (same_type_iff p.value v).1 s.typed, (check_value_iff name p v).1 s.allowed)

  assign_sound :
      (ps : Parameters J) (name : Text) (p : Parameter J) (v : ParamValue J) {ps' : Parameters J}
      → lookup name ps ≡ some p
      → assign J ps name p v ≡ accepted ps'
      → Settable ps name v p × (ps' ≡ Map.insert name (record p { value = v }) ps)
  unfolding assign
  assign_sound ps name p v e h =
      let passed : (p.is_readonly ≡ false)
          × (same_type J p.value v ≡ true)
          × (check_value J name p v ≡ none) =
        ground arith in
      (
        record {
          found = e;
          writable = passed.0;
          typed = (same_type_iff p.value v).0 passed.1;
          allowed = (check_value_iff name p v).0 passed.2;
        },
        ground (arith, passed),
      )

  set_value_found :
      (ps : Parameters J) (name : Text) (v : ParamValue J) {p : Parameter J}
      → lookup name ps ≡ some p
      → set_value J ps name v ≡ assign J ps name p v
  unfolding set_value
  set_value_found ps name v e = rw (e, set_value)

  pub set_value_sound :
      (ps : Parameters J) (name : Text) (v : ParamValue J) {ps' : Parameters J}
      → set_value J ps name v ≡ accepted ps'
      → (p : Parameter J) × Settable ps name v p
        × (ps' ≡ Map.insert name (record p { value = v }) ps)
  unfolding set_value
  set_value_sound ps name v h = elim (Option-cases (lookup name ps)) [
    | inl e ↦ absurd (ground (arith, e, h))
    | inr (p, e) ↦
        let (s, q) = assign_sound ps name p v e (sym (set_value_found ps name v e) ∙ h) in (p, s, q)
  ]

  -- `set_value` accepts exactly when the parameter exists, is writable, has the value's type and allows it.
  pub set_value_iff :
      (ps : Parameters J) (name : Text) (v : ParamValue J)
      → ((ps' : Parameters J) × (set_value J ps name v ≡ accepted ps'))
        ↔ ((p : Parameter J) × Settable ps name v p)
  set_value_iff ps name v = (
    λ (ps', h). (let (p, s, _) = set_value_sound ps name v h in (p, s)),
    λ (p, s). (
      Map.insert name (record p { value = v }) ps,
      set_value_found ps name v s.found ∙ assign_accepts ps name p v s,
    ),
  )

  -- An accepted `set_value` changes the value of that parameter only, and none of its other fields.
  pub set_value_effect :
      (ps : Parameters J) (name other : Text) (v : ParamValue J) {ps' : Parameters J}
      → set_value J ps name v ≡ accepted ps'
      → (p : Parameter J) × (lookup name ps ≡ some p)
        × (lookup other ps'
            ≡ (if text_eq name other then some (record p { value = v }) else lookup other ps))
  set_value_effect ps name other v h =
      let (p, s, q) = set_value_sound ps name v h in
      (p, s.found, ap (lookup other) q ∙ lookup-insert name other (record p { value = v }) ps)
