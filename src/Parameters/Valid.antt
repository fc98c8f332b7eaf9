-- ===== src/Parameters/Valid.antt =====
-- The values of a parameter map stay within what their parameters allow.
use sim_vision_sdk.Prelude.{
  ◌≡◌, sym, subst, inl, inr, some, Text, text_eq, text-eq, arith, Bool-cases,
}
use sim_vision_sdk.Prelude.Map
use sim_vision_sdk.Prelude.Map.{lookup, lookup-insert}
use sim_vision_sdk.Json.{Json}
use sim_vision_sdk.Parameters.{
  ParamValue, integer, float, enum, Parameter, Parameters, accepted, set_value, register_parameter,
}
use sim_vision_sdk.Parameters.SetValue.{Allowed, set_value_sound}

module _ (J : Json) where
  -- Every parameter's value is one that the parameter allows.
  abbrev pub IsValid : Parameters J → Type 0
  IsValid ps = (name : Text) (p : Parameter J) → lookup name ps ≡ some p → Allowed J p p.value

  insert-IsValid :
      (ps : Parameters J) (name : Text) (p : Parameter J)
      → IsValid ps
      → Allowed J p p.value
      → IsValid (Map.insert name p ps)
  insert-IsValid ps name p v a other q e = elim (Bool-cases (text_eq name other)) [
    | inl same ↦
        subst (λ r. Allowed J r r.value) {x = p} {y = q}
          (ground (arith, e, same, lookup-insert name other p ps)) a
    | inr diff ↦ v other q (ground (arith, e, diff, lookup-insert name other p ps))
  ]

  -- An accepted `set_value` leaves a map whose values are all allowed, if they were before.
  pub set_value-IsValid :
      (ps : Parameters J) (name : Text) (v : ParamValue J) {ps' : Parameters J}
      → IsValid ps
      → set_value J ps name v ≡ accepted ps'
      → IsValid ps'
  set_value-IsValid ps name v ok h =
      let (p, s, q) = set_value_sound J ps name v h in
      subst IsValid (sym q)
        (insert-IsValid ps name (record p { value = v }) ok (allowed_update p v s.allowed))
    where
      allowed_update :
          (p : Parameter J) (v : ParamValue J)
          → Allowed J p v
          → Allowed J (record p { value = v }) v
      allowed_update p (integer i) a = a
      allowed_update p (float x) a = a
      allowed_update p (enum t) a = a

  -- Registering a parameter whose own value is allowed keeps the map valid.
  pub register_parameter-IsValid :
      (ps : Parameters J) (p : Parameter J)
      → IsValid ps
      → Allowed J p p.value
      → IsValid (register_parameter J ps p)
  unfolding register_parameter
  register_parameter-IsValid ps p v a = insert-IsValid ps p.name p v a
