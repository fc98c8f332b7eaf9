-- ===== src/Startup/Items.antt =====
-- main.cpp: what the loop of `load_camera_setting` makes of the items of a settings file.
use sim_vision_sdk.Prelude.{
  ◌≡◌, refl, sym, ap, subst, ◌∙◌, false, Option, none, some, List, [], ◌∷◌, Text, text_eq,
  text_eq_iff, text-eq, if◌then◌else◌, arith, Option-cases, Bool-cases, inl, inr,
}
use sim_vision_sdk.Prelude.Map.{lookup, IsUnique}
use sim_vision_sdk.Json.{Json}
use sim_vision_sdk.Parameters.{
  ParamValue, Parameter, Parameters, SetResult, accepted, refused, get, set_value,
}
use sim_vision_sdk.Parameters.SetValue.{set_value_effect, set_value_iff, Settable}
use sim_vision_sdk.Startup.Settings.{
  setting_value, after_set, load_items, load_items_unknown, load_items_throws, load_items_sets,
}

module _ (J : Json) where
  -- Setting one parameter leaves the others.
  after_set_other :
      (ps : Parameters J) (k n : Text) (v : ParamValue J) (r : SetResult J)
      → set_value J ps k v ≡ r
      → text_eq k n ≡ false
      → lookup n (after_set J ps r) ≡ lookup n ps
  after_set_other ps k n v (refused message) e ne = refl
  after_set_other ps k n v (accepted ps') e ne =
      let (p, found, effect) = set_value_effect J ps k n v e in effect ∙ rw ne refl

  -- A name that no item has is left alone.
  load_items_other :
      (ps : Parameters J) (its : List (Text × J.Value)) (n : Text)
      → lookup n its ≡ none
      → lookup n (load_items J ps its) ≡ lookup n ps
  unfolding load_items lookup
  load_items_other ps [] n e = refl
  load_items_other ps ((k, item) ∷ more) n e =
      let ne : text_eq k n ≡ false = ground (arith, e) in
      let later : lookup n more ≡ none = ground (arith, e) in
      elim (Option-cases (get J ps k)) [
        | inl u ↦
            ap (lookup n) (load_items_unknown J ps k item more u) ∙ load_items_other ps more n later
        | inr (cur, u) ↦ elim (Option-cases (setting_value J cur.value item)) [
          | inl u' ↦ ap (lookup n) (load_items_throws J ps k item more cur u u')
          | inr (v, u') ↦
              ap (lookup n) (load_items_sets J ps k item more cur v u u')
              ∙ load_items_other (after_set J ps (set_value J ps k v)) more n later
              ∙ after_set_other ps k n v (set_value J ps k v) refl ne
        ]
      ]

  -- Every item that names a parameter has a value of the parameter's type.
  abbrev pub Fits : Parameters J → List (Text × J.Value) → Type 0
  Fits ps its =
      (n : Text) (item : J.Value) (p : Parameter J)
      → lookup n its ≡ some item
      → lookup n ps ≡ some p
      → (v : ParamValue J) × (setting_value J p.value item ≡ some v)

  abbrev revalued : ParamValue J → Option (Parameter J) → Option (Parameter J)
  revalued v none = none
  revalued v (some p) = some (record p { value = v })

  abbrev pub as_read : ParamValue J → Option J.Value → Option (ParamValue J)
  as_read old none = none
  as_read old (some item) = setting_value J old item

  after_set-Settable :
      (ps : Parameters J) (n : Text) (v : ParamValue J) (p : Parameter J)
      → Settable J ps n v p
      → lookup n (after_set J ps (set_value J ps n v)) ≡ some (record p { value = v })
  after_set-Settable ps n v p s =
      let (ps', e) = (set_value_iff J ps n v).1 (p, s) in
      let (p', found, effect) = set_value_effect J ps n n v e in
      rw e (effect ∙ rw ((text_eq_iff n n).1 refl) (ap (revalued v) (sym found ∙ s.found)))

  -- An item whose value its parameter allows is restored.
  pub load_items_restores :
      (ps : Parameters J) (its : List (Text × J.Value)) (n : Text) (item : J.Value)
      (p : Parameter J) (v : ParamValue J)
      → IsUnique its
      → Fits ps its
      → lookup n its ≡ some item
      → setting_value J p.value item ≡ some v
      → Settable J ps n v p
      → lookup n (load_items J ps its) ≡ some (record p { value = v })
  unfolding load_items lookup get
  load_items_restores ps [] n item p v u fits e read s = absurd (ground (arith, e))
  load_items_restores ps ((k, item') ∷ more) n item p v u fits e read s =
      elim (Bool-cases (text_eq k n)) [
        | inl same ↦
            let k-n : k ≡ n = (text_eq_iff k n).0 same in
            let read' : setting_value J p.value item' ≡ some v =
              ap (as_read p.value)
                (subst (λ b. (if b then some item' else lookup n more) ≡ some item) same e)
              ∙ read in
            let at_k = ap (λ i. lookup i ps) k-n ∙ s.found in
            ap (lookup n) (load_items_sets J ps k item' more p v at_k read')
            ∙ load_items_other (after_set J ps (set_value J ps k v)) more n
                (subst (λ i. lookup i more ≡ none) k-n u.0)
            ∙ ap (λ i. lookup n (after_set J ps (set_value J ps i v))) k-n
            ∙ after_set-Settable ps n v p s
        | inr ne ↦
            let found : lookup n more ≡ some item = ground (arith, e, ne) in
            elim (Option-cases (get J ps k)) [
              | inl unknown ↦
                  ap (lookup n) (load_items_unknown J ps k item' more unknown)
                  ∙ load_items_restores ps more n item p v u.1 (fits_later ps (λ m ne'. refl)) found
                      read s
              | inr (cur, known) ↦
                  let (w, reads) = fits k item' cur (first k) known in
                  let next = after_set J ps (set_value J ps k w) in
                  ap (lookup n) (load_items_sets J ps k item' more cur w known reads)
                  ∙ load_items_restores next more n item p v u.1 (fits_later next (unchanged w))
                      found read
                      (record {
                        found = unchanged w n ne ∙ s.found;
                        writable = s.writable;
                        typed = s.typed;
                        allowed = s.allowed;
                      })
            ]
      ]
    where
      first : (i : Text) → (if text_eq i i then some item' else lookup i more) ≡ some item'
      first i = rw ((text_eq_iff i i).1 refl) refl

      unchanged :
          (w : ParamValue J) (m : Text)
          → text_eq k m ≡ false
          → lookup m (after_set J ps (set_value J ps k w)) ≡ lookup m ps
      unchanged w m ne = after_set_other ps k m w (set_value J ps k w) refl ne

      apart : (m : Text) (x : J.Value) → lookup m more ≡ some x → text_eq k m ≡ false
      apart m x h = elim (Bool-cases (text_eq k m)) [
        | inl same ↦
            let absent : lookup m more ≡ none =
              subst (λ i. lookup i more ≡ none) ((text_eq_iff k m).0 same) u.0 in
            absurd (ground (arith, h, absent))
        | inr ne ↦ ne
      ]

      fits_later :
          (q : Parameters J)
          → ((m : Text) → text_eq k m ≡ false → lookup m q ≡ lookup m ps)
          → Fits q more
      fits_later q agree m x r h known =
          fits m x r (rw (apart m x h) h) (sym (agree m (apart m x h)) ∙ known)
