-- ===== src/Startup/Registered.antt =====
-- The registered parameters are valid for the frame rates that their own range allows.
use sim_vision_sdk.Prelude.{refl, List, [], ◌∷◌, text, arith, text-eq, true}
use sim_vision_sdk.Prelude.Int.{ℤ, pos, ◌≤ℤ◌}
use sim_vision_sdk.Prelude.Map.{lookup, insert}
use sim_vision_sdk.Prelude.Set.{contains}
use sim_vision_sdk.Json.{Json}
use sim_vision_sdk.Parameters.{Parameter, Parameters, register_parameter}
use sim_vision_sdk.Parameters.SetValue.{Allowed}
use sim_vision_sdk.Parameters.Valid.{IsValid, register_parameter-IsValid}
use sim_vision_sdk.Startup.{registered, register_all, register_parameters, int_parameter}

module _ (J : Json) where
  abbrev AllAllowed : List (Parameter J) → Type 0
  AllAllowed [] = Unit {0}
  AllAllowed (p ∷ ps) = Allowed J p p.value × AllAllowed ps

  register_all-IsValid :
      (ps : Parameters J) (more : List (Parameter J))
      → IsValid J ps
      → AllAllowed more
      → IsValid J (register_all J ps more)
  unfolding register_all
  register_all-IsValid ps [] v a = v
  register_all-IsValid ps (p ∷ more) v a =
      register_all-IsValid (register_parameter J ps p) more
        (register_parameter-IsValid J ps p v a.0) a.1

  nothing_registered : IsValid J []
  unfolding lookup
  nothing_registered name p e = absurd (ground (arith, e))

  -- With a configured frame rate from 1 to 120 every registered parameter starts with a value it allows.
  pub register_parameters-IsValid :
      (fps : ℤ) → pos 1 ≤ℤ fps → fps ≤ℤ pos 120 → IsValid J (register_parameters J fps)
  unfolding register_parameters registered contains
  register_parameters-IsValid fps lo hi =
      register_all-IsValid [] (registered J fps) nothing_registered (ground arith)

  -- With a configured frame rate from 121 on, some registered parameter starts with a value that it does
  -- not allow.
  pub register_parameters_fps_out_of_range :
      (fps : ℤ) → pos 121 ≤ℤ fps → ¬ IsValid J (register_parameters J fps)
  unfolding register_parameters registered register_all register_parameter insert lookup
  register_parameters_fps_out_of_range fps h v =
      omega
        (arith, (v (text "fps") (int_parameter J (text "fps") fps (pos 1) (pos 120) true) refl).1)
