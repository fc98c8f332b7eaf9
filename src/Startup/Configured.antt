-- ===== src/Startup/Configured.antt =====
-- main.cpp: the parameters that `main` registers for a configuration that was loaded.
use sim_vision_sdk.Prelude.{◌≡◌, ◌↔◌, ◌+◌, [], Text, Option, arith, dec_lt}
use sim_vision_sdk.Prelude.Int.{ℤ, pos, ◌≤ℤ◌, pos_part, neg_part}
use sim_vision_sdk.Json.{Json}
use sim_vision_sdk.Config.Load.{load}
use sim_vision_sdk.Config.Checked.{Checked, load-Checked}
use sim_vision_sdk.Parameters.Valid.{IsValid}
use sim_vision_sdk.Startup.{register_parameters}
use sim_vision_sdk.Startup.Registered.{
  register_parameters-IsValid, register_parameters_fps_out_of_range,
}

module _ (J : Json) where
  -- If the configuration loads without an error, the parameters that are registered for it all start with
  -- a value that they allow exactly when its frame rate is at most 120.
  pub load-register_parameters :
      (path what : Text) (file : Option (Option J.Value))
      → (load J path what file).1 ≡ []
      → let fps = (load J path what file).0.capture.fps in
        IsValid J (register_parameters J fps) ↔ (fps ≤ℤ pos 120)
  load-register_parameters path what file e = (within, register_parameters-IsValid J fps c.fps_from)
    where
      fps : ℤ
      fps = (load J path what file).0.capture.fps

      c : Checked J (load J path what file).0
      c = load-Checked J path what file e

      within : IsValid J (register_parameters J fps) → fps ≤ℤ pos 120
      within v = elim (dec_lt (pos_part fps) (121 + neg_part fps)) [
        | yes p ↦ omega arith
        | no p ↦ absurd (register_parameters_fps_out_of_range J fps (omega arith) v)
      ]
