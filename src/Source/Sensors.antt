-- ===== src/Source/Sensors.antt =====
-- datasource/SimDataSource.cpp: the four small sensors, as JSON texts. `none` would be an exception of `dump`.
use sim_vision_sdk.Prelude.{ℕ, ◌≡◌, Option, some, List, [], ◌∷◌, text, text-eq}
use sim_vision_sdk.Prelude.Map.{lookup}
use sim_vision_sdk.Json.{Json, ObjectLaw, no_field, one_more}
use sim_vision_sdk.Source.Generate.{Real, time}

-- `as_json` is the `double` of the arithmetic as that of the JSON library.
module _ (J : Json) (R : Real) (as_json : R.Double → J.Float) (neg : R.Double → R.Double) where
  open R use {Double, literal, add, mul, sin, cos}
  open J use {Value, object, set_field, of_float, of_nat, of_list, dump}

  abbrev numbers : List Double → List Value
  numbers [] = []
  numbers (x ∷ xs) = of_float (as_json x) ∷ numbers xs

  abbrev with_index : ℕ → Value → Value
  with_index frame_index j = set_field j (text "frame_index") (of_nat frame_index)

  unfoldable pub imu_json : ℕ → Value
  imu_json frame_index =
      let t = time R frame_index 5 in
      let accel = mul (literal 1 1) (sin t) ∷ mul (literal 1 1) (cos t) ∷ literal 981 2 ∷ [] in
      let gyro = mul (literal 1 2) (sin t) ∷ mul (literal 1 2) (cos t) ∷ literal 0 1 ∷ [] in
      with_index frame_index (
        set_field (set_field object (text "accel") (of_list (numbers accel))) (text "gyro")
          (of_list (numbers gyro)))

  unfoldable pub temperature_json : ℕ → Value
  temperature_json frame_index =
      let celsius = add (literal 380 1) (mul (literal 5 1) (sin (time R frame_index 1))) in
      with_index frame_index (set_field object (text "celsius") (of_float (as_json celsius)))

  unfoldable pub magnetometer_json : ℕ → Value
  magnetometer_json frame_index =
      let t = time R frame_index 2 in
      let field = mul (literal 3 1) (sin t) ∷ mul (literal 3 1) (cos t) ∷ neg (literal 45 2) ∷ [] in
      with_index frame_index (set_field object (text "field") (of_list (numbers field)))

  unfoldable pub barometer_json : ℕ → Value
  barometer_json frame_index =
      let pressure = add (literal 101325 2) (mul (literal 2 1) (sin (time R frame_index 1))) in
      with_index frame_index (set_field object (text "pressure_hpa") (of_float (as_json pressure)))

  unfoldable pub generate_imu : ℕ → Option (List ℕ)
  generate_imu frame_index = dump (imu_json frame_index)

  unfoldable pub generate_temperature : ℕ → Option (List ℕ)
  generate_temperature frame_index = dump (temperature_json frame_index)

  unfoldable pub generate_magnetometer : ℕ → Option (List ℕ)
  generate_magnetometer frame_index = dump (magnetometer_json frame_index)

  unfoldable pub generate_barometer : ℕ → Option (List ℕ)
  generate_barometer frame_index = dump (barometer_json frame_index)

  -- Each reading tells the index of its frame.
  readings_tell_index :
      (law : ObjectLaw J) (n : ℕ)
      → let told : Value → Option Value = λ j. lookup (text "frame_index") (J.items j) in
        (told (imu_json n) ≡ some (of_nat n))
        × (told (temperature_json n) ≡ some (of_nat n))
        × (told (magnetometer_json n) ≡ some (of_nat n))
        × (told (barometer_json n) ≡ some (of_nat n))
  unfolding imu_json temperature_json magnetometer_json barometer_json
  readings_tell_index law n = (
    law.field_set _ _ _ _ (one_more _ _ (one_more _ _ no_field)),
    law.field_set _ _ _ _ (one_more _ _ no_field),
    law.field_set _ _ _ _ (one_more _ _ no_field),
    law.field_set _ _ _ _ (one_more _ _ no_field),
  )
