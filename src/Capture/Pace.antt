-- ===== src/Capture/Pace.antt =====
-- The pace of the capture loop, and what one round leaves alone.
use sim_vision_sdk.Prelude.{ℕ, ◌≤◌, ◌/◌, arith, text}
use native.Mathlib.Nat.{div-add-mod}
use sim_vision_sdk.Prelude.Int.{ℤ, pos, negsuc}
use sim_vision_sdk.Json.{Json}
use sim_vision_sdk.Parameters.{Parameters, get}
use sim_vision_sdk.Capture.{clamp_fps, fps_of, period}

clamp_fps_bounds : (i : ℤ) → (1 ≤ clamp_fps i) × (clamp_fps i ≤ 240)
unfolding clamp_fps
clamp_fps_bounds (negsuc n) = (omega arith, omega arith)
clamp_fps_bounds (pos n) = (ground arith, ground arith)

period_bounds : (n : ℕ) → 1 ≤ n → n ≤ 240 → (4 ≤ 1000 / n) × (1000 / n ≤ 1000)
period_bounds n lo hi = (grind (arith, div-add-mod 1000 n), grind (arith, div-add-mod 1000 n))

-- Whatever the parameters hold, a round takes from 4 to 1000 milliseconds.
pub period_lem :
    (J : Json) (params : Parameters J) → (4 ≤ period J params) × (period J params ≤ 1000)
unfolding period
period_lem J params =
    let bounds = clamp_fps_bounds (fps_of {J = J} (get J params (text "fps"))) in
    period_bounds _ bounds.0 bounds.1
