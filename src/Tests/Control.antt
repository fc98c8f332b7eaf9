-- ===== src/Tests/Control.antt =====
-- The channel manager at concrete inputs.
use sim_vision_sdk.Prelude.{
  ℕ, List, ◌≡◌, ◌⊎◌, ◌↔◌, refl, true, false, not, [], ◌∷◌, Text, text, arith, text-eq, ℕ-eq,
}
use sim_vision_sdk.Prelude.Map
use sim_vision_sdk.Prelude.Map.{lookup}
use sim_vision_sdk.Prelude.Set.{contains}
use sim_vision_sdk.Types.{stereo_image, depth_map, imu}
use sim_vision_sdk.Channels.{
  ChannelManager, new, activate_channel, deactivate_channel, start_capture, stop_capture,
  disconnect_client, is_active, any_subscriber, release_all, release, put,
}
use sim_vision_sdk.Channels.Counts.{subscribers}
use sim_vision_sdk.Channels.Valid.{Inv}
use sim_vision_sdk.Channels.Abstract.{
  interest, nothing, starts, stops, leaves, forces_to, methods_refine,
}
use sim_vision_sdk.Channels.History.{
  Call, starting, leaving, forcing, performs, specifies, queries_answer,
}

-- Client `a` is subscribed to the stereo image and the IMU, client `b` to the IMU.
abbrev pub a : Text
a = text "a"

abbrev pub b : Text
b = text "b"

abbrev pub busy : ChannelManager
busy = record {
  states =
      (0, record { subscriber_count = 1; force_active = false })
      ∷ (3, record { subscriber_count = 2; force_active = false })
      ∷ [];
  clients = (a, 0 ∷ 3 ∷ []) ∷ (b, 3 ∷ []) ∷ [];
}

pub busy-Inv : Inv busy
unfolding lookup contains subscribers
busy-Inv = record {
  counted = λ k. ground arith;
  unique = (refl, (refl, tt));
  sets = ((refl, (refl, tt)), ((refl, tt), tt));
  sorted = ground arith;
}

methods_refine_example :
    (interest (start_capture busy b (stereo_image ∷ []))
      ≡ starts (interest busy) b (stereo_image ∷ []))
    × (interest (stop_capture busy b (stereo_image ∷ []))
        ≡ stops (interest busy) b (stereo_image ∷ []))
    × (interest (disconnect_client busy b).0 ≡ leaves (interest busy) b)
    × (interest (activate_channel busy imu).0 ≡ forces_to (interest busy) imu true)
    × (interest (deactivate_channel busy imu).0 ≡ forces_to (interest busy) imu false)
    × ((activate_channel busy imu).1 ≡ not ((interest busy).forces 3))
    × ((deactivate_channel busy imu).1 ≡ (interest busy).forces 3)
methods_refine_example = methods_refine busy b (stereo_image ∷ []) imu

-- Two clients subscribe, one of them twice, and one leaves; a type is forced.
abbrev calls : List Call
calls =
    starting a (imu ∷ depth_map ∷ [])
    ∷ starting b (imu ∷ imu ∷ [])
    ∷ starting b (imu ∷ [])
    ∷ leaving b
    ∷ forcing stereo_image true
    ∷ []

queries_answer_example :
    let cm = performs new calls in
    let s = specifies nothing calls in
    ((is_active cm imu ≡ true) ↔ (((c : Text) × (s.wants c 3 ≡ true)) ⊎ (s.forces 3 ≡ true)))
    × ((any_subscriber cm ≡ true) ↔ ((c : Text) × (k : ℕ) × (s.wants c k ≡ true)))
queries_answer_example = queries_answer calls imu

-- After both clients have left no type is active.
both_gone : any_subscriber (disconnect_client (disconnect_client busy a).0 b).0 ≡ false
unfolding disconnect_client release_all release put lookup any_subscriber Map.erase
both_gone = refl
