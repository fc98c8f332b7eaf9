-- ===== src/Channels/Abstract.antt =====
-- What data/ChannelManager.cpp promises, without counts, maps and sets: which client wants which type, and
-- which types are forced. The manager implements it.
use sim_vision_sdk.Prelude.{
  ℕ-eq, text-eq, ℕ, ◌≡◌, ap, ap₂, fun_ext, Bool, true, false, not, ◌||◌, ◌&&◌, List, Text, text_eq,
  nat_eq, if◌then◌else◌,
}
use sim_vision_sdk.Types.{DataType, dt_key}
use sim_vision_sdk.Channels.{
  ChannelManager, start_capture, stop_capture, disconnect_client, activate_channel,
  deactivate_channel,
}
use sim_vision_sdk.Channels.Effects.{
  subscribed, among, forced, start_capture_lem, stop_capture_lem, disconnect_client_lem,
  activate_channel_lem, deactivate_channel_lem,
}
use sim_vision_sdk.Channels.Forced.{
  forced-start_capture, forced-stop_capture, forced-disconnect_client, forced-activate_channel,
  forced-deactivate_channel,
}

-- The abstract state, types being named by their keys.
pub record Interest : Type 0 where
  pub wants : Text → ℕ → Bool
  pub forces : ℕ → Bool

abbrev pub nothing : Interest
nothing = record { wants = λ c k. false; forces = λ k. false }

abbrev pub starts : Interest → Text → List DataType → Interest
starts a c ts = record a {
  wants = λ d k. if text_eq c d then a.wants c k || among k ts else a.wants d k;
}

abbrev pub stops : Interest → Text → List DataType → Interest
stops a c ts = record a {
  wants = λ d k. if text_eq c d then a.wants c k && not (among k ts) else a.wants d k;
}

abbrev pub leaves : Interest → Text → Interest
leaves a c = record a { wants = λ d k. if text_eq c d then false else a.wants d k }

abbrev pub forces_to : Interest → DataType → Bool → Interest
forces_to a t b = record a { forces = λ k. if nat_eq (dt_key t) k then b else a.forces k }

abbrev pub interest : ChannelManager → Interest
interest cm = record { wants = subscribed cm; forces = forced cm }

Interest-path :
    (a b : Interest)
    → ((c : Text) (k : ℕ) → a.wants c k ≡ b.wants c k)
    → ((k : ℕ) → a.forces k ≡ b.forces k)
    → a ≡ b
Interest-path a b w f =
    ap₂ (λ x y. record { wants = x; forces = y }) (fun_ext λ c. fun_ext (w c)) (fun_ext f)

-- Each method that changes the manager changes what it stands for as the specification says, whatever the
-- state, and the methods that force a type return what the specification says of it.
pub methods_refine :
    (cm : ChannelManager) (c : Text) (ts : List DataType) (t : DataType)
    → (interest (start_capture cm c ts) ≡ starts (interest cm) c ts)
      × (interest (stop_capture cm c ts) ≡ stops (interest cm) c ts)
      × (interest (disconnect_client cm c).0 ≡ leaves (interest cm) c)
      × (interest (activate_channel cm t).0 ≡ forces_to (interest cm) t true)
      × (interest (deactivate_channel cm t).0 ≡ forces_to (interest cm) t false)
      × ((activate_channel cm t).1 ≡ not ((interest cm).forces (dt_key t)))
      × ((deactivate_channel cm t).1 ≡ (interest cm).forces (dt_key t))
methods_refine cm c ts t = (
  Interest-path _ _ (λ d k. start_capture_lem cm c d ts k) (forced-start_capture cm c ts),
  Interest-path _ _ (λ d k. stop_capture_lem cm c d ts k) (forced-stop_capture cm c ts),
  Interest-path _ _ (λ d k. (disconnect_client_lem cm c d k).0) (forced-disconnect_client cm c),
  Interest-path _ _
      (λ d k. ap (λ m. subscribed (record cm { clients = m }) d k) (activate_channel_lem cm t t).2)
      (forced-activate_channel cm t),
  Interest-path _ _
      (λ d k.
        ap (λ m. subscribed (record cm { clients = m }) d k) (deactivate_channel_lem cm t t).2)
      (forced-deactivate_channel cm t),
  (activate_channel_lem cm t t).1,
  (deactivate_channel_lem cm t t).1,
)
