-- ===== src/Commands/Flushes.antt =====
-- What a client can rely on after a command succeeded: its subscriptions, and that no stale frame waits.
use sim_vision_sdk.Prelude.{
  ℕ, ◌≡◌, refl, ap, ◌∙◌, true, false, not, ◌&&◌, ◌||◌, some, [], Text, text_eq, if◌then◌else◌,
  Bool-cases, ◌⊎◌, inl, inr,
}
use sim_vision_sdk.Json.{Json}
use sim_vision_sdk.Types.{DataType, DataGroup, data_type_to_group}
use sim_vision_sdk.Queue.Refine.{contents}
use sim_vision_sdk.Sessions.{disconnect, is_connected, connect-disconnect}
use sim_vision_sdk.Channels.{
  stop_capture, disconnect_client, deactivate_channel, any_subscriber, group_active,
}
use sim_vision_sdk.Channels.Effects.{
  subscribed, among, start_capture_lem, stop_capture_lem, disconnect_client_lem,
}
use sim_vision_sdk.Pipeline.{queue_of, drain}
use sim_vision_sdk.Pipeline.Valid.{AllValid, drain-AllValid}
use sim_vision_sdk.Pipeline.PopAll.{pending, drain_lem, drain_group_lem}
use sim_vision_sdk.Response.{success}
use sim_vision_sdk.Commands.Objects.{World, flush}
use sim_vision_sdk.Commands.Parse.{expand_types}
use sim_vision_sdk.Commands.{
  Returns, cmd_disconnect, cmd_start_capture, cmd_stop_capture, cmd_deactivate_channel,
  flush_if_idle, drain_if_inactive, channel_type, is_nil,
}

module _ (J : Json) where
  flush_if_idle_lem :
      (w : World J)
      → AllValid w.pipeline
      → ((flush_if_idle J w).channels ≡ w.channels)
        × ((flush_if_idle J w).sessions ≡ w.sessions)
        × ((any_subscriber w.channels ≡ true) ⊎ (pending (flush_if_idle J w).pipeline ≡ []))
  unfolding flush_if_idle flush
  flush_if_idle_lem w v = elim (Bool-cases (any_subscriber w.channels)) [
    | inl e ↦ rw e (refl, refl, inl refl)
    | inr e ↦ rw e (refl, refl, inr (drain_lem (drain w.pipeline) (drain-AllValid w.pipeline v)))
  ]

  -- On valid queues `disconnect` of a connected client returns success: the client is no longer connected
  -- and has no subscription, the other clients keep theirs, and if no subscriber is left the queues are
  -- empty.
  pub cmd_disconnect_lem :
      (w : World J) (c d : Text) (k : ℕ)
      → AllValid w.pipeline
      → is_connected w.sessions c ≡ true
      → Returns J (cmd_disconnect J w c) (λ w' r.
        (r.code ≡ success)
        × (is_connected w'.sessions d ≡ (if text_eq c d then false else is_connected w.sessions d))
        × (subscribed w'.channels d k ≡ (if text_eq c d then false else subscribed w.channels d k))
        × ((any_subscriber w'.channels ≡ true) ⊎ (pending w'.pipeline ≡ [])))
  unfolding cmd_disconnect
  cmd_disconnect_lem w c d k v on =
      let gone = record w {
        channels = (disconnect_client w.channels c).0;
        sessions = (disconnect w.sessions c).0;
      } in
      let (same_channels, same_sessions, idle) = flush_if_idle_lem gone v in
      rw (on, cmd_disconnect)
        (
          refl,
          ap (λ s. is_connected s d) same_sessions ∙ (connect-disconnect w.sessions c d).1,
          ap (λ cm. subscribed cm d k) same_channels ∙ (disconnect_client_lem w.channels c d k).0,
          rw same_channels idle,
        )

  -- `start_capture` of a connected client that names some type returns success, adds just the named types to
  -- what the client is subscribed to, and leaves the queues alone.
  pub cmd_start_capture_lem :
      (w : World J) (body : J.Value) (c d : Text) (k : ℕ)
      → is_connected w.sessions c ≡ true
      → is_nil J (expand_types J body) ≡ false
      → Returns J (cmd_start_capture J w body c) (λ w' r.
        (r.code ≡ success)
        × (subscribed w'.channels d k ≡ (
            if text_eq c d
            then subscribed w.channels c k || among k (expand_types J body)
            else subscribed w.channels d k))
        × (w'.pipeline ≡ w.pipeline))
  unfolding cmd_start_capture
  cmd_start_capture_lem w body c d k on some_type =
      rw (on, some_type, cmd_start_capture)
        (refl, start_capture_lem w.channels c d (expand_types J body) k, refl)

  -- On valid queues `stop_capture` that names some type returns success, removes just the named types from
  -- what the client is subscribed to, and if no subscriber is left the queues are empty.
  pub cmd_stop_capture_lem :
      (w : World J) (body : J.Value) (c d : Text) (k : ℕ)
      → AllValid w.pipeline
      → is_nil J (expand_types J body) ≡ false
      → Returns J (cmd_stop_capture J w body c) (λ w' r.
        (r.code ≡ success)
        × (subscribed w'.channels d k ≡ (
            if text_eq c d
            then subscribed w.channels c k && not (among k (expand_types J body))
            else subscribed w.channels d k))
        × ((any_subscriber w'.channels ≡ true) ⊎ (pending w'.pipeline ≡ [])))
  unfolding cmd_stop_capture
  cmd_stop_capture_lem w body c d k v some_type =
      let stopped = record w { channels = stop_capture w.channels c (expand_types J body) } in
      let (same_channels, _, idle) = flush_if_idle_lem stopped v in
      rw (some_type, cmd_stop_capture)
        (
          refl,
          ap (λ cm. subscribed cm d k) same_channels
              ∙ stop_capture_lem w.channels c d (expand_types J body) k,
          rw same_channels idle,
        )

  -- On valid queues `deactivate_channel` of a type returns success and deactivates it; if that leaves its
  -- group with no active type it empties the group's queue, and it touches no other queue.
  pub cmd_deactivate_channel_lem :
      (w : World J) (body : J.Value) (t : DataType) (h : DataGroup)
      → AllValid w.pipeline
      → channel_type J body ≡ some (some t)
      → Returns J (cmd_deactivate_channel J w body) (λ w' r.
        (r.code ≡ success)
        × (w'.channels ≡ (deactivate_channel w.channels t).0)
        × ((group_active w'.channels (data_type_to_group t) ≡ true)
            ⊎ (contents (queue_of w'.pipeline (data_type_to_group t)) ≡ []))
        × ((h ≡ data_type_to_group t) ⊎ (queue_of w'.pipeline h ≡ queue_of w.pipeline h)))
  unfolding cmd_deactivate_channel drain_if_inactive
  cmd_deactivate_channel_lem w body t h v e =
      let cm = (deactivate_channel w.channels t).0 in
      let g = data_type_to_group t in
      elim (Bool-cases (group_active cm g)) [
        | inl a ↦
            rw (e, cmd_deactivate_channel) (rw (a, drain_if_inactive) (refl, refl, inl a, inr refl))
        | inr a ↦
            let (empty, others) = drain_group_lem w.pipeline g h v in
            rw (e, cmd_deactivate_channel)
              (rw (a, drain_if_inactive) (refl, refl, inr empty, others))
      ]
