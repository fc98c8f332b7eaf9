-- ===== src/Commands/Linked.antt =====
-- Only connected clients have subscriptions.
use sim_vision_sdk.Prelude.{
  ◌≡◌, true, false, none, List, Text, text_eq_iff, text-eq, arith, Option-cases, inl, inr,
}
use sim_vision_sdk.Prelude.Map.{lookup, lookup-insert, lookup-erase}
use sim_vision_sdk.Types.{DataType}
use sim_vision_sdk.Sessions.{Sessions, disconnect, is_connected, connect-disconnect}
use sim_vision_sdk.Channels.{
  ChannelManager, start_capture, stop_capture, disconnect_client, subscribe_all, unsubscribe_all,
  or_empty,
}

-- A client that is not connected has no entry among the subscriptions.
abbrev pub Linked : Sessions → ChannelManager → Type 0
Linked s cm = (c : Text) → is_connected s c ≡ false → lookup c cm.clients ≡ none

pub start_capture-Linked :
    (s : Sessions) (cm : ChannelManager) (c : Text) (ts : List DataType)
    → is_connected s c ≡ true
    → Linked s cm
    → Linked s (start_capture cm c ts)
unfolding start_capture
start_capture-Linked s cm c ts on l d off = ground (
  arith,
  text_eq_iff c d,
  l d off,
  lookup-insert c d (subscribe_all ts cm.states (or_empty (lookup c cm.clients))).1 cm.clients,
)

pub stop_capture-Linked :
    (s : Sessions) (cm : ChannelManager) (c : Text) (ts : List DataType)
    → Linked s cm
    → Linked s (stop_capture cm c ts)
unfolding stop_capture
stop_capture-Linked s cm c ts l d off = elim (Option-cases (lookup c cm.clients)) [
  | inl e ↦ rw (e, stop_capture) (l d off)
  | inr (subs, e) ↦
      rw (e, stop_capture)
        (ground (
          arith,
          text_eq_iff c d,
          l d off,
          e,
          lookup-insert c d (unsubscribe_all ts cm.states subs).1 cm.clients,
        ))
]

pub disconnect-Linked :
    (s : Sessions) (cm : ChannelManager) (c : Text)
    → Linked s cm
    → Linked (disconnect s c).0 (disconnect_client cm c).0
unfolding disconnect_client
disconnect-Linked s cm c l d off = elim (Option-cases (lookup c cm.clients)) [
  | inl e ↦
      rw (e, disconnect_client)
        (ground (arith, text_eq_iff c d, e, l d, (connect-disconnect s c d).1))
  | inr (subs, e) ↦
      rw (e, disconnect_client)
        (ground (arith, l d, lookup-erase c d cm.clients, (connect-disconnect s c d).1))
]
