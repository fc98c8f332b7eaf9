-- ===== src/Channels/Effects.antt =====
-- Who is subscribed to what after each method, and when a type is active.
use sim_vision_sdk.Prelude.{
  ℕ, ◌<◌, ◌≡◌, ◌↔◌, ◌∙◌, Bool, true, false, not, Option, none, some, List, [], ◌∷◌, Text, ◌&&◌,
  ◌||◌, text_eq, text_eq_iff, nat_eq_iff, nat_eq, if◌then◌else◌, arith, ltb, ℕ-eq, text-eq,
  Option-cases, Bool-cases, dec_lt, ◌⊎◌, inl, inr,
}
use sim_vision_sdk.Prelude.Map
use sim_vision_sdk.Prelude.Map.{lookup, lookup-insert, lookup-erase}
use sim_vision_sdk.Prelude.Set
use sim_vision_sdk.Prelude.Set.{contains, contains-insert, contains-erase}
use sim_vision_sdk.Types.Table.{DataType-eq}
use sim_vision_sdk.Types.{DataType, type_eq, dt_key}
use sim_vision_sdk.Channels.{
  State, ChannelManager, state_at, or_empty, subscribe_all, unsubscribe_all, start_capture,
  stop_capture, disconnect_client, activate_channel, deactivate_channel, is_active,
  subscriber_count, any_subscriber, any_counted,
}
use sim_vision_sdk.Channels.Counts.{subscribers, lookup-put, holds-le-subscribers}
use sim_vision_sdk.Channels.Valid.{Inv}
use sim_vision_sdk.Channels.Sorted.{any_counted_iff}

-- Is the client subscribed to the key?
abbrev pub subscribed : ChannelManager → Text → ℕ → Bool
subscribed cm c k = contains k (or_empty (lookup c cm.clients))

-- Is the key that of a type in the list?
unfoldable pub among : ℕ → List DataType → Bool
among k [] = false
among k (t ∷ ts) = nat_eq (dt_key t) k || among k ts

subscribe_all-set :
    (ts : List DataType) (states : List (ℕ × State)) (subs : List ℕ) (k : ℕ)
    → contains k (subscribe_all ts states subs).1 ≡ (contains k subs || among k ts)
unfolding subscribe_all among
subscribe_all-set [] states subs k = ground arith
subscribe_all-set (t ∷ ts) states subs k =
    subscribe_all-set ts _ (Set.insert (dt_key t) subs) k
    ∙ ground (arith, contains-insert (dt_key t) k subs)

unsubscribe_all-set :
    (ts : List DataType) (states : List (ℕ × State)) (subs : List ℕ) (k : ℕ)
    → contains k (unsubscribe_all ts states subs).1 ≡ (contains k subs && not (among k ts))
unfolding unsubscribe_all among
unsubscribe_all-set [] states subs k = ground arith
unsubscribe_all-set (t ∷ ts) states subs k =
    unsubscribe_all-set ts _ (Set.erase (dt_key t) subs) k
    ∙ ground (arith, contains-erase (dt_key t) k subs)

-- `start_capture` adds exactly the named types to the client's subscriptions, and changes no other
-- client's.
pub start_capture_lem :
    (cm : ChannelManager) (c d : Text) (ts : List DataType) (k : ℕ)
    → subscribed (start_capture cm c ts) d k
      ≡ (if text_eq c d then subscribed cm c k || among k ts else subscribed cm d k)
unfolding start_capture
start_capture_lem cm c d ts k =
    let subs = or_empty (lookup c cm.clients) in
    ground (
      arith,
      lookup-insert c d (subscribe_all ts cm.states subs).1 cm.clients,
      subscribe_all-set ts cm.states subs k,
    )

-- `stop_capture` removes exactly the named types from the client's subscriptions, and changes no other
-- client's.
pub stop_capture_lem :
    (cm : ChannelManager) (c d : Text) (ts : List DataType) (k : ℕ)
    → subscribed (stop_capture cm c ts) d k
      ≡ (if text_eq c d then subscribed cm c k && not (among k ts) else subscribed cm d k)
unfolding stop_capture contains
stop_capture_lem cm c d ts k = elim (Option-cases (lookup c cm.clients)) [
  | inl e ↦ rw (e, stop_capture) (ground (arith, text_eq_iff c d))
  | inr (subs, e) ↦
      rw (e, stop_capture)
        (ground (
          arith,
          lookup-insert c d (unsubscribe_all ts cm.states subs).1 cm.clients,
          unsubscribe_all-set ts cm.states subs k,
        ))
]

-- After `disconnect_client` the client has no subscription, and every other client has its own; the call
-- returns whether the client was known.
pub disconnect_client_lem :
    (cm : ChannelManager) (c d : Text) (k : ℕ)
    → let (cm', known) = disconnect_client cm c in
      (subscribed cm' d k ≡ (if text_eq c d then false else subscribed cm d k))
      × (lookup c cm'.clients ≡ none)
      × ((known ≡ false) ↔ (lookup c cm.clients ≡ none))
unfolding disconnect_client contains
disconnect_client_lem cm c d k = elim (Option-cases (lookup c cm.clients)) [
  | inl e ↦ rw (e, disconnect_client) (ground (arith, text_eq_iff c d, e))
  | inr (subs, e) ↦
      rw (e, disconnect_client)
        (ground (
          arith,
          text_eq_iff c d,
          text_eq_iff c c,
          lookup-erase c d cm.clients,
          lookup-erase c c cm.clients,
          e,
        ))
]

-- Is the type forced active?
abbrev pub forced_of : Option State → Bool
forced_of none = false
forced_of (some s) = s.force_active

abbrev pub forced : ChannelManager → ℕ → Bool
forced cm k = forced_of (lookup k cm.states)

subscribers-pos :
    (k : ℕ) (m : List (Text × List ℕ))
    → Map.IsUnique m
    → 0 < subscribers k m
    → (c : Text) × (contains k (or_empty (lookup c m)) ≡ true)
unfolding subscribers lookup contains
subscribers-pos k [] u h = absurd (omega arith)
subscribers-pos k ((d, s) ∷ m) u h = elim (Bool-cases (contains k s)) [
  | inl e ↦ (d, ground (arith, text_eq_iff d d, e))
  | inr e ↦
      let (c, p) = subscribers-pos k m u.1 (ground (arith, e, h)) in
      (c, ground (arith, text_eq_iff d c, u.0, p))
]

-- Under the invariant a type is active exactly when some client is subscribed to it or it is forced.
pub is_active_iff :
    (cm : ChannelManager) (t : DataType)
    → Inv cm
    → (is_active cm t ≡ true)
      ↔ (((c : Text) × (subscribed cm c (dt_key t) ≡ true)) ⊎ (forced cm (dt_key t) ≡ true))
unfolding is_active
is_active_iff cm t v = (forward, backward)
  where
    k : ℕ
    k = dt_key t

    forward :
        is_active cm t ≡ true → ((c : Text) × (subscribed cm c k ≡ true)) ⊎ (forced cm k ≡ true)
    forward h = elim (dec_lt 0 (subscribers k cm.clients)) [
      | yes p ↦ inl (subscribers-pos k cm.clients v.unique p)
      | no p ↦ inr (ground (arith, v.counted k, h))
    ]

    backward :
        ((c : Text) × (subscribed cm c k ≡ true)) ⊎ (forced cm k ≡ true) → is_active cm t ≡ true
    backward (inl (c, h)) = ground (arith, v.counted k, holds-le-subscribers c cm.clients k, h)
    backward (inr h) = ground (arith, h)

-- Under the invariant `any_subscriber` holds exactly when some client is subscribed to some type.
pub any_subscriber_iff :
    (cm : ChannelManager)
    → Inv cm
    → (any_subscriber cm ≡ true) ↔ ((c : Text) × (k : ℕ) × (subscribed cm c k ≡ true))
unfolding any_subscriber
any_subscriber_iff cm v = (forward, backward)
  where
    forward : any_counted cm.states ≡ true → (c : Text) × (k : ℕ) × (subscribed cm c k ≡ true)
    forward h =
        let (k, p) = (any_counted_iff cm.states v.sorted).0 h in
        let (c, e) = subscribers-pos k cm.clients v.unique (omega (arith, v.counted k, p)) in
        (c, k, e)

    backward : (c : Text) × (k : ℕ) × (subscribed cm c k ≡ true) → any_counted cm.states ≡ true
    backward (c, k, e) =
        (any_counted_iff cm.states v.sorted).1
          (k, ground (arith, v.counted k, holds-le-subscribers c cm.clients k, e))

-- `activate_channel` makes the type active and leaves the others as they were; it returns whether the
-- type was not forced before.
pub activate_channel_lem :
    (cm : ChannelManager) (t u : DataType)
    → let (cm', changed) = activate_channel cm t in
      (is_active cm' u ≡ (type_eq t u || is_active cm u))
      × (changed ≡ not (forced cm (dt_key t)))
      × (cm'.clients ≡ cm.clients)
unfolding activate_channel is_active type_eq
activate_channel_lem cm t u = ground (
  arith,
  lookup-put (dt_key t) (dt_key u) (record (state_at (dt_key t) cm.states) { force_active = true })
      cm.states,
)

-- After `deactivate_channel` the type is active exactly if it has subscribers; the other types are as
-- they were, and the call returns whether the type was forced.
pub deactivate_channel_lem :
    (cm : ChannelManager) (t u : DataType)
    → let (cm', was) = deactivate_channel cm t in
      (is_active cm' u ≡ (if type_eq t u then ltb 0 (subscriber_count cm t) else is_active cm u))
      × (was ≡ forced cm (dt_key t))
      × (cm'.clients ≡ cm.clients)
unfolding deactivate_channel is_active subscriber_count type_eq
deactivate_channel_lem cm t u = ground (
  arith,
  nat_eq_iff (dt_key t) (dt_key u),
  lookup-put (dt_key t) (dt_key u) (record (state_at (dt_key t) cm.states) { force_active = false })
      cm.states,
)
