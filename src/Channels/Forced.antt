-- ===== src/Channels/Forced.antt =====
-- Subscribing and unsubscribing leave alone which types are forced.
use sim_vision_sdk.Prelude.{
  ℕ-eq, text-eq, ℕ, ◌+◌, ◌-◌, ◌≡◌, refl, ◌∙◌, Bool, true, false, List, [], ◌∷◌, Text, nat_eq,
  nat_eq_iff, arith, if◌then◌else◌, Option-cases, inl, inr,
}
use sim_vision_sdk.Prelude.Map.{lookup}
use sim_vision_sdk.Prelude.Set
use sim_vision_sdk.Prelude.Set.{contains}
use sim_vision_sdk.Types.{DataType, dt_key}
use sim_vision_sdk.Channels.{
  State, ChannelManager, put, state_at, or_empty, subscribe_all, unsubscribe_all, release,
  release_all, start_capture, stop_capture, disconnect_client, activate_channel, deactivate_channel,
}
use sim_vision_sdk.Channels.Counts.{lookup-put}
use sim_vision_sdk.Channels.Effects.{forced_of, forced}

abbrev forced_in_states : List (ℕ × State) → ℕ → Bool
forced_in_states m k = forced_of (lookup k m)

forced-put_same :
    (j k n : ℕ) (m : List (ℕ × State))
    → forced_in_states (put j (record (state_at j m) { subscriber_count = n }) m) k
      ≡ forced_in_states m k
forced-put_same j k n m =
    ground
      (arith, nat_eq_iff j k, lookup-put j k (record (state_at j m) { subscriber_count = n }) m)

forced-release :
    (j k : ℕ) (m : List (ℕ × State)) → forced_in_states (release j m) k ≡ forced_in_states m k
unfolding release
forced-release j k m = elim (Option-cases (lookup j m)) [
  | inl e ↦ rw (e, release) refl
  | inr (s, e) ↦
      rw (e, release)
        (ground (
          arith,
          e,
          nat_eq_iff j k,
          lookup-put j k (record s { subscriber_count = s.subscriber_count - 1 }) m,
        ))
]

forced-subscribe_all :
    (ts : List DataType) (m : List (ℕ × State)) (subs : List ℕ) (k : ℕ)
    → forced_in_states (subscribe_all ts m subs).0 k ≡ forced_in_states m k
unfolding subscribe_all
forced-subscribe_all [] m subs k = refl
forced-subscribe_all (t ∷ ts) m subs k =
    let more =
      put (dt_key t)
        (record (state_at (dt_key t) m) {
          subscriber_count = (state_at (dt_key t) m).subscriber_count + 1;
        })
        m in
    forced-subscribe_all ts (if contains (dt_key t) subs then m else more)
      (Set.insert (dt_key t) subs) k
    ∙ (elim (contains (dt_key t) subs)
        as (λ b. forced_in_states (if b then m else more) k ≡ forced_in_states m k) [
          | true ↦ refl
          | false ↦ forced-put_same (dt_key t) k _ m
        ])

forced-unsubscribe_all :
    (ts : List DataType) (m : List (ℕ × State)) (subs : List ℕ) (k : ℕ)
    → forced_in_states (unsubscribe_all ts m subs).0 k ≡ forced_in_states m k
unfolding unsubscribe_all
forced-unsubscribe_all [] m subs k = refl
forced-unsubscribe_all (t ∷ ts) m subs k =
    forced-unsubscribe_all ts (if contains (dt_key t) subs then release (dt_key t) m else m)
      (Set.erase (dt_key t) subs) k
    ∙ (elim (contains (dt_key t) subs)
        as (λ b.
          forced_in_states (if b then release (dt_key t) m else m) k ≡ forced_in_states m k) [
            | true ↦ forced-release (dt_key t) k m
            | false ↦ refl
          ])

forced-release_all :
    (ks : List ℕ) (m : List (ℕ × State)) (k : ℕ)
    → forced_in_states (release_all ks m) k ≡ forced_in_states m k
unfolding release_all
forced-release_all [] m k = refl
forced-release_all (j ∷ js) m k = forced-release_all js (release j m) k ∙ forced-release j k m

pub forced-start_capture :
    (cm : ChannelManager) (c : Text) (ts : List DataType) (k : ℕ)
    → forced (start_capture cm c ts) k ≡ forced cm k
unfolding start_capture
forced-start_capture cm c ts k =
    forced-subscribe_all ts cm.states (or_empty (lookup c cm.clients)) k

pub forced-stop_capture :
    (cm : ChannelManager) (c : Text) (ts : List DataType) (k : ℕ)
    → forced (stop_capture cm c ts) k ≡ forced cm k
unfolding stop_capture
forced-stop_capture cm c ts k = elim (Option-cases (lookup c cm.clients)) [
  | inl e ↦ rw (e, stop_capture) refl
  | inr (subs, e) ↦ rw (e, stop_capture) (forced-unsubscribe_all ts cm.states subs k)
]

pub forced-disconnect_client :
    (cm : ChannelManager) (c : Text) (k : ℕ) → forced (disconnect_client cm c).0 k ≡ forced cm k
unfolding disconnect_client
forced-disconnect_client cm c k = elim (Option-cases (lookup c cm.clients)) [
  | inl e ↦ rw (e, disconnect_client) refl
  | inr (subs, e) ↦ rw (e, disconnect_client) (forced-release_all subs cm.states k)
]

pub forced-activate_channel :
    (cm : ChannelManager) (t : DataType) (k : ℕ)
    → forced (activate_channel cm t).0 k ≡ (if nat_eq (dt_key t) k then true else forced cm k)
unfolding activate_channel
forced-activate_channel cm t k = ground (
  arith,
  lookup-put (dt_key t) k (record (state_at (dt_key t) cm.states) { force_active = true })
      cm.states,
)

pub forced-deactivate_channel :
    (cm : ChannelManager) (t : DataType) (k : ℕ)
    → forced (deactivate_channel cm t).0 k ≡ (if nat_eq (dt_key t) k then false else forced cm k)
unfolding deactivate_channel
forced-deactivate_channel cm t k = ground (
  arith,
  lookup-put (dt_key t) k (record (state_at (dt_key t) cm.states) { force_active = false })
      cm.states,
)
