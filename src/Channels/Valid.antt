-- ===== src/Channels/Valid.antt =====
-- The invariant of `ChannelManager` and its preservation by every method.
use sim_vision_sdk.Prelude.{
  ℕ, ◌≤◌, ◌≡◌, refl, ap, Bool, true, false, some, List, [], ◌∷◌, Text, subst, nat_eq_iff, arith,
  ℕ-eq, text-eq, Option-cases, inl, inr,
}
use sim_vision_sdk.Prelude.Map
use sim_vision_sdk.Prelude.Map.{lookup}
use sim_vision_sdk.Prelude.Set
use sim_vision_sdk.Types.{DataType, dt_key}
use sim_vision_sdk.Channels.{
  State, ChannelManager, state_at, or_empty, release_all, subscribe_all, unsubscribe_all, new,
  start_capture, stop_capture, disconnect_client, activate_channel, deactivate_channel, force,
}
use sim_vision_sdk.Channels.Counts.{
  count, holds, subscribers, lookup-put, subscribe_all_counts, unsubscribe_all_counts,
  count-release_all, subscribers-insert, subscribers-erase, holds-le-subscribers,
}
use sim_vision_sdk.Channels.Sorted.{
  IsSorted, put-IsSorted, subscribe_all-IsSorted, unsubscribe_all-IsSorted, release_all-IsSorted,
}

-- No client's set holds a key twice.
abbrev pub SetsUnique : List (Text × List ℕ) → Type 0
SetsUnique [] = Unit {0}
SetsUnique ((c, s) ∷ m) = Set.IsUnique s × SetsUnique m

-- Each count is the number of clients whose set holds the key.
pub record Inv (cm : ChannelManager) : Type 0 where
  pub counted : (k : ℕ) → count k cm.states ≡ subscribers k cm.clients
  pub unique : Map.IsUnique cm.clients
  pub sets : SetsUnique cm.clients
  pub sorted : IsSorted cm.states

SetsUnique-insert :
    (c : Text) (s : List ℕ) (m : List (Text × List ℕ))
    → Set.IsUnique s
    → SetsUnique m
    → SetsUnique (Map.insert c s m)
unfolding Map.insert
SetsUnique-insert c s [] u h = (u, tt)
SetsUnique-insert c s ((d, r) ∷ m) u h = ground (arith, SetsUnique-insert c s m u h.1)

SetsUnique-erase : (c : Text) (m : List (Text × List ℕ)) → SetsUnique m → SetsUnique (Map.erase c m)
unfolding Map.erase
SetsUnique-erase c [] h = tt
SetsUnique-erase c ((d, r) ∷ m) h = ground (arith, SetsUnique-erase c m h.1)

pub SetsUnique-lookup :
    (c : Text) (m : List (Text × List ℕ)) → SetsUnique m → Set.IsUnique (or_empty (lookup c m))
unfolding lookup
SetsUnique-lookup c [] h = tt
SetsUnique-lookup c ((d, r) ∷ m) h = ground (arith, SetsUnique-lookup c m h.1)

subscribe_all-IsUnique :
    (ts : List DataType) (states : List (ℕ × State)) (subs : List ℕ)
    → Set.IsUnique subs
    → Set.IsUnique (subscribe_all ts states subs).1
unfolding subscribe_all
subscribe_all-IsUnique [] states subs u = u
subscribe_all-IsUnique (t ∷ ts) states subs u =
    subscribe_all-IsUnique ts _ _ (Set.insert-IsUnique (dt_key t) subs u)

unsubscribe_all-IsUnique :
    (ts : List DataType) (states : List (ℕ × State)) (subs : List ℕ)
    → Set.IsUnique subs
    → Set.IsUnique (unsubscribe_all ts states subs).1
unfolding unsubscribe_all
unsubscribe_all-IsUnique [] states subs u = u
unsubscribe_all-IsUnique (t ∷ ts) states subs u =
    unsubscribe_all-IsUnique ts _ _ (Set.erase-IsUnique (dt_key t) subs u)

pub new-Inv : Inv new
unfolding new lookup subscribers
new-Inv = record { counted = λ k. refl; unique = tt; sets = tt; sorted = tt }

-- `start_capture` keeps the invariant: every count is the number of the clients subscribed to the type.
pub start_capture-Inv :
    (cm : ChannelManager) (c : Text) (ts : List DataType) → Inv cm → Inv (start_capture cm c ts)
unfolding start_capture
start_capture-Inv cm c ts v =
    let subs = or_empty (lookup c cm.clients) in
    let subs' = (subscribe_all ts cm.states subs).1 in
    record {
      counted = λ k. omega (
        arith,
        v.counted k,
        subscribe_all_counts ts cm.states subs k,
        subscribers-insert c subs' cm.clients k,
      );
      unique = Map.insert-IsUnique c subs' cm.clients v.unique;
      sets =
          SetsUnique-insert c subs' cm.clients
            (subscribe_all-IsUnique ts cm.states subs (SetsUnique-lookup c cm.clients v.sets))
            v.sets;
      sorted = subscribe_all-IsSorted ts cm.states subs v.sorted;
    }

-- `stop_capture` keeps the invariant: it takes back just what the client was counted for.
pub stop_capture-Inv :
    (cm : ChannelManager) (c : Text) (ts : List DataType) → Inv cm → Inv (stop_capture cm c ts)
unfolding stop_capture
stop_capture-Inv cm c ts v = elim (Option-cases (lookup c cm.clients)) [
  | inl e ↦ rw (e, stop_capture) v
  | inr (subs, e) ↦ rw (e, stop_capture) (stopped subs e)
]
  where
    stopped :
        (subs : List ℕ)
        → lookup c cm.clients ≡ some subs
        → let (states', subs') = unsubscribe_all ts cm.states subs in
          Inv (record { states = states'; clients = Map.insert c subs' cm.clients })
    stopped subs e =
        let subs' = (unsubscribe_all ts cm.states subs).1 in
        let e' : or_empty (lookup c cm.clients) ≡ subs = ap or_empty e in
        record {
          counted = λ k.
              let h : holds k subs ≤ count k cm.states =
                omega (arith, v.counted k, ap (holds k) e', holds-le-subscribers c cm.clients k) in
              omega (
                arith,
                v.counted k,
                ap (holds k) e',
                unsubscribe_all_counts ts cm.states subs k h,
                subscribers-insert c subs' cm.clients k,
              );
          unique = Map.insert-IsUnique c subs' cm.clients v.unique;
          sets =
              SetsUnique-insert c subs' cm.clients
                (unsubscribe_all-IsUnique ts cm.states subs
                  (subst Set.IsUnique e' (SetsUnique-lookup c cm.clients v.sets)))
                v.sets;
          sorted = unsubscribe_all-IsSorted ts cm.states subs v.sorted;
        }

-- `disconnect_client` keeps the invariant: it takes back all that the client was counted for.
pub disconnect_client-Inv :
    (cm : ChannelManager) (c : Text) → Inv cm → Inv (disconnect_client cm c).0
unfolding disconnect_client
disconnect_client-Inv cm c v = elim (Option-cases (lookup c cm.clients)) [
  | inl e ↦ rw (e, disconnect_client) v
  | inr (subs, e) ↦ rw (e, disconnect_client) (gone subs e)
]
  where
    gone :
        (subs : List ℕ)
        → lookup c cm.clients ≡ some subs
        → Inv (record { states = release_all subs cm.states; clients = Map.erase c cm.clients })
    gone subs e = record {
      counted = λ k.
          let own : Set.IsUnique subs =
            subst Set.IsUnique (ap or_empty e) (SetsUnique-lookup c cm.clients v.sets) in
          omega (
            arith,
            v.counted k,
            ap (λ o. holds k (or_empty o)) e,
            count-release_all subs cm.states k own,
            subscribers-erase c cm.clients k v.unique,
          );
      unique = Map.erase-IsUnique c cm.clients v.unique;
      sets = SetsUnique-erase c cm.clients v.sets;
      sorted = release_all-IsSorted subs cm.states v.sorted;
    }

force-Inv : (cm : ChannelManager) (t : DataType) (flag : Bool) → Inv cm → Inv (force cm t flag)
force-Inv cm t flag v = record {
  counted = λ k. ground (
    arith,
    v.counted k,
    nat_eq_iff (dt_key t) k,
    lookup-put (dt_key t) k (record (state_at (dt_key t) cm.states) { force_active = flag })
        cm.states,
  );
  unique = v.unique;
  sets = v.sets;
  sorted =
      put-IsSorted (dt_key t) (record (state_at (dt_key t) cm.states) { force_active = flag })
        cm.states v.sorted;
}

pub activate_channel-Inv :
    (cm : ChannelManager) (t : DataType) → Inv cm → Inv (activate_channel cm t).0
unfolding activate_channel
activate_channel-Inv cm t v = force-Inv cm t true v

pub deactivate_channel-Inv :
    (cm : ChannelManager) (t : DataType) → Inv cm → Inv (deactivate_channel cm t).0
unfolding deactivate_channel
deactivate_channel-Inv cm t v = force-Inv cm t false v
