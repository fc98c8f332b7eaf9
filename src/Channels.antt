-- ===== src/Channels.antt =====
-- data/ChannelManager.h and data/ChannelManager.cpp: which data types have subscribers. `states_` is kept
-- in the order of its keys, which `status_json` shows; the order of `clients_` and of a client's set is
-- not observed. Each method holds the mutex throughout, so a call is one step.
pub mod Counts
pub mod Sorted
pub mod Valid
pub mod Effects
pub mod Forced
pub mod Abstract
pub mod History
pub mod Groups
use sim_vision_sdk.Prelude.{
  ℕ, ◌+◌, ◌-◌, Bool, true, false, Option, none, some, List, [], ◌∷◌, ◌||◌, Text, ltb, nat_eq,
  length, if◌then◌else◌, ℕ-eq, text-eq,
}
use sim_vision_sdk.Prelude.Map
use sim_vision_sdk.Prelude.Map.{lookup}
use sim_vision_sdk.Prelude.Set
use sim_vision_sdk.Prelude.Set.{contains}
use sim_vision_sdk.Types.{DataType, DataGroup, dt_key, group_members, all_data_types}

pub record State : Type 0 where
  pub subscriber_count : ℕ
  pub force_active : Bool

pub record ChannelManager : Type 0 where
  pub states : List (ℕ × State)
  pub clients : List (Text × List ℕ)

abbrev pub fresh : State
fresh = record { subscriber_count = 0; force_active = false }

-- `states_[k] = s`: a new key goes to its place in the order.
unfoldable pub put : ℕ → State → List (ℕ × State) → List (ℕ × State)
put k s [] = (k, s) ∷ []
put k s ((j, r) ∷ m) =
    if nat_eq j k then (k, s) ∷ m else if ltb k j then (k, s) ∷ (j, r) ∷ m else (j, r) ∷ put k s m

abbrev pub or_fresh : Option State → State
or_fresh none = fresh
or_fresh (some s) = s

-- `states_[k]`, which makes the entry if there is none.
abbrev pub state_at : ℕ → List (ℕ × State) → State
state_at k m = or_fresh (lookup k m)

abbrev pub or_empty : Option (List ℕ) → List ℕ
or_empty none = []
or_empty (some s) = s

unfoldable pub new : ChannelManager
new = record { states = []; clients = [] }

-- The loop of `start_capture`, over `states_` and the client's set.
unfoldable pub subscribe_all : List DataType → List (ℕ × State) → List ℕ → List (ℕ × State) × List ℕ
subscribe_all [] states subs = (states, subs)
subscribe_all (t ∷ ts) states subs =
    let k = dt_key t in
    let s = state_at k states in
    let more = put k (record s { subscriber_count = s.subscriber_count + 1 }) states in
    subscribe_all ts (if contains k subs then states else more) (Set.insert k subs)

unfoldable pub start_capture : ChannelManager → Text → List DataType → ChannelManager
start_capture cm client_id types =
    let (states, subs) = subscribe_all types cm.states (or_empty (lookup client_id cm.clients)) in
    record { states = states; clients = Map.insert client_id subs cm.clients }

-- One subscription less for key `k`, as `stop_capture` and `disconnect_client` count it.
unfoldable pub release : ℕ → List (ℕ × State) → List (ℕ × State)
release k states = elim (lookup k states) [
  | none ↦ states
  | some s ↦
      if ltb 0 s.subscriber_count
      then put k (record s { subscriber_count = s.subscriber_count - 1 }) states
      else states
]

-- The loop of `stop_capture`.
unfoldable pub unsubscribe_all :
    List DataType → List (ℕ × State) → List ℕ → List (ℕ × State) × List ℕ
unsubscribe_all [] states subs = (states, subs)
unsubscribe_all (t ∷ ts) states subs =
    let k = dt_key t in
    unsubscribe_all ts (if contains k subs then release k states else states) (Set.erase k subs)

unfoldable pub stop_capture : ChannelManager → Text → List DataType → ChannelManager
stop_capture cm client_id types = elim (lookup client_id cm.clients) [
  | none ↦ cm
  | some subs ↦
      let (states, subs') = unsubscribe_all types cm.states subs in
      record { states = states; clients = Map.insert client_id subs' cm.clients }
]

-- The loop of `disconnect_client`, over the client's set.
unfoldable pub release_all : List ℕ → List (ℕ × State) → List (ℕ × State)
release_all [] states = states
release_all (k ∷ ks) states = release_all ks (release k states)

unfoldable pub disconnect_client : ChannelManager → Text → ChannelManager × Bool
disconnect_client cm client_id = elim (lookup client_id cm.clients) [
  | none ↦ (cm, false)
  | some subs ↦ (
    record { states = release_all subs cm.states; clients = Map.erase client_id cm.clients },
    true,
  )
]

-- `states_[k].force_active = flag`
abbrev pub force : ChannelManager → DataType → Bool → ChannelManager
force cm t flag = record cm {
  states =
      put (dt_key t) (record (state_at (dt_key t) cm.states) { force_active = flag }) cm.states;
}

unfoldable pub activate_channel : ChannelManager → DataType → ChannelManager × Bool
activate_channel cm t =
    let was = (state_at (dt_key t) cm.states).force_active in
    (force cm t true, if was then false else true)

unfoldable pub deactivate_channel : ChannelManager → DataType → ChannelManager × Bool
deactivate_channel cm t =
    let was = (state_at (dt_key t) cm.states).force_active in (force cm t false, was)

abbrev pub state_active : State → Bool
state_active s = ltb 0 s.subscriber_count || s.force_active

abbrev pub found_active : Option State → Bool
found_active none = false
found_active (some s) = state_active s

unfoldable pub is_active : ChannelManager → DataType → Bool
is_active cm t = found_active (lookup (dt_key t) cm.states)

-- The loop of `group_active`.
unfoldable pub any_active : ChannelManager → List DataType → Bool
any_active cm [] = false
any_active cm (t ∷ ts) = if is_active cm t then true else any_active cm ts

unfoldable pub group_active : ChannelManager → DataGroup → Bool
unfolding any_active
group_active cm g = any_active cm (group_members g)

unfoldable pub filter_active : ChannelManager → List DataType → List DataType
filter_active cm [] = []
filter_active cm (t ∷ ts) = if is_active cm t then t ∷ filter_active cm ts else filter_active cm ts

unfoldable pub active_types : ChannelManager → List DataType
unfolding filter_active
active_types cm = filter_active cm all_data_types

-- `forced_types`, as the keys of the types
unfoldable pub forced_in : List (ℕ × State) → List ℕ
forced_in [] = []
forced_in ((k, s) ∷ m) = if s.force_active then k ∷ forced_in m else forced_in m

unfoldable pub forced_types : ChannelManager → List ℕ
unfolding forced_in
forced_types cm = forced_in cm.states

abbrev pub found_count : Option State → ℕ
found_count none = 0
found_count (some s) = s.subscriber_count

unfoldable pub subscriber_count : ChannelManager → DataType → ℕ
subscriber_count cm t = found_count (lookup (dt_key t) cm.states)

unfoldable pub total_clients : ChannelManager → ℕ
total_clients cm = length cm.clients

-- The loop of `any_subscriber`.
unfoldable pub any_counted : List (ℕ × State) → Bool
any_counted [] = false
any_counted ((k, s) ∷ m) = if ltb 0 s.subscriber_count then true else any_counted m

unfoldable pub any_subscriber : ChannelManager → Bool
unfolding any_counted
any_subscriber cm = any_counted cm.states

-- The loop of `last_subscriber_left`.
unfoldable pub none_active : ChannelManager → List DataType → Bool
none_active cm [] = true
none_active cm (t ∷ ts) = if is_active cm t then false else none_active cm ts

unfoldable pub last_subscriber_left : ChannelManager → DataGroup → Bool
unfolding none_active
last_subscriber_left cm g = none_active cm (group_members g)
