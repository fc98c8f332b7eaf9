-- ===== src/Channels/Counts.antt =====
-- The subscriber counts of `states_` against the clients' sets: every count is the number of clients
-- whose set holds the type, and every operation keeps it so.
use sim_vision_sdk.Prelude.{
  ℕ, ◌+◌, ◌-◌, ◌≤◌, ◌≡◌, refl, some, List, [], ◌∷◌, Text, nat_eq, nat_eq_iff, text_eq_iff,
  if◌then◌else◌, arith, ℕ-eq, text-eq, Bool-cases, Option-cases, inl, inr,
}
use sim_vision_sdk.Prelude.Map
use sim_vision_sdk.Prelude.Map.{lookup}
use sim_vision_sdk.Prelude.Set
use sim_vision_sdk.Prelude.Set.{contains, contains-insert, contains-erase}
use sim_vision_sdk.Types.{DataType, dt_key}
use sim_vision_sdk.Channels.{
  State, put, state_at, or_empty, found_count, release, release_all, subscribe_all, unsubscribe_all,
}

abbrev pub count : ℕ → List (ℕ × State) → ℕ
count k states = found_count (lookup k states)

-- 1 if the set holds the key
abbrev pub holds : ℕ → List ℕ → ℕ
holds k s = if contains k s then 1 else 0

-- How many clients are subscribed to the key.
unfoldable pub subscribers : ℕ → List (Text × List ℕ) → ℕ
subscribers k [] = 0
subscribers k ((c, s) ∷ m) = holds k s + subscribers k m

pub lookup-put :
    (k j : ℕ) (s : State) (m : List (ℕ × State))
    → lookup j (put k s m) ≡ (if nat_eq k j then some s else lookup j m)
unfolding lookup put
lookup-put k j s [] = refl
lookup-put k j s ((i, r) ∷ m) = ground (arith, lookup-put k j s m)

pub count-release :
    (k j : ℕ) (m : List (ℕ × State))
    → count j (release k m) ≡ (if nat_eq k j then count j m - 1 else count j m)
unfolding release
count-release k j m = elim (Option-cases (lookup k m)) [
  | inl e ↦ rw (e, release) (ground arith)
  | inr (s, e) ↦
      rw (e, release)
        (ground (arith, lookup-put k j (record s { subscriber_count = s.subscriber_count - 1 }) m))
]

pub subscribe_all_counts :
    (ts : List DataType) (states : List (ℕ × State)) (subs : List ℕ) (j : ℕ)
    → let (states', subs') = subscribe_all ts states subs in
      count j states' + holds j subs ≡ count j states + holds j subs'
unfolding subscribe_all
subscribe_all_counts [] states subs j = refl
subscribe_all_counts (t ∷ ts) states subs j =
    let k = dt_key t in
    let s = state_at k states in
    let more = record s { subscriber_count = s.subscriber_count + 1 } in
    elim (Bool-cases (contains k subs)) [
      | inl e ↦
          rw (e, subscribe_all)
            (ground (
              arith,
              contains-insert k j subs,
              nat_eq_iff k j,
              subscribe_all_counts ts states (Set.insert k subs) j,
            ))
      | inr e ↦
          rw (e, subscribe_all)
            (ground (
              arith,
              lookup-put k j more states,
              contains-insert k j subs,
              nat_eq_iff k j,
              subscribe_all_counts ts (put k more states) (Set.insert k subs) j,
            ))
    ]

pub unsubscribe_all_counts :
    (ts : List DataType) (states : List (ℕ × State)) (subs : List ℕ) (j : ℕ)
    → holds j subs ≤ count j states
    → let (states', subs') = unsubscribe_all ts states subs in
      count j states' + holds j subs ≡ count j states + holds j subs'
unfolding unsubscribe_all
unsubscribe_all_counts [] states subs j h = refl
unsubscribe_all_counts (t ∷ ts) states subs j h =
    let k = dt_key t in
    elim (Bool-cases (contains k subs)) [
      | inl e ↦
          rw (e, unsubscribe_all)
            (ground (
              arith,
              count-release k j states,
              contains-erase k j subs,
              nat_eq_iff k j,
              unsubscribe_all_counts ts (release k states) (Set.erase k subs) j,
            ))
      | inr e ↦
          rw (e, unsubscribe_all)
            (ground (
              arith,
              contains-erase k j subs,
              nat_eq_iff k j,
              unsubscribe_all_counts ts states (Set.erase k subs) j,
            ))
    ]

pub count-release_all :
    (s : List ℕ) (m : List (ℕ × State)) (j : ℕ)
    → Set.IsUnique s
    → count j (release_all s m) ≡ count j m - holds j s
unfolding release_all contains
count-release_all [] m j u = omega arith
count-release_all (k ∷ s) m j u =
    ground (arith, count-release k j m, count-release_all s (release k m) j u.1)

pub subscribers-insert :
    (c : Text) (s : List ℕ) (m : List (Text × List ℕ)) (j : ℕ)
    → subscribers j (Map.insert c s m) + holds j (or_empty (lookup c m))
      ≡ subscribers j m + holds j s
unfolding subscribers Map.insert lookup contains
subscribers-insert c s [] j = omega arith
subscribers-insert c s ((d, r) ∷ m) j = ground (arith, text_eq_iff d c, subscribers-insert c s m j)

pub subscribers-erase :
    (c : Text) (m : List (Text × List ℕ)) (j : ℕ)
    → Map.IsUnique m
    → subscribers j (Map.erase c m) + holds j (or_empty (lookup c m)) ≡ subscribers j m
unfolding subscribers Map.erase lookup contains
subscribers-erase c [] j u = omega arith
subscribers-erase c ((d, r) ∷ m) j u =
    ground (arith, text_eq_iff d c, subscribers-erase c m j u.1, Map.erase_absent c m)

pub holds-le-subscribers :
    (c : Text) (m : List (Text × List ℕ)) (j : ℕ)
    → holds j (or_empty (lookup c m)) ≤ subscribers j m
unfolding subscribers lookup contains
holds-le-subscribers c [] j = omega arith
holds-le-subscribers c ((d, r) ∷ m) j = ground (arith, holds-le-subscribers c m j)
