-- ===== src/Channels/Sorted.antt =====
-- `states_` stays in the order of its keys, with one entry for a key.
use sim_vision_sdk.Prelude.{
  ℕ, ◌+◌, ◌-◌, ◌≤◌, dec_lt, ◌<◌, ◌≡◌, refl, none, List, [], ◌∷◌, arith, true, ℕ-eq, Option-cases,
  inl, inr, ◌↔◌,
}
use sim_vision_sdk.Prelude.Map.{lookup}
use sim_vision_sdk.Types.{DataType, dt_key}
use sim_vision_sdk.Channels.{
  State, put, state_at, release, release_all, subscribe_all, unsubscribe_all, any_counted,
}
use sim_vision_sdk.Channels.Counts.{count}

-- All keys are greater.
abbrev pub Above : ℕ → List (ℕ × State) → Type 0
Above k [] = Unit {0}
Above k ((j, s) ∷ m) = (k < j) × Above k m

abbrev pub IsSorted : List (ℕ × State) → Type 0
IsSorted [] = Unit {0}
IsSorted ((k, s) ∷ m) = Above k m × IsSorted m

Above-mono : (j k : ℕ) (m : List (ℕ × State)) → k ≤ j → Above j m → Above k m
Above-mono j k [] h a = tt
Above-mono j k ((i, s) ∷ m) h a = (omega arith, Above-mono j k m h a.1)

lookup-Above : (k : ℕ) (m : List (ℕ × State)) → Above k m → lookup k m ≡ none
unfolding lookup
lookup-Above k [] a = refl
lookup-Above k ((i, s) ∷ m) a = ground (arith, lookup-Above k m a.1)

Above-put : (j k : ℕ) (s : State) (m : List (ℕ × State)) → j < k → Above j m → Above j (put k s m)
unfolding put
Above-put j k s [] h a = (h, tt)
Above-put j k s ((i, r) ∷ m) h a = ground (arith, Above-put j k s m h a.1)

pub put-IsSorted : (k : ℕ) (s : State) (m : List (ℕ × State)) → IsSorted m → IsSorted (put k s m)
unfolding put
put-IsSorted k s [] h = (tt, tt)
put-IsSorted k s ((i, r) ∷ m) h =
    ground (arith, Above-put i k s m, put-IsSorted k s m h.1, Above-mono i k m)

pub release-IsSorted : (k : ℕ) (m : List (ℕ × State)) → IsSorted m → IsSorted (release k m)
unfolding release
release-IsSorted k m h = elim (Option-cases (lookup k m)) [
  | inl e ↦ rw (e, release) h
  | inr (s, e) ↦
      rw (e, release)
        (ground
          (arith, put-IsSorted k (record s { subscriber_count = s.subscriber_count - 1 }) m h))
]

pub release_all-IsSorted :
    (ks : List ℕ) (m : List (ℕ × State)) → IsSorted m → IsSorted (release_all ks m)
unfolding release_all
release_all-IsSorted [] m h = h
release_all-IsSorted (k ∷ ks) m h = release_all-IsSorted ks (release k m) (release-IsSorted k m h)

pub subscribe_all-IsSorted :
    (ts : List DataType) (m : List (ℕ × State)) (subs : List ℕ)
    → IsSorted m
    → IsSorted (subscribe_all ts m subs).0
unfolding subscribe_all
subscribe_all-IsSorted [] m subs h = h
subscribe_all-IsSorted (t ∷ ts) m subs h = subscribe_all-IsSorted ts _ _ (
    ground (
      arith,
      h,
      put-IsSorted (dt_key t)
          (record (state_at (dt_key t) m) {
            subscriber_count = (state_at (dt_key t) m).subscriber_count + 1;
          })
          m h,
    ))

pub unsubscribe_all-IsSorted :
    (ts : List DataType) (m : List (ℕ × State)) (subs : List ℕ)
    → IsSorted m
    → IsSorted (unsubscribe_all ts m subs).0
unfolding unsubscribe_all
unsubscribe_all-IsSorted [] m subs h = h
unsubscribe_all-IsSorted (t ∷ ts) m subs h =
    unsubscribe_all-IsSorted ts _ _ (ground (arith, h, release-IsSorted (dt_key t) m h))

any_counted-found :
    (m : List (ℕ × State)) → IsSorted m → any_counted m ≡ true → (k : ℕ) × (0 < count k m)
unfolding any_counted lookup
any_counted-found [] h e = absurd (ground (arith, e))
any_counted-found ((j, s) ∷ m) h e = elim (dec_lt 0 s.subscriber_count) [
  | yes p ↦ (j, ground (arith, p))
  | no p ↦
      let (k, q) = any_counted-found m h.1 (ground (arith, p, e)) in
      (k, ground (arith, q, lookup-Above j m h.0))
]

any_counted-hit : (m : List (ℕ × State)) (k : ℕ) → 0 < count k m → any_counted m ≡ true
unfolding any_counted lookup
any_counted-hit [] k p = absurd (omega arith)
any_counted-hit ((j, s) ∷ m) k p = ground (arith, any_counted-hit m k)

-- Some entry has a positive count exactly when the count of some key is positive.
pub any_counted_iff :
    (m : List (ℕ × State)) → IsSorted m → (any_counted m ≡ true) ↔ ((k : ℕ) × (0 < count k m))
any_counted_iff m h = (any_counted-found m h, λ (k, p). any_counted-hit m k p)
