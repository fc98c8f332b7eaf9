-- ===== src/Prelude/Map.antt =====
-- `std::map` and `std::unordered_map` where their order is not observed: association lists.
use sim_vision_sdk.Prelude.Tests.{if◌then◌else◌}
use sim_vision_sdk.Prelude.Equality.{HasEq, ◌==◌}
use mathlib.Core.Path.{◌≡◌, refl}
use mathlib.Core.Bool.{true}
use mathlib.Core.Option.{Option, none, some}
use mathlib.Core.List.{List, [], ◌∷◌}
use native.Mathlib.Omega.{arith}

pub eqb_refl {ℓ} : {K : Type ℓ} ⦃e : HasEq K⦄ (k : K) → (k == k) ≡ true
eqb_refl ⦃e⦄ k = (e.eqb_iff k k).1 refl

module _ {ℓ ℓ'} {K : Type ℓ} {V : Type ℓ'} ⦃e : HasEq K⦄ where
  unfoldable pub lookup : K → List (K × V) → Option V
  lookup k [] = none
  lookup k (entry ∷ rest) = if entry.0 == k then some entry.1 else lookup k rest

  unfoldable pub erase : K → List (K × V) → List (K × V)
  erase k [] = []
  erase k ((j, w) ∷ m) = if j == k then erase k m else (j, w) ∷ erase k m

  -- `m[k] = v`: the entry of `k` in place, or a new entry.
  unfoldable pub insert : K → V → List (K × V) → List (K × V)
  insert k x [] = (k, x) ∷ []
  insert k x (entry ∷ rest) = if entry.0 == k then (k, x) ∷ rest else entry ∷ insert k x rest

  -- What a map holds at `wanted` once `k` has a value.
  pub lookup-insert :
      (k wanted : K) (x : V) (entries : List (K × V))
      → lookup wanted (insert k x entries) ≡ (if k == wanted then some x else lookup wanted entries)
  unfolding insert lookup
  lookup-insert k wanted x [] = refl
  lookup-insert k wanted x (entry ∷ rest) =
      let known = lookup-insert k wanted x rest in
      ground (arith, known, e.eqb_iff entry.0 wanted, e.eqb_iff entry.0 k, e.eqb_iff k wanted)

  pub lookup-erase :
      (k j : K) (m : List (K × V)) → lookup j (erase k m) ≡ (if k == j then none else lookup j m)
  unfolding lookup erase
  lookup-erase k j [] = ground arith
  lookup-erase k j ((i, w) ∷ m) =
      ground (arith, e.eqb_iff k j, e.eqb_iff i k, e.eqb_iff i j, lookup-erase k j m)

  -- No key has two entries.
  abbrev pub IsUnique : List (K × V) → Type ℓ'
  IsUnique [] = Unit {ℓ'}
  IsUnique ((k, v) ∷ m) = (lookup k m ≡ none) × IsUnique m

  pub insert-IsUnique : (k : K) (v : V) (m : List (K × V)) → IsUnique m → IsUnique (insert k v m)
  unfolding lookup insert
  insert-IsUnique k v [] u = (refl, tt)
  insert-IsUnique k v ((j, w) ∷ m) u =
      ground (arith, e.eqb_iff j k, e.eqb_iff k j, lookup-insert k j v m, insert-IsUnique k v m u.1)

  pub erase-IsUnique : (k : K) (m : List (K × V)) → IsUnique m → IsUnique (erase k m)
  unfolding lookup erase
  erase-IsUnique k [] u = tt
  erase-IsUnique k ((j, w) ∷ m) u = ground (arith, lookup-erase k j m, erase-IsUnique k m u.1)

  pub erase_absent : (k : K) (m : List (K × V)) → lookup k m ≡ none → erase k m ≡ m
  unfolding lookup erase
  erase_absent k [] h = refl
  erase_absent k ((j, w) ∷ m) h = ground (arith, erase_absent k m)
