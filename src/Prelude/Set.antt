-- ===== src/Prelude/Set.antt =====
-- `std::set` where its order is not observed: a list with no element twice.
use sim_vision_sdk.Prelude.Tests.{if◌then◌else◌}
use sim_vision_sdk.Prelude.Equality.{HasEq, ◌==◌}
use mathlib.Core.Path.{◌≡◌}
use mathlib.Core.Bool.{Bool, false, ◌||◌}
use mathlib.Core.List.{List, [], ◌∷◌}
use native.Mathlib.Omega.{arith}

module _ {ℓ} {K : Type ℓ} ⦃e : HasEq K⦄ where
  unfoldable pub contains : K → List K → Bool
  contains k [] = false
  contains k (j ∷ s) = j == k || contains k s

  unfoldable pub insert : K → List K → List K
  unfolding contains
  insert k s = if contains k s then s else k ∷ s

  unfoldable pub erase : K → List K → List K
  erase k [] = []
  erase k (j ∷ s) = if j == k then erase k s else j ∷ erase k s

  abbrev pub IsUnique : List K → Type 0
  IsUnique [] = Unit {0}
  IsUnique (k ∷ s) = (contains k s ≡ false) × IsUnique s

  pub contains-insert : (k j : K) (s : List K) → contains j (insert k s) ≡ (k == j || contains j s)
  unfolding insert contains
  contains-insert k j s = ground (arith, e.eqb_iff k j)

  pub contains-erase :
      (k j : K) (s : List K) → contains j (erase k s) ≡ (if k == j then false else contains j s)
  unfolding contains erase
  contains-erase k j [] = ground arith
  contains-erase k j (i ∷ s) =
      ground (arith, e.eqb_iff k j, e.eqb_iff i k, e.eqb_iff i j, contains-erase k j s)

  pub insert-IsUnique : (k : K) (s : List K) → IsUnique s → IsUnique (insert k s)
  unfolding insert
  insert-IsUnique k s u = ground arith

  pub erase-IsUnique : (k : K) (s : List K) → IsUnique s → IsUnique (erase k s)
  unfolding contains erase
  erase-IsUnique k [] u = tt
  erase-IsUnique k (j ∷ s) u = ground (arith, contains-erase k j s, erase-IsUnique k s u.1)
