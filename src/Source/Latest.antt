-- ===== src/Source/Latest.antt =====
-- datasource/SimDataSource.cpp: the last entry that `load` takes for an index and a side.
use sim_vision_sdk.Prelude.{
  ℕ, ◌≡◌, ◌≢◌, ◌⊎◌, ◌↔◌, inl, inr, refl, ap, true, false, Option, none, some, List, [], ◌∷◌, ◌++◌,
  Text, arith, nat_eq_iff, Bool-cases, ℕ-eq,
}
use sim_vision_sdk.Source.Slots.{placed, latest}
use sim_vision_sdk.Source.Load.{File, place}
use sim_vision_sdk.Source.Placed.{IsSide, place_iff}

-- No file counts for the index and the side.
abbrev pub NoneCounts : ℕ → ℕ → List File → Type 0
NoneCounts i side [] = Unit {0}
NoneCounts i side (file ∷ more) = ¬ IsSide i side file × NoneCounts i side more

-- The path of the last file that counts for the index and the side, or `start` if none does.
abbrev pub LastFrom : Text → ℕ → ℕ → List File → Text → Type 0
LastFrom start i side files path =
    (NoneCounts i side files × (path ≡ start))
    ⊎ ((before : List File) × (file : File) × (behind : List File) × (files
          ≡ before ++ file ∷ behind)
        × IsSide i side file
        × NoneCounts i side behind
        × (path ≡ file.path))

placed-some : (i side : ℕ) (o : Option (ℕ × ℕ)) → (placed i side o ≡ true) ↔ (o ≡ some (i, side))
placed-some i side none = ground arith
placed-some i side (some (j, s)) = ground (arith, nat_eq_iff j i, nat_eq_iff s side)

pub latest-LastFrom :
    (i side : ℕ) (files : List File) (start : Text)
    → side ≢ b' '
    → LastFrom start i side files (latest i side files start)
latest-LastFrom i side [] start known = inl (tt, refl)
latest-LastFrom i side (file ∷ more) start known = elim (Bool-cases (placed i side (place file))) [
  | inl e ↦
      let counts = (place_iff i side file known).0 ((placed-some i side (place file)).0 e) in
      rw e (found counts (latest-LastFrom i side more file.path known))
  | inr e ↦ rw e (passed (λ s. wrong e s) (latest-LastFrom i side more start known))
]
  where
    wrong : placed i side (place file) ≡ false → IsSide i side file → ⊥
    wrong e s =
        let yes_placed = (placed-some i side (place file)).1 ((place_iff i side file known).1 s) in
        ground (arith, e, yes_placed)

    further :
        {path p : Text}
        → ((before : List File) × (f : File) × (behind : List File) × (more ≡ before ++ f ∷ behind)
            × IsSide i side f
            × NoneCounts i side behind
            × (path ≡ f.path))
        → LastFrom p i side (file ∷ more) path
    further (before, f, behind, q, s, none_behind, same) =
        inr (file ∷ before, f, behind, ap (◌∷◌ file) q, s, none_behind, same)

    found :
        {path : Text}
        → IsSide i side file
        → LastFrom file.path i side more path
        → LastFrom start i side (file ∷ more) path
    found s (inl (none_behind, q)) = inr ([], file, more, refl, s, none_behind, q)
    found s (inr later) = further later

    passed :
        {path : Text}
        → (IsSide i side file → ⊥)
        → LastFrom start i side more path
        → LastFrom start i side (file ∷ more) path
    passed other (inl (none_behind, q)) = inl ((other, none_behind), q)
    passed other (inr later) = further later
