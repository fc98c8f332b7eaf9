-- ===== src/Source/Placed.antt =====
-- datasource/SimDataSource.cpp: which entries of the directory `load` takes, and for which index and side.
use sim_vision_sdk.Prelude.{
  ℕ, ◌≡◌, ◌≢◌, ◌↔◌, inl, inr, refl, sym, ap, ap₂, ◌∙◌, Bool, true, false, ◌&&◌, Option, none, some,
  [], ◌∷◌, ◌++◌, Text, to_lower, lower_byte, if◌then◌else◌, arith, Bool-cases, append_assoc, ℕ-eq,
}
use sim_vision_sdk.Prelude.Search.{stoul}
use sim_vision_sdk.Prelude.Set.{contains}
use sim_vision_sdk.Source.Load.{
  File, place, find_last_of, ext_of, stem, is_image, is_empty, with_index, split_stem, ext_from,
  stem_from,
}
use sim_vision_sdk.Source.Names.{
  find_last_of-none, find_last_of-append, find_last_of-Split, IsImage, is_image_iff,
  image-no_underscore, ext_of-name, stem-name, split_stem-name,
}

place-parts :
    (file : File) (a : ℕ) (pre ext : Text)
    → file.filename ≡ (a ∷ pre) ++ b'.' ∷ ext
    → contains b'.' ext ≡ false
    → place file ≡ (
        if file.is_regular_file && is_image (to_lower ext)
        then split_stem (a ∷ pre) (find_last_of b'_' (a ∷ pre))
        else none)
unfolding place
place-parts file a pre ext named h =
    ap₂
      (λ e s.
        if file.is_regular_file && is_image e then split_stem s (find_last_of b'_' s) else none)
      (ap ext_of named ∙ ext_of-name a pre ext h) (ap stem named ∙ stem-name a pre ext h)

-- A regular file counts for an index and a side, if its name is made of a text that begins with the side's letter,
-- large or small, an underscore, a text that `std::stoul` reads as the index and in which no underscore is, and an
-- extension of an image.
pub record IsSide (i side : ℕ) (file : File) : Type 0 where
  pub regular : file.is_regular_file ≡ true
  pub letter : ℕ
  pub rest : Text
  pub idxs : Text
  pub ext : Text
  pub named : file.filename ≡ (letter ∷ rest) ++ b'_' ∷ (idxs ++ b'.' ∷ ext)
  pub last_underscore : contains b'_' idxs ≡ false
  pub last_dot : contains b'.' ext ≡ false
  pub image : IsImage (to_lower ext)
  pub index : stoul idxs ≡ some i
  pub first : lower_byte letter ≡ side

nonempty-stoul : (idxs : Text) {i : ℕ} → stoul idxs ≡ some i → is_empty idxs ≡ false
unfolding stoul
nonempty-stoul [] e = absurd (ground (arith, e))
nonempty-stoul (c ∷ s) e = refl

IsSide-place : (i side : ℕ) (file : File) → IsSide i side file → place file ≡ some (i, side)
unfolding to_lower
IsSide-place i side file s =
    let whole = s.letter ∷ s.rest in
    let image = (is_image_iff (to_lower s.ext)).1 s.image in
    place-parts file s.letter (s.rest ++ b'_' ∷ s.idxs) s.ext
      (s.named ∙ sym (append_assoc whole (b'_' ∷ s.idxs) (b'.' ∷ s.ext))) s.last_dot
    ∙ ap
        (λ b.
          if b
          then split_stem (whole ++ b'_' ∷ s.idxs) (find_last_of b'_' (whole ++ b'_' ∷ s.idxs))
          else none)
        (let q : file.is_regular_file && is_image (to_lower s.ext) ≡ true =
            ground (arith, s.regular, image) in
          q)
    ∙ split_stem-name whole s.idxs s.last_underscore
    ∙ ap (λ b. if b then none else with_index whole (stoul s.idxs)) (nonempty-stoul s.idxs s.index)
    ∙ ap (with_index whole) s.index
    ∙ ap (λ c. some (i, c)) s.first

no_dot-place : (file : File) → find_last_of b'.' file.filename ≡ none → place file ≡ none
unfolding place ext_of
no_dot-place file e =
    ap
      (λ x.
        if file.is_regular_file && is_image x
        then split_stem (stem file.filename) (find_last_of b'_' (stem file.filename))
        else none)
      (ap (ext_from file.filename) e)
    ∙ (let q : file.is_regular_file && is_image [] ≡ false = ground arith in
        ap
          (λ b.
            if b
            then split_stem (stem file.filename) (find_last_of b'_' (stem file.filename))
            else none)
          q)

first_dot-place :
    (file : File) (ext : Text)
    → file.filename ≡ b'.' ∷ ext
    → contains b'.' ext ≡ false
    → place file ≡ none
unfolding place ext_of stem contains
first_dot-place file ext named h =
    let at_zero = find_last_of-append b'.' [] ext h in
    ap₂
      (λ e s.
        if file.is_regular_file && is_image e then split_stem s (find_last_of b'_' s) else none)
      (ap ext_of named ∙ ap (ext_from (b'.' ∷ ext)) at_zero)
      (ap stem named ∙ ap (stem_from (b'.' ∷ ext)) at_zero)
    ∙ elim (Bool-cases (is_image (to_lower ext))) [
      | inr e ↦ ground (arith, e)
      | inl e ↦
          let no_underscore : contains b'_' (b'.' ∷ ext) ≡ false =
            ground (arith, image-no_underscore ext e) in
          rw (find_last_of-none b'_' (b'.' ∷ ext) no_underscore) (ground arith)
    ]

-- The side is the letter, not the space that stands for an empty text.
with_index-some :
    (camid : Text) (o : Option ℕ) {i side : ℕ}
    → side ≢ b' '
    → with_index camid o ≡ some (i, side)
    → (letter : ℕ) × (rest : Text) × (camid ≡ letter ∷ rest)
      × (lower_byte letter ≡ side)
      × (o ≡ some i)
unfolding to_lower
with_index-some camid none known e = absurd (ground (arith, e))
with_index-some [] (some j) known e = absurd (ground (arith, e, known))
with_index-some (letter ∷ rest) (some j) known e =
    (letter, rest, refl, ground (arith, e), ground (arith, e))

split_stem-IsSide :
    (i side : ℕ) (file : File) (camid idxs ext : Text)
    → side ≢ b' '
    → file.is_regular_file ≡ true
    → is_image (to_lower ext) ≡ true
    → file.filename ≡ (camid ++ b'_' ∷ idxs) ++ b'.' ∷ ext
    → contains b'_' idxs ≡ false
    → contains b'.' ext ≡ false
    → (if is_empty idxs then none else with_index camid (stoul idxs)) ≡ some (i, side)
    → IsSide i side file
split_stem-IsSide i side file camid idxs ext known regular image named h h' e =
    let (letter, rest, q, first, index) =
      with_index-some camid (stoul idxs) known (nonempty (is_empty idxs) e) in
    record {
      regular = regular;
      letter = letter;
      rest = rest;
      idxs = idxs;
      ext = ext;
      named =
          named
          ∙ append_assoc camid (b'_' ∷ idxs) (b'.' ∷ ext)
          ∙ ap (λ c. c ++ b'_' ∷ (idxs ++ b'.' ∷ ext)) q;
      last_underscore = h;
      last_dot = h';
      image = (is_image_iff (to_lower ext)).0 image;
      index = index;
      first = first;
    }
  where
    nonempty :
        {o : Option (ℕ × ℕ)} {r : ℕ × ℕ} (b : Bool) → (if b then none else o) ≡ some r → o ≡ some r
    nonempty true e = absurd (ground (arith, e))
    nonempty false e = e

if-some :
    {o : Option (ℕ × ℕ)} {r : ℕ × ℕ} (b : Bool)
    → (if b then o else none) ≡ some r
    → (b ≡ true) × (o ≡ some r)
if-some true e = (refl, e)
if-some false e = absurd (ground (arith, e))

parts-IsSide :
    (i side : ℕ) (file : File) (a : ℕ) (pre ext : Text)
    → side ≢ b' '
    → file.filename ≡ (a ∷ pre) ++ b'.' ∷ ext
    → contains b'.' ext ≡ false
    → place file ≡ some (i, side)
    → IsSide i side file
parts-IsSide i side file a pre ext known named h e =
    let (kind, found) =
      if-some (file.is_regular_file && is_image (to_lower ext))
        (sym (place-parts file a pre ext named h) ∙ e) in
    elim (find_last_of-Split b'_' (a ∷ pre)) [
      | inl (q, _) ↦ absurd (none≢some (sym (ap (split_stem (a ∷ pre)) q) ∙ found))
      | inr (k, _, (camid, idxs, q, _, h')) ↦
          split_stem-IsSide i side file camid idxs ext known (ground (arith, kind))
            (ground (arith, kind)) (named ∙ ap (λ s. s ++ b'.' ∷ ext) q) h' h
            (sym (split_stem-name camid idxs h')
              ∙ sym (ap (λ s. split_stem s (find_last_of b'_' s)) q)
              ∙ found)
    ]
  where
    none≢some : {r : ℕ × ℕ} → ◌≡◌ {A = Option (ℕ × ℕ)} none (some r) → ⊥
    none≢some e = ground (arith, e)

place-IsSide :
    (i side : ℕ) (file : File) → side ≢ b' ' → place file ≡ some (i, side) → IsSide i side file
place-IsSide i side file known e = elim (find_last_of-Split b'.' file.filename) [
  | inl (q, _) ↦ absurd (none≢some (sym (no_dot-place file q) ∙ e))
  | inr (k, _, (pre, ext, named, _, h)) ↦ by_stem pre ext named h
]
  where
    none≢some : {r : ℕ × ℕ} → ◌≡◌ {A = Option (ℕ × ℕ)} none (some r) → ⊥
    none≢some e = ground (arith, e)

    by_stem :
        (pre ext : Text)
        → file.filename ≡ pre ++ b'.' ∷ ext
        → contains b'.' ext ≡ false
        → IsSide i side file
    by_stem [] ext named h = absurd (none≢some (sym (first_dot-place file ext named h) ∙ e))
    by_stem (a ∷ pre) ext named h = parts-IsSide i side file a pre ext known named h e

-- `load` takes an entry for an index and a side exactly when it counts for them.
pub place_iff :
    (i side : ℕ) (file : File) → side ≢ b' ' → (place file ≡ some (i, side)) ↔ IsSide i side file
place_iff i side file known = (place-IsSide i side file known, IsSide-place i side file)
