-- ===== src/Source/Names.antt =====
-- datasource/SimDataSource.cpp: the parts of the name of a directory entry, as `load` cuts it.
use sim_vision_sdk.Prelude.{
  ℕ, suc, ◌+◌, ◌≡◌, ◌⊎◌, ◌↔◌, inl, inr, refl, sym, ap, ap₂, subst, ◌∙◌, true, false, none, some, [],
  ◌∷◌, ◌++◌, Text, text, text_eq_iff, to_lower, lower_byte, if◌then◌else◌, arith, length, drop,
  nat_eq, nat_eq_iff, Bool-cases, ℕ-eq,
}
use sim_vision_sdk.Prelude.Search.{stoul}
use sim_vision_sdk.Prelude.Set.{contains}
use sim_vision_sdk.Server.Parsed.{take-append}
use sim_vision_sdk.Source.Load.{
  find_last_of, ext_of, stem, is_image, is_empty, with_index, split_stem, ext_from, stem_from,
}

pub find_last_of-none : (c : ℕ) (s : Text) → contains c s ≡ false → find_last_of c s ≡ none
unfolding find_last_of contains
find_last_of-none c [] h = refl
find_last_of-none c (b ∷ s) h =
    ground (arith, h, nat_eq_iff b c, nat_eq_iff c b, find_last_of-none c s)

pub find_last_of-append :
    (c : ℕ) (pre post : Text)
    → contains c post ≡ false
    → find_last_of c (pre ++ c ∷ post) ≡ some (length pre)
unfolding find_last_of
find_last_of-append c [] post h = ground (arith, nat_eq_iff c c, find_last_of-none c post h)
find_last_of-append c (b ∷ pre) post h = rw (find_last_of-append c pre post h) refl

-- The last place of a byte splits the text.
abbrev Split : ℕ → Text → ℕ → Type 0
Split c s k =
    (pre : Text) × (post : Text) × (s ≡ pre ++ c ∷ post)
    × (k ≡ length pre)
    × (contains c post ≡ false)

pub find_last_of-Split :
    (c : ℕ) (s : Text)
    → ((find_last_of c s ≡ none) × (contains c s ≡ false))
      ⊎ ((k : ℕ) × (find_last_of c s ≡ some k) × Split c s k)
unfolding find_last_of contains
find_last_of-Split c [] = inl (refl, refl)
find_last_of-Split c (b ∷ s) = elim (find_last_of-Split c s) [
  | inr (k, e, (pre, post, q, n, h)) ↦
      inr (suc k, rw e refl, (b ∷ pre, post, ap (◌∷◌ b) q, ap suc n, h))
  | inl (e, h) ↦ elim (Bool-cases (nat_eq b c)) [
    | inl same ↦
        inr (0, rw (e, same) refl, ([], s, ap (λ x. x ∷ s) ((nat_eq_iff b c).0 same), refl, h))
    | inr other ↦ inl (rw (e, other) refl, ground (arith, h, other, nat_eq_iff b c, nat_eq_iff c b))
  ]
]

lower_byte-underscore : (b : ℕ) → nat_eq (lower_byte b) b'_' ≡ nat_eq b b'_'
lower_byte-underscore b = grind (arith, nat_eq_iff (lower_byte b) b'_', nat_eq_iff b b'_')

to_lower-underscore : (s : Text) → contains b'_' (to_lower s) ≡ contains b'_' s
unfolding to_lower contains
to_lower-underscore [] = refl
to_lower-underscore (b ∷ s) = ground (arith, lower_byte-underscore b, to_lower-underscore s)

-- The four extensions that count.
abbrev pub IsImage : Text → Type 0
IsImage ext = (ext ≡ text "jpg") ⊎ (ext ≡ text "jpeg") ⊎ (ext ≡ text "png") ⊎ (ext ≡ text "raw")

pub is_image_iff : (ext : Text) → (is_image ext ≡ true) ↔ IsImage ext
is_image_iff ext = ground (
  arith,
  text_eq_iff ext (text "jpg"),
  text_eq_iff ext (text "jpeg"),
  text_eq_iff ext (text "png"),
  text_eq_iff ext (text "raw"),
)

-- An image has no underscore in its extension.
pub image-no_underscore : (ext : Text) → is_image (to_lower ext) ≡ true → contains b'_' ext ≡ false
unfolding contains
image-no_underscore ext h =
    sym (to_lower-underscore ext) ∙ known (to_lower ext) ((is_image_iff (to_lower ext)).0 h)
  where
    known : (e : Text) → IsImage e → contains b'_' e ≡ false
    known e (inl q) = subst (λ x. contains b'_' x ≡ false) (sym q) refl
    known e (inr (inl q)) = subst (λ x. contains b'_' x ≡ false) (sym q) refl
    known e (inr (inr (inl q))) = subst (λ x. contains b'_' x ≡ false) (sym q) refl
    known e (inr (inr (inr q))) = subst (λ x. contains b'_' x ≡ false) (sym q) refl

drop-behind : (s : Text) (c : ℕ) (t : Text) → drop (length s + 1) (s ++ c ∷ t) ≡ t
drop-behind [] c t = refl
drop-behind (b ∷ s) c t =
    ap (λ n. drop n ((b ∷ s) ++ c ∷ t))
      (let e : suc (length s) + 1 ≡ suc (length s + 1) = omega arith in e)
    ∙ drop-behind s c t

-- A name with a last dot that is not its first byte.
pub ext_of-name :
    (a : ℕ) (pre ext : Text)
    → contains b'.' ext ≡ false
    → ext_of ((a ∷ pre) ++ b'.' ∷ ext) ≡ to_lower ext
unfolding ext_of
ext_of-name a pre ext h =
    let whole = a ∷ pre in
    ap (ext_from (whole ++ b'.' ∷ ext)) (find_last_of-append b'.' whole ext h)
    ∙ ap to_lower (drop-behind whole b'.' ext)

pub stem-name :
    (a : ℕ) (pre ext : Text) → contains b'.' ext ≡ false → stem ((a ∷ pre) ++ b'.' ∷ ext) ≡ a ∷ pre
unfolding stem
stem-name a pre ext h =
    let whole = a ∷ pre in
    ap (stem_from (whole ++ b'.' ∷ ext)) (find_last_of-append b'.' whole ext h)
    ∙ take-append whole (b'.' ∷ ext)

pub split_stem-name :
    (camid idxs : Text)
    → contains b'_' idxs ≡ false
    → split_stem (camid ++ b'_' ∷ idxs) (find_last_of b'_' (camid ++ b'_' ∷ idxs))
      ≡ (if is_empty idxs then none else with_index camid (stoul idxs))
split_stem-name camid idxs h =
    ap (split_stem (camid ++ b'_' ∷ idxs)) (find_last_of-append b'_' camid idxs h)
    ∙ ap₂ (λ x c. if is_empty x then none else with_index c (stoul x)) (drop-behind camid b'_' idxs)
        (take-append camid (b'_' ∷ idxs))
