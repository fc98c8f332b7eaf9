-- ===== src/Capture/Stereo.antt =====
-- The layout of a stereo part, as a client takes it apart.
use sim_vision_sdk.Prelude.{
  ℕ, ◌+◌, ◌*◌, ◌^◌, ◌/◌, ◌%◌, ◌<◌, ◌≡◌, refl, ap, ap₂, ◌∙◌, Option, none, some, List, [], ◌∷◌, ◌++◌,
  arith, length, take, drop,
}
use sim_vision_sdk.Capture.{stereo_bytes}

-- The number of four bytes, lowest first, and what stands behind it.
abbrev pub split_stereo : List ℕ → Option (List ℕ × List ℕ)
split_stereo (a ∷ b ∷ c ∷ d ∷ rest) =
    let n = a + 256 * b + 65536 * c + 16777216 * d in some (take n rest, drop n rest)
split_stereo _ = none

take-append : (xs ys : List ℕ) → take (length xs) (xs ++ ys) ≡ xs
take-append [] ys = refl
take-append (x ∷ xs) ys = ap (◌∷◌ x) (take-append xs ys)

drop-append : (xs ys : List ℕ) → drop (length xs) (xs ++ ys) ≡ ys
drop-append [] ys = refl
drop-append (x ∷ xs) ys = drop-append xs ys

four_bytes :
    (n : ℕ)
    → n < 2 ^ 32
    → n % 2 ^ 32 % 256
        + 256 * (n % 2 ^ 32 / 256 % 256)
        + 65536 * (n % 2 ^ 32 / 65536 % 256)
        + 16777216 * (n % 2 ^ 32 / 16777216 % 256)
      ≡ n
four_bytes n lt = omega arith

-- From a stereo part whose left image is shorter than 2 ^ 32 bytes the two images can be read back.
pub split_stereo-stereo_bytes :
    (left right : List ℕ)
    → length left < 2 ^ 32
    → split_stereo (stereo_bytes left right) ≡ some (left, right)
unfolding stereo_bytes
split_stereo-stereo_bytes left right lt =
    ap (λ n. some (take n (left ++ right), drop n (left ++ right))) (four_bytes (length left) lt)
    ∙ ap₂ (λ xs ys. some (xs, ys)) (take-append left right) (drop-append left right)
