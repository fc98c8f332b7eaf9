-- ===== src/Source.antt =====
-- datasource/SimDataSource.h and datasource/SimDataSource.cpp: the loaded stereo pairs.
pub mod Read
pub mod Probe
pub mod Bounds
pub mod Load
pub mod Placed
pub mod Latest
pub mod Slots
pub mod Loaded
pub mod Jpeg
pub mod Generate
pub mod Sensors
pub mod Names
use sim_vision_sdk.Prelude.{
  ℕ, zero, suc, ◌%◌, ◌≡◌, ◌<◌, ◌⊎◌, inl, inr, refl, ap, arith, Bool, true, false, if◌then◌else◌,
  Option, none, some, List, [], ◌∷◌, Text, text, length, get_elem?,
}
use sim_vision_sdk.Prelude.Int.{ℤ, pos}
use sim_vision_sdk.Queue.{inc}

-- `SimDataSource::version_tag()`
abbrev pub version_tag : Text
version_tag = text "SimVisionSDK/1.0"

pub record ImageInfo : Type 0 where
  pub format : Text
  pub is_encoded : Bool
  pub channels : ℤ
  pub width : ℤ
  pub height : ℤ
  pub code : Text

pub record StereoPair : Type 0 where
  pub pair_index : ℕ
  pub left : List ℕ
  pub right : List ℕ
  pub left_info : ImageInfo
  pub right_info : ImageInfo

-- `SimDataSource`
pub record Source : Type 0 where
  pub pairs : List StereoPair
  pub cursor : ℕ
  pub width : ℤ
  pub height : ℤ
  pub channels : ℤ

-- the initial values of the members
abbrev pub no_source : Source
no_source = record { pairs = []; cursor = 0; width = pos 1280; height = pos 720; channels = pos 4 }

unfoldable pub set_image_size : ℤ → ℤ → Source → Source
set_image_size w h s = record s { width = w; height = h }

unfoldable pub set_image_channels : ℤ → Source → Source
set_image_channels c s = record s { channels = c }

unfoldable pub pair_count : Source → ℕ
pair_count s = length s.pairs

abbrev no_pairs : List StereoPair → Bool
no_pairs [] = true
no_pairs (_ ∷ _) = false

abbrev advance : Source → Option StereoPair → Option (StereoPair × Source)
advance s none = none
advance s (some pair) = some (pair, record s { cursor = inc s.cursor })

-- `next_stereo`: `none` when no pair is loaded.
unfoldable pub next_stereo : Source → Option (StereoPair × Source)
next_stereo s =
    if no_pairs s.pairs then none else advance s (get_elem? s.pairs (s.cursor % length s.pairs))

get_elem?-lt :
    {A : Type 0} (xs : List A) (i : ℕ) → i < length xs → (x : A) × (get_elem? xs i ≡ some x)
get_elem?-lt [] i lt = absurd (omega arith)
get_elem?-lt (x ∷ xs) zero lt = (x, refl)
get_elem?-lt (x ∷ xs) (suc i) lt = get_elem?-lt xs i (omega arith)

-- `next_stereo` fails exactly when no pair is loaded, and else takes the pair that the cursor names, round and
-- round, and moves the cursor on.
pub next_stereo_lem :
    (s : Source)
    → ((s.pairs ≡ []) × (next_stereo s ≡ none))
      ⊎ ((pair : StereoPair) × (get_elem? s.pairs (s.cursor % length s.pairs) ≡ some pair)
          × (next_stereo s ≡ some (pair, record s { cursor = inc s.cursor })))
unfolding next_stereo
next_stereo_lem s = by_pairs s.pairs refl
  where
    by_pairs :
        (ps : List StereoPair)
        → s.pairs ≡ ps
        → ((s.pairs ≡ []) × (next_stereo s ≡ none))
          ⊎ ((pair : StereoPair) × (get_elem? s.pairs (s.cursor % length s.pairs) ≡ some pair)
              × (next_stereo s ≡ some (pair, record s { cursor = inc s.cursor })))
    by_pairs [] e = inl (e, ground (arith, e))
    by_pairs (p ∷ ps) e =
        let (pair, found) =
          get_elem?-lt s.pairs (s.cursor % length s.pairs) (omega (arith, ap length e)) in
        inr (pair, found, rw (found, next_stereo) (ground (arith, e)))
