-- ===== src/Source/Load.antt =====
-- datasource/SimDataSource.cpp: `load`. The directory's listing and the contents of its files are arguments.
use sim_vision_sdk.Prelude.{
  ℕ, zero, suc, ◌+◌, Bool, true, false, ◌&&◌, ◌||◌, Option, none, some, List, [], ◌∷◌, ◌++◌, Text,
  text, text_eq, to_lower, if◌then◌else◌, take, drop, ltb, nat_eq,
}
use sim_vision_sdk.Prelude.Search.{stoul}
use sim_vision_sdk.Source.{ImageInfo, StereoPair, Source}
use sim_vision_sdk.Source.Read.{◌>>=◌}
use sim_vision_sdk.Source.Probe.{Defaults, probe_image}

abbrev pub or_first : Bool → Option ℕ → Option ℕ
or_first b (some i) = some (suc i)
or_first b none = if b then some 0 else none

-- `s.find_last_of(c)`
unfoldable pub find_last_of : ℕ → Text → Option ℕ
find_last_of c [] = none
find_last_of c (b ∷ s) = or_first (nat_eq b c) (find_last_of c s)

abbrev pub ext_from : Text → Option ℕ → Text
ext_from name none = []
ext_from name (some i) = to_lower (drop (i + 1) name)

unfoldable pub ext_of : Text → Text
ext_of name = ext_from name (find_last_of b'.' name)

abbrev pub stem_from : Text → Option ℕ → Text
stem_from name none = name
stem_from name (some zero) = name
stem_from name (some (suc i)) = take (suc i) name

-- `std::filesystem::path::stem()`, of a file's name
unfoldable pub stem : Text → Text
stem name = stem_from name (find_last_of b'.' name)

abbrev pub is_image : Text → Bool
is_image ext =
    text_eq ext (text "jpg")
    || text_eq ext (text "jpeg")
    || text_eq ext (text "png")
    || text_eq ext (text "raw")

abbrev pub is_empty : Text → Bool
is_empty [] = true
is_empty (_ ∷ _) = false

-- An entry of the directory.
pub record File : Type 0 where
  pub is_regular_file : Bool
  pub filename : Text
  pub path : Text

abbrev pub first_or_space : Text → ℕ
first_or_space [] = b' '
first_or_space (c ∷ _) = c

abbrev pub with_index : Text → Option ℕ → Option (ℕ × ℕ)
with_index camid none = none
with_index camid (some idx) = some (idx, first_or_space (to_lower camid))

abbrev pub split_stem : Text → Option ℕ → Option (ℕ × ℕ)
split_stem name none = none
split_stem name (some us) =
    let idxs = drop (us + 1) name in
    if is_empty idxs then none else with_index (take us name) (stoul idxs)

-- The index and the side of an entry that is not skipped.
unfoldable pub place : File → Option (ℕ × ℕ)
place file =
    if file.is_regular_file && is_image (ext_of file.filename)
    then split_stem (stem file.filename) (find_last_of b'_' (stem file.filename))
    else none

-- the paths of the two sides
abbrev pub Slot : Type 0
Slot = Text × Text

abbrev pub put_side : ℕ → Text → Slot → Slot
put_side side path (left, right) =
    if nat_eq side b'l'
    then (path, right)
    else if nat_eq side b'r'
    then (left, path)
    else (left, right)

-- `by_index[idx]` of the ordered map, and the change of the slot
abbrev pub update : ℕ → (Slot → Slot) → List (ℕ × Slot) → List (ℕ × Slot)
update idx f [] = (idx, f ([], [])) ∷ []
update idx f ((k, slot) ∷ more) =
    let later = update idx f more in
    if nat_eq idx k
    then (k, f slot) ∷ more
    else if ltb idx k
    then (idx, f ([], [])) ∷ ((k, slot) ∷ more)
    else (k, slot) ∷ later

abbrev pub add_file : Text → Option (ℕ × ℕ) → List (ℕ × Slot) → List (ℕ × Slot)
add_file path none slots = slots
add_file path (some (idx, side)) slots = update idx (put_side side path) slots

-- The loop over the directory.
unfoldable pub collect : List File → List (ℕ × Slot) → List (ℕ × Slot)
collect [] slots = slots
collect (file ∷ more) slots = collect more (add_file file.path (place file) slots)

-- What `read_file` leaves in an empty buffer, of a file that may not be readable.
abbrev pub read_file : Option (List ℕ) → List ℕ
read_file none = []
read_file (some bytes) = bytes

module _ (contents : Text → Option (List ℕ)) (d : Defaults) where
  abbrev pub read_side : Text → List ℕ
  read_side path = if is_empty path then [] else read_file (contents path)

  abbrev pub make_pair : ℕ → List ℕ → List ℕ → ImageInfo → ImageInfo → StereoPair
  make_pair idx left right left_info right_info = record {
    pair_index = idx;
    left = left;
    right = right;
    left_info = left_info;
    right_info = right_info;
  }

  -- A missing side is the mirror of the other.
  abbrev pub mirrored : ℕ → List ℕ → Option (List StereoPair)
  mirrored idx bytes = do
    info ← probe_image bytes d
    some (make_pair idx bytes bytes info info ∷ [])

  abbrev pub both_sides : ℕ → List ℕ → List ℕ → Option (List StereoPair)
  both_sides idx left right = do
    left_info ← probe_image left d
    right_info ← probe_image right d
    some (make_pair idx left right left_info right_info ∷ [])

  -- One round of the second loop.
  unfoldable pub load_pair : ℕ → Slot → Option (List StereoPair)
  load_pair idx (left_path, right_path) =
      if is_empty left_path && is_empty right_path
      then some []
      else if is_empty right_path
      then mirrored idx (read_side left_path)
      else if is_empty left_path
      then mirrored idx (read_side right_path)
      else both_sides idx (read_side left_path) (read_side right_path)

  unfoldable pub load_pairs : List (ℕ × Slot) → Option (List StereoPair)
  load_pairs [] = some []
  load_pairs ((idx, slot) ∷ more) = do
    first ← load_pair idx slot
    rest ← load_pairs more
    some (first ++ rest)

abbrev pub insert_pair : StereoPair → List StereoPair → List StereoPair
insert_pair p [] = p ∷ []
insert_pair p (q ∷ ps) =
    let later = insert_pair p ps in
    if ltb q.pair_index p.pair_index then q ∷ later else p ∷ (q ∷ ps)

-- `std::sort` by the index
abbrev pub sort : List StereoPair → List StereoPair
sort [] = []
sort (p ∷ ps) = insert_pair p (sort ps)

abbrev pub defaults : Source → Defaults
defaults s = record { def_w = s.width; def_h = s.height; def_ch = s.channels }

abbrev pub Loaded : Type 0
Loaded = Option (Bool × Text × Source)

-- What the file system says of the directory: it does not exist, `fs::directory_iterator` or a test of an entry
-- throws, or it has these entries.
pub data Listing : Type 0 where
  missing : Listing
  unreadable : Listing
  entries : List File → Listing

abbrev pub load_listing : (Text → Option (List ℕ)) → Source → Listing → Loaded
load_listing contents s missing = some (true, [], s)
load_listing contents s unreadable = none
load_listing contents s (entries files) = do
  loaded ← load_pairs contents (defaults s) (collect files [])
  some (true, [], record s { pairs = sort loaded })

-- `load` with the directory's name and its listing. The result says whether the call succeeded, with the error's
-- text; `none` is an exception.
unfoldable pub load : (Text → Option (List ℕ)) → Text → Listing → Source → Loaded
load contents stereo_dir listing s =
    if is_empty stereo_dir
    then some (false, text "stereo_image_dir is empty", s)
    else load_listing contents s listing
