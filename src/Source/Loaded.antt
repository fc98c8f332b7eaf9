-- ===== src/Source/Loaded.antt =====
-- What `SimDataSource::load` loads.
use sim_vision_sdk.Prelude.{
  ℕ, suc, ◌≤◌, ◌≡◌, inl, inr, refl, sym, ◌∙◌, ap, true, false, ◌&&◌, Option, none, some, List, [],
  ◌∷◌, ◌++◌, Text, if◌then◌else◌, arith, nat_eq, Bool-cases, ℕ_discrete, subst,
}
use sim_vision_sdk.Source.{StereoPair, Source}
use sim_vision_sdk.Source.Bounds.{probe_image-Defined}
use sim_vision_sdk.Source.Probe.{Defaults, probe_image}
use sim_vision_sdk.Source.Load.{
  File, Slot, collect, is_empty, read_side, make_pair, load_pair, load_pairs, insert_pair, sort,
  defaults, load, entries,
}
use sim_vision_sdk.Source.Latest.{LastFrom, latest-LastFrom}
use sim_vision_sdk.Source.Slots.{slot_at, Ascending, slot_at-below, latest, slot_at-collect}

module _ (contents : Text → Option (List ℕ)) (d : Defaults) where
  -- The bytes of both sides that a slot stands for; a missing side is the other's copy.
  abbrev pub sides : Slot → Option (List ℕ × List ℕ)
  sides (l, r) =
      if is_empty l && is_empty r
      then none
      else if is_empty r
      then some (read_side contents d l, read_side contents d l)
      else if is_empty l
      then some (read_side contents d r, read_side contents d r)
      else some (read_side contents d l, read_side contents d r)

  -- What a pair says of its images is what `probe_image` says of their bytes.
  abbrev pub Probed : StereoPair → Type 0
  Probed p = (probe_image p.left d ≡ some p.left_info) × (probe_image p.right d ≡ some p.right_info)

  -- No pair, or the one pair of this slot.
  abbrev pub PairOf : ℕ → Slot → List StereoPair → Type 0
  PairOf idx slot [] = sides slot ≡ none
  PairOf idx slot (p ∷ []) = (p.pair_index ≡ idx) × (sides slot ≡ some (p.left, p.right)) × Probed p
  PairOf idx slot (p ∷ (q ∷ ps)) = ⊥

  load_pair_lem :
      (idx : ℕ) (slot : Slot)
      → (ps : List StereoPair) × (load_pair contents d idx slot ≡ some ps) × PairOf idx slot ps
  unfolding load_pair
  load_pair_lem idx (l, r) = elim (Bool-cases (is_empty l)) [
    | inl el ↦ elim (Bool-cases (is_empty r)) [
      | inl er ↦ ([], ground (arith, el, er), ground (arith, el, er))
      | inr er ↦
          let bytes = read_side contents d r in
          let (info, e) = probe_image-Defined bytes d in
          (
            make_pair contents d idx bytes bytes info info ∷ [],
            ground (arith, el, er, e),
            (refl, ground (arith, el, er), (e, e)),
          )
    ]
    | inr el ↦ elim (Bool-cases (is_empty r)) [
      | inl er ↦
          let bytes = read_side contents d l in
          let (info, e) = probe_image-Defined bytes d in
          (
            make_pair contents d idx bytes bytes info info ∷ [],
            ground (arith, el, er, e),
            (refl, ground (arith, el, er), (e, e)),
          )
      | inr er ↦
          let left = read_side contents d l in
          let right = read_side contents d r in
          let (info, e) = probe_image-Defined left d in
          let (info', e') = probe_image-Defined right d in
          (
            make_pair contents d idx left right info info' ∷ [],
            ground (arith, el, er, e, e'),
            (refl, ground (arith, el, er), (e, e')),
          )
    ]
  ]

  -- The indices rise, from `low` on, and every pair was probed.
  abbrev pub Rising : ℕ → List StereoPair → Type 0
  Rising low [] = Unit {0}
  Rising low (p ∷ ps) = (low ≤ p.pair_index) × Probed p × Rising (suc p.pair_index) ps

  -- The bytes of the pair with this index.
  abbrev pub bytes_at : ℕ → List StereoPair → Option (List ℕ × List ℕ)
  bytes_at i [] = none
  bytes_at i (p ∷ ps) =
      let rest = bytes_at i ps in if nat_eq p.pair_index i then some (p.left, p.right) else rest

  -- The pairs are those of the slots.
  abbrev pub PairsOf : ℕ → List (ℕ × Slot) → List StereoPair → Type 0
  PairsOf low slots ps = Rising low ps × ((i : ℕ) → bytes_at i ps ≡ sides (slot_at i slots))

  Rising-lower : (low low' : ℕ) (ps : List StereoPair) → low ≤ low' → Rising low' ps → Rising low ps
  Rising-lower low low' [] le r = tt
  Rising-lower low low' (p ∷ ps) le r = (omega (arith, r.0), r.1, r.2)

  append-PairsOf :
      (low k : ℕ) (slot : Slot) (more : List (ℕ × Slot)) (first rest : List StereoPair)
      → low ≤ k
      → Ascending (suc k) more
      → PairOf k slot first
      → PairsOf (suc k) more rest
      → PairsOf low ((k, slot) ∷ more) (first ++ rest)
  append-PairsOf low k slot more [] rest le a e (rising, bytes) = (
    Rising-lower low (suc k) rest (omega arith) rising,
    λ i. elim (ℕ_discrete k i) [
      | yes same ↦
          let below = slot_at-below i (suc k) more a (omega (arith, same)) in
          ground (arith, e, same, bytes i, below)
      | no other ↦ ground (arith, e, other, bytes i)
    ],
  )
  append-PairsOf low k slot more (p ∷ []) rest le a (index, e, probed) (rising, bytes) = (
    (omega (arith, index), probed, subst (λ n. Rising (suc n) rest) (sym index) rising),
    λ i. ground (arith, index, e, bytes i),
  )
  append-PairsOf low k slot more (p ∷ (q ∷ ps)) rest le a h (rising, bytes) = absurd h

  load_pairs_lem :
      (low : ℕ) (slots : List (ℕ × Slot))
      → Ascending low slots
      → (ps : List StereoPair) × (load_pairs contents d slots ≡ some ps) × PairsOf low slots ps
  unfolding load_pairs
  load_pairs_lem low [] a = ([], refl, (tt, λ i. refl))
  load_pairs_lem low ((k, slot) ∷ more) a =
      let (first, e, one) = load_pair_lem k slot in
      let (rest, e', others) = load_pairs_lem (suc k) more a.1 in
      (
        first ++ rest,
        rw (e, load_pairs) (rw (e', load_pairs) refl),
        append-PairsOf low k slot more first rest a.0 a.1 one others,
      )

  sort-Rising : (low : ℕ) (ps : List StereoPair) → Rising low ps → sort ps ≡ ps
  sort-Rising low [] r = refl
  sort-Rising low (p ∷ []) r = refl
  sort-Rising low (p ∷ (q ∷ ps)) r =
      let known = sort-Rising (suc p.pair_index) (q ∷ ps) r.2 in
      ap (insert_pair p) known ∙ ground (arith, r.2.0)

-- What a directory with these entries loads: at each index the two sides' bytes, which are those of the last entry
-- that counts for the side, or of the other side where it has none; in the order of the index, each once; and
-- of each image what `probe_image` says.
pub record IsLoaded (contents : Text → Option (List ℕ)) (files : List File) (s s' : Source)
    : Type 0 where
  pub rising : Rising contents (defaults s) 0 s'.pairs
  pub bytes :
      (i : ℕ)
      → (left : Text) × (right : Text) × LastFrom [] i b'l' files left
        × LastFrom [] i b'r' files right
        × (bytes_at contents (defaults s) i s'.pairs ≡ sides contents (defaults s) (left, right))
  pub cursor : s'.cursor ≡ s.cursor

-- If a directory is named and can be read, `load` succeeds: it reads inside the buffers only. It loads, for each index, the bytes
-- of the last entry that counts for each side, a missing side being the other's copy; an entry counts if it is a regular
-- file with the name of an image of the index and the side. The pairs are in the order of the index, each index
-- once; each has what `probe_image` says of its images; and the cursor stays.
pub load_lem :
    (contents : Text → Option (List ℕ)) (stereo_dir : Text) (files : List File) (s : Source)
    → is_empty stereo_dir ≡ false
    → (s' : Source) × (load contents stereo_dir (entries files) s ≡ some (true, [], s'))
      × IsLoaded contents files s s'
unfolding load
load_lem contents stereo_dir files s named =
    let (found, ascending) = slot_at-collect 0 files [] tt in
    let (ps, e, (rising, bytes)) =
      load_pairs_lem contents (defaults s) 0 (collect files []) ascending in
    let sorted = sort-Rising contents (defaults s) 0 ps rising in
    (
      record s { pairs = ps },
      rw (named, load) (rw (e, load) (rw sorted refl)),
      record {
        rising = rising;
        bytes = λ i. (
          latest i b'l' files [],
          latest i b'r' files [],
          latest-LastFrom i b'l' files [] (λ e. ground (arith, e)),
          latest-LastFrom i b'r' files [] (λ e. ground (arith, e)),
          bytes i ∙ ap (sides contents (defaults s)) ((slot_at-collect i files [] tt).0),
        );
        cursor = refl;
      },
    )
