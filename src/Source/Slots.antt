-- ===== src/Source/Slots.antt =====
-- The slots that the loop over the directory fills.
use sim_vision_sdk.Prelude.{
  ℕ, suc, ◌<◌, ◌≤◌, ◌≡◌, refl, ◌∙◌, ap, Bool, false, ◌&&◌, Option, none, some, List, [], ◌∷◌, Text,
  if◌then◌else◌, arith, nat_eq,
}
use sim_vision_sdk.Source.Load.{File, Slot, place, put_side, update, add_file, collect}

abbrev pub slot_at : ℕ → List (ℕ × Slot) → Slot
slot_at i [] = ([], [])
slot_at i ((k, slot) ∷ more) = let rest = slot_at i more in if nat_eq k i then slot else rest

-- The keys rise, from `low` on.
abbrev pub Ascending : ℕ → List (ℕ × Slot) → Type 0
Ascending low [] = Unit {0}
Ascending low ((k, slot) ∷ more) = (low ≤ k) × Ascending (suc k) more

pub slot_at-below :
    (i low : ℕ) (slots : List (ℕ × Slot))
    → Ascending low slots
    → i < low
    → slot_at i slots ≡ ([], [])
slot_at-below i low [] a lt = refl
slot_at-below i low ((k, slot) ∷ more) a lt =
    ground (arith, a, slot_at-below i (suc k) more a.1 (omega (arith, a.0)))

update-Ascending :
    (low idx : ℕ) (f : Slot → Slot) (slots : List (ℕ × Slot))
    → low ≤ idx
    → Ascending low slots
    → Ascending low (update idx f slots)
update-Ascending low idx f [] le a = (le, tt)
update-Ascending low idx f ((k, slot) ∷ more) le a =
    ground (arith, a, le, update-Ascending (suc k) idx f more)

slot_at-update :
    (low idx i : ℕ) (f : Slot → Slot) (slots : List (ℕ × Slot))
    → Ascending low slots
    → slot_at i (update idx f slots)
      ≡ (if nat_eq idx i then f (slot_at i slots) else slot_at i slots)
slot_at-update low idx i f [] a = ground arith
slot_at-update low idx i f ((k, slot) ∷ more) a =
    ground (arith, a, slot_at-update (suc k) idx i f more a.1, slot_at-below i (suc k) more a.1)

-- Is this where the file is placed?
abbrev pub placed : ℕ → ℕ → Option (ℕ × ℕ) → Bool
placed i side none = false
placed i side (some (idx, s)) = nat_eq idx i && nat_eq s side

-- The path of the last entry with this index and side, or `path`.
abbrev pub latest : ℕ → ℕ → List File → Text → Text
latest i side [] path = path
latest i side (file ∷ more) path =
    latest i side more (if placed i side (place file) then file.path else path)

add_file-Ascending :
    (path : Text) (o : Option (ℕ × ℕ)) (slots : List (ℕ × Slot))
    → Ascending 0 slots
    → Ascending 0 (add_file path o slots)
add_file-Ascending path none slots a = a
add_file-Ascending path (some (idx, side)) slots a =
    update-Ascending 0 idx (put_side side path) slots (omega arith) a

slot_at-add_file :
    (i : ℕ) (path : Text) (o : Option (ℕ × ℕ)) (slots : List (ℕ × Slot))
    → Ascending 0 slots
    → slot_at i (add_file path o slots) ≡ (
      if placed i b'l' o then path else (slot_at i slots).0,
      if placed i b'r' o then path else (slot_at i slots).1,
    )
slot_at-add_file i path none slots a = refl
slot_at-add_file i path (some (idx, side)) slots a =
    ground (arith, slot_at-update 0 idx i (put_side side path) slots a)

pub slot_at-collect :
    (i : ℕ) (files : List File) (slots : List (ℕ × Slot))
    → Ascending 0 slots
    → (slot_at i (collect files slots)
        ≡ (latest i b'l' files (slot_at i slots).0, latest i b'r' files (slot_at i slots).1))
      × Ascending 0 (collect files slots)
unfolding collect
slot_at-collect i [] slots a = (refl, a)
slot_at-collect i (file ∷ more) slots a =
    let step = slot_at-add_file i file.path (place file) slots a in
    let next = add_file-Ascending file.path (place file) slots a in
    let (found, ascending) = slot_at-collect i more (add_file file.path (place file) slots) next in
    (
      found ∙ ap (λ (slot : Slot). (latest i b'l' more slot.0, latest i b'r' more slot.1)) step,
      ascending,
    )
