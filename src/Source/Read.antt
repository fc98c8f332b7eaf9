-- ===== src/Source/Read.antt =====
-- datasource/SimDataSource.cpp: the reads of a file's bytes, `be16`, `be32` and `le32`. A read outside the buffer is
-- the missing result.
use sim_vision_sdk.Prelude.{
  ℕ, zero, suc, ◌+◌, ◌*◌, ◌<◌, ◌≤◌, ◌≡◌, refl, Bool, true, false, Option, none, some, List, [], ◌∷◌,
  if◌then◌else◌, arith, length, get_elem?, nat_eq,
}

infixl 5 ◌>>=◌
abbrev pub ◌>>=◌ : {A B : Type 0} → Option A → (A → Option B) → Option B
none >>= f = none
some a >>= f = f a

-- There is a result.
abbrev pub Defined : {A : Type 0} → Option A → Type 0
Defined {A} o = (a : A) × (o ≡ some a)

pub bind-Defined :
    {A B : Type 0} (m : Option A) (f : A → Option B)
    → Defined m
    → ((a : A) → Defined (f a))
    → Defined (m >>= f)
bind-Defined none f (a, e) h = absurd (ground (arith, e))
bind-Defined (some a) f d h = h a

pub get_elem?-Defined :
    {A : Type 0} (xs : List A) (i : ℕ) → i < length xs → Defined (get_elem? xs i)
get_elem?-Defined [] i lt = absurd (omega arith)
get_elem?-Defined (x ∷ xs) zero lt = (x, refl)
get_elem?-Defined (x ∷ xs) (suc i) lt = get_elem?-Defined xs i (omega arith)

-- Whether the bytes at `i` are these; the comparison stops at the first that differs.
abbrev pub matches : List ℕ → ℕ → List ℕ → Option Bool
matches buf i [] = some true
matches buf i (c ∷ cs) = do
  b ← get_elem? buf i
  let rest = matches buf (i + 1) cs
  if nat_eq b c then rest else some false

abbrev pub be16 : List ℕ → ℕ → Option ℕ
be16 buf i = do a ← get_elem? buf i; b ← get_elem? buf (i + 1); some (a * 256 + b)

abbrev pub be32 : List ℕ → ℕ → Option ℕ
be32 buf i = do high ← be16 buf i; low ← be16 buf (i + 2); some (high * 65536 + low)

abbrev pub le32 : List ℕ → ℕ → Option ℕ
le32 buf i = do
  a ← get_elem? buf i
  b ← get_elem? buf (i + 1)
  c ← get_elem? buf (i + 2)
  d ← get_elem? buf (i + 3)
  some (a + b * 256 + c * 65536 + d * 16777216)

pub matches-Defined :
    (buf : List ℕ) (i : ℕ) (cs : List ℕ) → i + length cs ≤ length buf → Defined (matches buf i cs)
matches-Defined buf i [] le = (true, refl)
matches-Defined buf i (c ∷ cs) le =
    bind-Defined (get_elem? buf i) _ (get_elem?-Defined buf i (omega arith))
      (λ b. if-Defined (nat_eq b c) (matches-Defined buf (i + 1) cs (omega arith)))
  where
    if-Defined : (t : Bool) {o : Option Bool} → Defined o → Defined (if t then o else some false)
    if-Defined true d = d
    if-Defined false d = (false, refl)

pub be16-Defined : (buf : List ℕ) (i : ℕ) → i + 1 < length buf → Defined (be16 buf i)
be16-Defined buf i lt =
    let (a, first) = get_elem?-Defined buf i (omega arith) in
    let (b, second) = get_elem?-Defined buf (i + 1) lt in
    (a * 256 + b, rw (first) (rw (second) refl))

pub be32-Defined : (buf : List ℕ) (i : ℕ) → i + 3 < length buf → Defined (be32 buf i)
be32-Defined buf i lt = bind-Defined (be16 buf i) _ (be16-Defined buf i (omega arith)) (λ high.
    bind-Defined (be16 buf (i + 2)) _ (be16-Defined buf (i + 2) (omega arith))
      (λ low. (high * 65536 + low, refl)))

pub le32-Defined : (buf : List ℕ) (i : ℕ) → i + 3 < length buf → Defined (le32 buf i)
le32-Defined buf i lt =
    let (a, ea) = get_elem?-Defined buf i (omega arith) in
    let (b, eb) = get_elem?-Defined buf (i + 1) (omega arith) in
    let (c, ec) = get_elem?-Defined buf (i + 2) (omega arith) in
    let (d, ed) = get_elem?-Defined buf (i + 3) lt in
    (a + b * 256 + c * 65536 + d * 16777216, rw ea (rw eb (rw ec (rw ed refl))))
