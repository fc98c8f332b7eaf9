-- ===== src/Source/Bounds.antt =====
-- The reads of `probe_image` stay inside the buffer, and its loop ends.
use sim_vision_sdk.Prelude.{
  ℕ, zero, suc, ◌+◌, ◌<◌, ◌≤◌, ◌≡◌, inl, inr, refl, Bool, true, false, ◌&&◌, ◌||◌, Option, none,
  some, List, text, if◌then◌else◌, arith, length, ltb, nat_eq, dec_lt, Bool-cases, lt→ltb,
}
use sim_vision_sdk.Source.{ImageInfo}
use sim_vision_sdk.Source.Read.{
  ◌>>=◌, Defined, bind-Defined, get_elem?-Defined, be32, le32, matches-Defined, be16-Defined,
  be32-Defined, le32-Defined,
}
use sim_vision_sdk.Source.Probe.{
  Defaults, raw_header, Scan, frame_header, skip_segment, is_frame_marker, at_marker, scan_step,
  jpeg_scan, default_jpeg, jpeg_header, colour_byte, png_header, tiff_info, raw_info, begins,
  simraw_magic, jpeg_magic, png_magic, probe_tiff, probe_png, probe_jpeg, probe_image, found, at,
}

-- A round has a result, and it moves on.
abbrev pub Advances : ℕ → Option Scan → Type 0
Advances i none = ⊥
Advances i (some (found info)) = Unit {0}
Advances i (some (at j)) = i < j

frame_header-Advances :
    (buf : List ℕ) (i : ℕ) → i + 9 < length buf → Advances i (frame_header buf i)
frame_header-Advances buf i lt =
    let (h, eh) = be16-Defined buf (i + 5) (omega arith) in
    let (w, ew) = be16-Defined buf (i + 7) (omega arith) in
    let (c, ec) = get_elem?-Defined buf (i + 9) lt in rw eh (rw ew (rw ec tt))

skip_segment-Advances :
    (buf : List ℕ) (i : ℕ) → i + 3 < length buf → Advances i (skip_segment buf i)
skip_segment-Advances buf i lt =
    let (seg, e) = be16-Defined buf (i + 2) (omega arith) in rw e (omega arith)

at_marker-Advances : (buf : List ℕ) (i : ℕ) → i + 3 < length buf → Advances i (at_marker buf i)
at_marker-Advances buf i lt =
    let (marker, e) = get_elem?-Defined buf (i + 1) (omega arith) in
    rw e (elim (Bool-cases (is_frame_marker marker && ltb (i + 9) (length buf))) [
      | inl t ↦ rw t (frame_header-Advances buf i (ground (arith, t)))
      | inr t ↦ rw t (skip_segment-Advances buf i lt)
    ])

scan_step-Advances : (buf : List ℕ) (i : ℕ) → i + 3 < length buf → Advances i (scan_step buf i)
unfolding scan_step
scan_step-Advances buf i lt =
    let (b, e) = get_elem?-Defined buf i (omega arith) in
    rw e (elim (Bool-cases (nat_eq b 255)) [
      | inl t ↦ rw t (at_marker-Advances buf i lt)
      | inr t ↦ rw t (omega arith)
    ])

-- The loop, once the round has a result.
next-Defined :
    (fuel : ℕ) (buf : List ℕ) (i : ℕ) (o : Option Scan)
    → Advances i o
    → ((j : ℕ) → i < j → Defined (jpeg_scan fuel buf j))
    → Defined {A = Option ImageInfo} (elim o [
      | none ↦ none
      | some (found info) ↦ some (some info)
      | some (at j) ↦ jpeg_scan fuel buf j
    ])
next-Defined fuel buf i none a h = absurd a
next-Defined fuel buf i (some (found info)) a h = (some info, refl)
next-Defined fuel buf i (some (at j)) a h = h j a

jpeg_scan-Defined :
    (fuel : ℕ) (buf : List ℕ) (i : ℕ)
    → 0 < fuel
    → length buf < fuel + i + 3
    → Defined (jpeg_scan fuel buf i)
unfolding jpeg_scan
jpeg_scan-Defined zero buf i some_fuel enough = absurd (omega arith)
jpeg_scan-Defined (suc fuel) buf i some_fuel enough = elim (dec_lt (i + 3) (length buf)) [
  | no p ↦ (none, ground (arith, p))
  | yes p ↦
      rw (lt→ltb (i + 3) (length buf) p, jpeg_scan)
        (next-Defined fuel buf i (scan_step buf i) (scan_step-Advances buf i p)
          (λ j lt. jpeg_scan-Defined fuel buf j (omega arith) (omega arith)))
]

raw_header-Defined : (buf : List ℕ) → 24 ≤ length buf → Defined (raw_header buf)
raw_header-Defined buf le =
    let (w, ew) = le32-Defined buf 16 (omega arith) in
    let (h, eh) = le32-Defined buf 20 (omega arith) in
    bind-Defined (le32 buf 16) _ (w, ew)
      (λ w. bind-Defined (le32 buf 20) _ (h, eh) (λ h. (_, refl)))

colour_byte-Defined : (buf : List ℕ) → Defined (colour_byte buf)
colour_byte-Defined buf = elim (dec_lt 25 (length buf)) [
  | yes p ↦ rw (lt→ltb 25 (length buf) p) (get_elem?-Defined buf 25 p)
  | no p ↦ (6, ground (arith, p))
]

png_header-Defined : (buf : List ℕ) → 24 ≤ length buf → Defined (png_header buf)
png_header-Defined buf le = bind-Defined (be32 buf 16) _ (be32-Defined buf 16 (omega arith)) (λ w.
    bind-Defined (be32 buf 20) _ (be32-Defined buf 20 (omega arith))
      (λ h. bind-Defined (colour_byte buf) _ (colour_byte-Defined buf) (λ c. (_, refl))))

jpeg_header-Defined : (buf : List ℕ) (d : Defaults) → 4 ≤ length buf → Defined (jpeg_header buf d)
jpeg_header-Defined buf d le =
    bind-Defined (jpeg_scan (length buf) buf 2) _
      (jpeg_scan-Defined (length buf) buf 2 (omega arith) (omega arith))
      (λ info. (default_jpeg d info, refl))

-- A test for a magic number, and what follows when the buffer is long enough, or when the test failed.
begins-Defined :
    {A : Type 0} (buf : List ℕ) (least : ℕ) (cs : List ℕ) (f : Bool → Option A)
    → length cs ≤ least
    → (least ≤ length buf → Defined (f true))
    → Defined (f false)
    → Defined (begins buf least cs >>= f)
begins-Defined buf least cs f le yes_case no_case = elim (dec_lt (length buf) least) [
  | yes p ↦ rw (lt→ltb (length buf) least p) no_case
  | no p ↦
      let (b, e) = matches-Defined buf 0 cs (omega arith) in
      let long : ltb (length buf) least ≡ false = ground (arith, p) in
      rw long
        (rw e (elim b as (λ b. Defined (f b)) [ true ↦ yes_case (omega arith) | false ↦ no_case ]))
]

probe_tiff-Defined : (buf : List ℕ) (d : Defaults) → Defined (probe_tiff buf d)
probe_tiff-Defined buf d =
    begins-Defined buf 4 (text "II") _ (omega arith) (λ le. big true) (big false)
  where
    big :
        (little : Bool)
        → Defined {A = ImageInfo} (do
          big ← begins buf 4 (text "MM")
          some (if little || big then tiff_info d else raw_info d))
    big little = begins-Defined buf 4 (text "MM") _ (omega arith) (λ le. (_, refl)) (_, refl)

probe_png-Defined : (buf : List ℕ) (d : Defaults) → Defined (probe_png buf d)
probe_png-Defined buf d =
    begins-Defined buf 24 png_magic _ (omega arith) (png_header-Defined buf)
      (probe_tiff-Defined buf d)

probe_jpeg-Defined : (buf : List ℕ) (d : Defaults) → Defined (probe_jpeg buf d)
probe_jpeg-Defined buf d =
    begins-Defined buf 4 jpeg_magic _ (omega arith) (jpeg_header-Defined buf d)
      (probe_png-Defined buf d)

-- Whatever a file holds, `probe_image` reads inside the buffer only, and its loop ends.
pub probe_image-Defined : (buf : List ℕ) (d : Defaults) → Defined (probe_image buf d)
unfolding probe_image
probe_image-Defined buf d =
    begins-Defined buf 24 simraw_magic _ (omega arith) (raw_header-Defined buf)
      (probe_jpeg-Defined buf d)
