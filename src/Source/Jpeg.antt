-- ===== src/Source/Jpeg.antt =====
-- What `probe_image` says of a JPEG file.
use sim_vision_sdk.Prelude.{
  ℕ, zero, suc, ◌+◌, ◌*◌, ◌<◌, ◌≤◌, ◌≡◌, ◌≢◌, ◌⊎◌, nat_eq_iff, refl, sym, ap, ◌∙◌, true, false,
  some, List, [], ◌∷◌, ◌++◌, text, if◌then◌else◌, arith, length, get_elem?, ltb, nat_eq, lt→ltb,
  append_assoc, length-append,
}
use sim_vision_sdk.Prelude.Int.{pos}
use sim_vision_sdk.Source.{ImageInfo}
use sim_vision_sdk.Source.Read.{be16}
use sim_vision_sdk.Source.Probe.{
  Defaults, found, at, image, is_frame_marker, scan_step, jpeg_scan, begins, simraw_magic,
  jpeg_magic, probe_image,
}

-- A segment of the file: its marker, the two bytes of its length, and what follows them.
pub record Segment : Type 0 where
  pub marker : ℕ
  pub high : ℕ
  pub low : ℕ
  pub payload : List ℕ

-- The length counts its own two bytes, and the segment is no frame header.
pub record IsSkipped (s : Segment) : Type 0 where
  pub other : (s.marker ≢ 192) × (s.marker ≢ 194)
  pub size : s.high * 256 + s.low ≡ length s.payload + 2

abbrev pub bytes_of : Segment → List ℕ
bytes_of s = 255 ∷ (s.marker ∷ (s.high ∷ (s.low ∷ s.payload)))

abbrev pub all_bytes : List Segment → List ℕ
all_bytes [] = []
all_bytes (s ∷ more) = bytes_of s ++ all_bytes more

abbrev pub AllSkipped : List Segment → Type 0
AllSkipped [] = Unit {0}
AllSkipped (s ∷ more) = IsSkipped s × AllSkipped more

-- A frame header: its marker, length and precision, the bytes of the height and of the width, the components.
pub record Frame : Type 0 where
  pub marker : ℕ
  pub size_high : ℕ
  pub size_low : ℕ
  pub precision : ℕ
  pub height_high : ℕ
  pub height_low : ℕ
  pub width_high : ℕ
  pub width_low : ℕ
  pub components : ℕ

abbrev pub frame_bytes : Frame → List ℕ
frame_bytes f =
    255
    ∷ (f.marker
        ∷ (f.size_high
            ∷ (f.size_low
                ∷ (f.precision
                    ∷ (f.height_high
                        ∷ (f.height_low ∷ (f.width_high ∷ (f.width_low ∷ (f.components ∷ [])))))))))

abbrev pub frame_info : Frame → ImageInfo
frame_info f =
    image (text "JPG") true (pos f.components)
      (if nat_eq f.components 1 then text "Mono" else text "RGB")
      (pos (f.width_high * 256 + f.width_low)) (pos (f.height_high * 256 + f.height_low))

get_elem?-append :
    (pre s : List ℕ) (k i : ℕ) → i ≡ length pre + k → get_elem? (pre ++ s) i ≡ get_elem? s k
get_elem?-append [] s k i e = let e' : i ≡ k = omega (arith, e) in ap (get_elem? s) e'
get_elem?-append (b ∷ pre) s k zero e = absurd (omega (arith, e))
get_elem?-append (b ∷ pre) s k (suc i) e = get_elem?-append pre s k i (omega (arith, e))

be16-append :
    (pre s : List ℕ) (k i a b : ℕ)
    → i ≡ length pre + k
    → get_elem? s k ≡ some a
    → get_elem? s (suc k) ≡ some b
    → be16 (pre ++ s) i ≡ some (a * 256 + b)
be16-append pre s k i a b e ea eb =
    let first = get_elem?-append pre s k i e ∙ ea in
    let second = get_elem?-append pre s (suc k) (i + 1) (omega (arith, e)) ∙ eb in
    rw first (rw second refl)

-- A segment is skipped as a whole.
scan_step-skips :
    (pre rest : List ℕ) (s : Segment)
    → IsSkipped s
    → scan_step (pre ++ (bytes_of s ++ rest)) (length pre) ≡ some (at (length (pre ++ bytes_of s)))
unfolding scan_step
scan_step-skips pre rest s v =
    let buf = pre ++ (bytes_of s ++ rest) in
    let tail = bytes_of s ++ rest in
    let first : get_elem? buf (length pre) ≡ some 255 =
      get_elem?-append pre tail 0 (length pre) (omega arith) in
    let second : get_elem? buf (length pre + 1) ≡ some s.marker =
      get_elem?-append pre tail 1 (length pre + 1) refl in
    let seg : be16 buf (length pre + 2) ≡ some (s.high * 256 + s.low) =
      be16-append pre tail 2 (length pre + 2) s.high s.low refl refl refl in
    let next : length pre + (2 + (s.high * 256 + s.low)) ≡ length (pre ++ bytes_of s) =
      omega (arith, v.size, length-append pre (bytes_of s)) in
    let passed : is_frame_marker s.marker ≡ false =
      ground (arith, v.other, nat_eq_iff s.marker 192, nat_eq_iff s.marker 194) in
    rw first (rw second (rw passed (rw seg (ap (λ j. some (at j)) next))))

scan_step-finds :
    (pre rest : List ℕ) (f : Frame)
    → is_frame_marker f.marker ≡ true
    → scan_step (pre ++ (frame_bytes f ++ rest)) (length pre) ≡ some (found (frame_info f))
unfolding scan_step
scan_step-finds pre rest f v =
    let tail = frame_bytes f ++ rest in
    let buf = pre ++ tail in
    let n = length pre in
    let first : get_elem? buf n ≡ some 255 = get_elem?-append pre tail 0 n (omega arith) in
    let second : get_elem? buf (n + 1) ≡ some f.marker = get_elem?-append pre tail 1 (n + 1) refl in
    let inside : ltb (n + 9) (length buf) ≡ true =
      lt→ltb (n + 9) (length buf) (omega (arith, length-append pre tail)) in
    let height : be16 buf (n + 5) ≡ some (f.height_high * 256 + f.height_low) =
      be16-append pre tail 5 (n + 5) f.height_high f.height_low refl refl refl in
    let width : be16 buf (n + 7) ≡ some (f.width_high * 256 + f.width_low) =
      be16-append pre tail 7 (n + 7) f.width_high f.width_low refl refl refl in
    let comp : get_elem? buf (n + 9) ≡ some f.components =
      get_elem?-append pre tail 9 (n + 9) refl in
    rw first (rw second (rw v (rw inside (rw height (rw width (rw comp refl))))))

jpeg_scan-at :
    (fuel : ℕ) (buf : List ℕ) (i j : ℕ)
    → i + 3 < length buf
    → scan_step buf i ≡ some (at j)
    → jpeg_scan (suc fuel) buf i ≡ jpeg_scan fuel buf j
unfolding jpeg_scan
jpeg_scan-at fuel buf i j lt e = rw (lt→ltb (i + 3) (length buf) lt, jpeg_scan) (rw e refl)

jpeg_scan-found :
    (fuel : ℕ) (buf : List ℕ) (i : ℕ) (info : ImageInfo)
    → i + 3 < length buf
    → scan_step buf i ≡ some (found info)
    → jpeg_scan (suc fuel) buf i ≡ some (some info)
unfolding jpeg_scan
jpeg_scan-found fuel buf i info lt e = rw (lt→ltb (i + 3) (length buf) lt, jpeg_scan) (rw e refl)

jpeg_scan-finds :
    (fuel : ℕ) (pre : List ℕ) (segments : List Segment) (f : Frame) (rest : List ℕ)
    → length segments < fuel
    → AllSkipped segments
    → is_frame_marker f.marker ≡ true
    → jpeg_scan fuel (pre ++ (all_bytes segments ++ (frame_bytes f ++ rest))) (length pre)
      ≡ some (some (frame_info f))
jpeg_scan-finds zero pre segments f rest lt a v = absurd (omega arith)
jpeg_scan-finds (suc fuel) pre [] f rest lt a v =
    let tail = frame_bytes f ++ rest in
    jpeg_scan-found fuel (pre ++ tail) (length pre) (frame_info f)
      (omega (arith, length-append pre tail)) (scan_step-finds pre rest f v)
jpeg_scan-finds (suc fuel) pre (s ∷ more) f rest lt a v =
    let last = frame_bytes f ++ rest in
    let behind = all_bytes more ++ last in
    let buf = pre ++ (bytes_of s ++ behind) in
    let pre' = pre ++ bytes_of s in
    let long : length pre + 3 < length buf =
      omega (arith, length-append pre (bytes_of s ++ behind)) in
    let known : jpeg_scan fuel (pre' ++ behind) (length pre') ≡ some (some (frame_info f)) =
      jpeg_scan-finds fuel (pre ++ bytes_of s) more f rest (omega (arith, lt)) a.1 v in
    ap (λ b. jpeg_scan (suc fuel) (pre ++ b) (length pre))
      (append_assoc (bytes_of s) (all_bytes more) last)
    ∙ jpeg_scan-at fuel buf (length pre) (length pre') long (scan_step-skips pre behind s a.0)
    ∙ ap (λ b. jpeg_scan fuel b (length pre')) (sym (append_assoc pre (bytes_of s) behind))
    ∙ known

length-all_bytes : (segments : List Segment) → length segments ≤ length (all_bytes segments)
length-all_bytes [] = omega arith
length-all_bytes (s ∷ more) =
    omega (arith, length-append (bytes_of s) (all_bytes more), length-all_bytes more)

begins-no : (buf : List ℕ) → begins (255 ∷ buf) 24 simraw_magic ≡ some false
begins-no buf = ground arith

begins-yes :
    (tail : List ℕ) → 2 ≤ length tail → begins (jpeg_magic ++ tail) 4 jpeg_magic ≡ some true
begins-yes tail le = ground (arith, le)

-- If a file starts as a JPEG file does and has any segments that are neither SOF0 nor SOF2, with their right lengths,
-- before a SOF0 or SOF2 frame header, then `probe_image` says the size and the components of that header, whatever
-- follows.
pub probe_image-Frame :
    (segments : List Segment) (f : Frame) (rest : List ℕ) (d : Defaults)
    → AllSkipped segments
    → (f.marker ≡ 192) ⊎ (f.marker ≡ 194)
    → probe_image (jpeg_magic ++ (all_bytes segments ++ (frame_bytes f ++ rest))) d
      ≡ some (frame_info f)
unfolding probe_image
probe_image-Frame segments f rest d a v =
    let tail = all_bytes segments ++ (frame_bytes f ++ rest) in
    let buf = jpeg_magic ++ tail in
    let size : length tail ≡ length (all_bytes segments) + length (frame_bytes f ++ rest) =
      length-append (all_bytes segments) (frame_bytes f ++ rest) in
    let is_jpeg : begins buf 4 jpeg_magic ≡ some true = begins-yes tail (omega (arith, size)) in
    let enough : length segments < length buf = omega (arith, size, length-all_bytes segments) in
    let is_frame : is_frame_marker f.marker ≡ true =
      ground (arith, v, nat_eq_iff f.marker 192, nat_eq_iff f.marker 194) in
    rw (begins-no (216 ∷ tail)) (
      rw is_jpeg
        (rw (jpeg_scan-finds (length buf) jpeg_magic segments f rest enough a is_frame) refl))
