-- ===== src/Source/Probe.antt =====
-- datasource/SimDataSource.cpp: `probe_image`.
use sim_vision_sdk.Prelude.{
  ℕ, zero, suc, ◌+◌, Bool, true, false, ◌&&◌, ◌||◌, Option, none, some, List, [], ◌∷◌, Text, text,
  if◌then◌else◌, length, get_elem?, ltb, nat_eq,
}
use sim_vision_sdk.Prelude.Int.{ℤ, pos, negsuc, to_int}
use sim_vision_sdk.Source.{ImageInfo}
use sim_vision_sdk.Source.Read.{◌>>=◌, matches, be16, be32, le32}

-- `cfg` defaults
pub record Defaults : Type 0 where
  pub def_w : ℤ
  pub def_h : ℤ
  pub def_ch : ℤ

-- `def_ch > 0 ? def_ch : n`
abbrev pub channels_or : ℤ → ℕ → ℤ
channels_or (pos zero) n = pos n
channels_or (pos (suc k)) n = pos (suc k)
channels_or (negsuc k) n = pos n

abbrev pub is_int : ℤ → ℕ → Bool
is_int (pos k) n = nat_eq k n
is_int (negsuc k) n = false

abbrev pub image : Text → Bool → ℤ → Text → ℤ → ℤ → ImageInfo
image format is_encoded channels code width height = record {
  format = format;
  is_encoded = is_encoded;
  channels = channels;
  width = width;
  height = height;
  code = code;
}

abbrev pub raw_header : List ℕ → Option ImageInfo
raw_header buf = do
  width ← le32 buf 16
  height ← le32 buf 20
  some (image (text "raw_u8") false (pos 3) (text "RGB") (to_int (pos width)) (to_int (pos height)))

-- What one round of the loop over the markers does: the frame header was found, or the loop goes on at `i`.
pub data Scan : Type 0 where
  found : ImageInfo → Scan
  at : ℕ → Scan

abbrev pub frame_header : List ℕ → ℕ → Option Scan
frame_header buf i = do
  height ← be16 buf (i + 5)
  width ← be16 buf (i + 7)
  comp ← get_elem? buf (i + 9)
  let code = if nat_eq comp 1 then text "Mono" else text "RGB"
  some (found (image (text "JPG") true (pos comp) code (pos width) (pos height)))

abbrev pub skip_segment : List ℕ → ℕ → Option Scan
skip_segment buf i = do seg ← be16 buf (i + 2); some (at (i + (2 + seg)))

abbrev pub is_frame_marker : ℕ → Bool
is_frame_marker marker = nat_eq marker 192 || nat_eq marker 194

-- The test `i + 3 < n` before the skip is the loop's own.
abbrev pub at_marker : List ℕ → ℕ → Option Scan
at_marker buf i = do
  marker ← get_elem? buf (i + 1)
  if is_frame_marker marker && ltb (i + 9) (length buf)
      then frame_header buf i
      else skip_segment buf i

unfoldable pub scan_step : List ℕ → ℕ → Option Scan
scan_step buf i = do
  b ← get_elem? buf i
  if nat_eq b 255 then at_marker buf i else some (at (i + 1))

-- The loop; `some none` when it ends with no frame header.
unfoldable pub jpeg_scan : ℕ → List ℕ → ℕ → Option (Option ImageInfo)
jpeg_scan zero buf i = none
jpeg_scan (suc fuel) buf i = elim (ltb (i + 3) (length buf)) [
  | false ↦ some none
  | true ↦ elim (scan_step buf i) [
    | none ↦ none
    | some (found info) ↦ some (some info)
    | some (at j) ↦ jpeg_scan fuel buf j
  ]
]

abbrev pub default_jpeg : Defaults → Option ImageInfo → ImageInfo
default_jpeg d (some info) = info
default_jpeg d none =
    let channels = channels_or d.def_ch 3 in
    let code = if is_int channels 1 then text "Mono" else text "RGB" in
    image (text "JPG") true channels code d.def_w d.def_h

abbrev pub jpeg_header : List ℕ → Defaults → Option ImageInfo
jpeg_header buf d = do info ← jpeg_scan (length buf) buf 2; some (default_jpeg d info)

-- the number of channels and the name, by the colour type
abbrev pub png_colour : ℕ → ℕ × Text
png_colour colour_type =
    if nat_eq colour_type 0
    then (1, text "Mono")
    else if nat_eq colour_type 2
    then (3, text "RGB")
    else if nat_eq colour_type 3
    then (1, text "Mono")
    else if nat_eq colour_type 4
    then (2, text "GRAYA")
    else (4, text "RGBA")

abbrev pub colour_byte : List ℕ → Option ℕ
colour_byte buf = if ltb 25 (length buf) then get_elem? buf 25 else some 6

abbrev pub png_header : List ℕ → Option ImageInfo
png_header buf = do
  width ← be32 buf 16
  height ← be32 buf 20
  colour_type ← colour_byte buf
  let (channels, code) = png_colour colour_type
  some (image (text "PNG") true (pos channels) code (to_int (pos width)) (to_int (pos height)))

abbrev pub tiff_info : Defaults → ImageInfo
tiff_info d = image (text "TIFF") true (channels_or d.def_ch 3) (text "RGB") d.def_w d.def_h

abbrev pub raw_info : Defaults → ImageInfo
raw_info d =
    let channels = channels_or d.def_ch 4 in
    let code = if is_int channels 4 then text "BGRA" else text "RGB" in
    image (text "raw_u8") false channels code d.def_w d.def_h

-- `n >= least`, and then the bytes at 0 are these
abbrev pub begins : List ℕ → ℕ → List ℕ → Option Bool
begins buf least cs = if ltb (length buf) least then some false else matches buf 0 cs

abbrev pub simraw_magic : List ℕ
simraw_magic = text "SIMR"

abbrev pub jpeg_magic : List ℕ
jpeg_magic = 255 ∷ 216 ∷ []

abbrev pub png_magic : List ℕ
png_magic = 137 ∷ b'P' ∷ b'N' ∷ b'G' ∷ 13 ∷ 10 ∷ 26 ∷ 10 ∷ []

abbrev pub probe_tiff : List ℕ → Defaults → Option ImageInfo
probe_tiff buf d = do
  little ← begins buf 4 (text "II")
  big ← begins buf 4 (text "MM")
  some (if little || big then tiff_info d else raw_info d)

abbrev pub probe_png : List ℕ → Defaults → Option ImageInfo
probe_png buf d = do
  is_png ← begins buf 24 png_magic
  if is_png then png_header buf else probe_tiff buf d

abbrev pub probe_jpeg : List ℕ → Defaults → Option ImageInfo
probe_jpeg buf d = do
  is_jpeg ← begins buf 4 jpeg_magic
  if is_jpeg then jpeg_header buf d else probe_png buf d

-- The extension is not used.
unfoldable pub probe_image : List ℕ → Defaults → Option ImageInfo
probe_image buf d = do
  is_simraw ← begins buf 24 simraw_magic
  if is_simraw then raw_header buf else probe_jpeg buf d
