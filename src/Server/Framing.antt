-- ===== src/Server/Framing.antt =====
-- The answer that `handle_connection` writes, read back by the rules of `parse_request_line`.
use sim_vision_sdk.Prelude.{
  ℕ, zero, suc, ◌+◌, ◌-◌, ◌^◌, ◌≤◌, ◌<◌, ◌≡◌, refl, sym, ap, ap₂, ◌∙◌, false, some, [], ◌∷◌, ◌++◌,
  Text, text, to_lower, arith, length, take, drop, lower_byte, ltb, if◌then◌else◌, length-append,
}
use sim_vision_sdk.Prelude.Search.{shift, find, find_from, to_string, stoul}
use sim_vision_sdk.Prelude.Decimal.{to_string-Numeral, stoul-to_string, to_lower-digits}
use sim_vision_sdk.Response.{Code}
use sim_vision_sdk.Server.Reading.{crlf, end_of_headers}
use sim_vision_sdk.Server.Parsed.{take-append, drop-append}
use sim_vision_sdk.Server.Request.{parse_request_line, length_at, value_at, or_zero, or_size}
use sim_vision_sdk.Server.Connection.{http_text, body_part}
use sim_vision_sdk.Server.Written.{
  Numeral-AllDigits, trailer, find-digits, status_text, line_and_type, found, http_text_lem, Found,
}

trailer_end : (body_json : Text) → find end_of_headers (trailer body_json) ≡ some 19
unfolding find
trailer_end body_json = refl

trailer_line : (body_json : Text) → find crlf (to_lower (trailer body_json)) ≡ some 0
unfolding find to_lower
trailer_line body_json = refl

to_lower-append : (s t : Text) → to_lower (s ++ t) ≡ to_lower s ++ to_lower t
unfolding to_lower
to_lower-append [] t = refl
to_lower-append (c ∷ s) t = ap (◌∷◌ (lower_byte c)) (to_lower-append s t)

-- The first end of a line behind the header's name.
name_skipped :
    (s : Text) {k : ℕ}
    → find crlf s ≡ some k
    → find crlf (text "content-length: " ++ s) ≡ some (16 + k)
unfolding find
name_skipped s e = rw e (ap some (omega arith))

-- The length is read back.
length_lem :
    (status body_json : Text) (n : ℕ)
    → Found (to_string n ++ trailer body_json) status
    → n < 2 ^ 64
    → let lower = to_lower (line_and_type status (to_string n ++ trailer body_json)) in
      length_at lower (find (text "content-length:") lower) ≡ n
length_lem status body_json n f lt =
    let number = to_string n in
    let rest = number ++ trailer body_json in
    let lower = to_lower (line_and_type status rest) in
    let all = Numeral-AllDigits number (to_string-Numeral n) in
    let tail = to_lower (trailer body_json) in
    let small : to_lower rest ≡ number ++ tail =
      to_lower-append number (trailer body_json)
      ∙ ap (λ s. s ++ tail) (to_lower-digits number all) in
    let eol : find crlf (to_lower rest) ≡ some (length number + 0) =
      ap (find crlf) small ∙ find-digits (10 ∷ []) number tail all (trailer_line body_json) in
    let line : find_from crlf lower 49 ≡ some (49 + (16 + (length number + 0))) =
      ap (λ s. shift 49 (find crlf s)) f.from_name
      ∙ ap (shift 49) (name_skipped (to_lower rest) eol) in
    let width : 49 + (16 + (length number + 0)) - (49 + 15) ≡ suc (length number) = omega arith in
    let value : value_at lower 49 (find_from crlf lower 49) ≡ b' ' ∷ number =
      ap (value_at lower 49) line
      ∙ ap₂ take width f.behind_name
      ∙ ap (λ s. take (suc (length number)) (b' ' ∷ s)) small
      ∙ ap (◌∷◌ b' ') (take-append number tail) in
    ap (length_at lower) f.named
    ∙ ap (λ s. or_zero (stoul s)) value
    ∙ ap or_zero (stoul-to_string n lt)

abbrev no_bytes : Text
no_bytes = []

drop-nil : (n : ℕ) → drop n no_bytes ≡ no_bytes
drop-nil zero = refl
drop-nil (suc n) = refl

drop-drop : (n m : ℕ) (s : Text) → drop (n + m) s ≡ drop m (drop n s)
drop-drop zero m s = let e : 0 + m ≡ m = omega arith in ap (λ k. drop k s) e
drop-drop (suc n) m [] = drop-nil (suc n + m) ∙ sym (drop-nil m)
drop-drop (suc n) m (c ∷ s) =
    let e : suc n + m ≡ suc (n + m) = omega arith in ap (λ k. drop k (c ∷ s)) e ∙ drop-drop n m s

ltb-false : (a b : ℕ) → b ≤ a → ltb a b ≡ false
ltb-false a b h = ground arith

-- The body is what is left.
body_lem :
    (status body_json : Text) (n : ℕ)
    → Found (to_string n ++ trailer body_json) status
    → let http = line_and_type status (to_string n ++ trailer body_json) in
      body_part http (or_size http (find end_of_headers http)) ≡ body_json
body_lem status body_json n f =
    let number = to_string n in
    let rest = number ++ trailer body_json in
    let http = line_and_type status rest in
    let all = Numeral-AllDigits number (to_string-Numeral n) in
    let ended =
      f.ended
        (find-digits (10 ∷ 13 ∷ 10 ∷ []) number (trailer body_json) all (trailer_end body_json)) in
    let size : length rest ≡ length number + (23 + length body_json) =
      omega (arith, length-append number (trailer body_json)) in
    let at : ℕ = 65 + (length number + 19) in
    let fits : ltb (length http) (at + 4) ≡ false =
      ltb-false (length http) (at + 4) (omega (arith, f.long, size)) in
    let sum : at + 4 ≡ 65 + (length number + 23) = omega arith in
    let dropped : drop (at + 4) http ≡ body_json =
      ap (λ k. drop k http) sum
      ∙ drop-drop 65 (length number + 23) http
      ∙ ap (drop (length number + 23)) f.behind
      ∙ drop-drop (length number) 23 rest
      ∙ ap (drop 23) (drop-append number (trailer body_json)) in
    ap (λ o. body_part http (or_size http o)) ended
    ∙ ap (λ t. if t then [] else drop (at + 4) http) fits
    ∙ dropped

-- Whoever reads the answer by the server's own rules for requests finds the length of the JSON text in
-- `Content-Length` and the JSON text behind the headers, if that length fits `size_t`.
pub http_text-parse_request_line :
    (code : Code) (body_json : Text)
    → length body_json < 2 ^ 64
    → let http = http_text code body_json in
      let r = parse_request_line http in
      (r.content_length ≡ length body_json) × (body_part http r.header_end ≡ body_json)
unfolding parse_request_line
http_text-parse_request_line code body_json lt =
    let f = found (to_string (length body_json) ++ trailer body_json) code in
    let whole = http_text_lem code body_json in
    (
      ap (λ http. length_at (to_lower http) (find (text "content-length:") (to_lower http))) whole
          ∙ length_lem (status_text code) body_json (length body_json) f lt,
      ap (λ http. body_part http (or_size http (find end_of_headers http))) whole
          ∙ body_lem (status_text code) body_json (length body_json) f,
    )
