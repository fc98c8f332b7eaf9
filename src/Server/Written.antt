-- ===== src/Server/Written.antt =====
-- api/AdminServer.cpp: the parts of the text that `http_text` writes.
use sim_vision_sdk.Prelude.{
  ℕ, suc, ◌+◌, ◌≡◌, refl, ap, Option, none, some, [], ◌∷◌, ◌++◌, Text, text, to_lower, arith,
  length, drop,
}
use sim_vision_sdk.Prelude.Search.{shift, find, to_string}
use sim_vision_sdk.Prelude.Decimal.{AllDigits, Numeral}
use sim_vision_sdk.Response.{
  Code, success, error, not_ready, already_init, invalid_param, unavailable, http_status,
}
use sim_vision_sdk.Server.Reading.{crlf, end_of_headers}
use sim_vision_sdk.Server.Connection.{http_text}

pub Numeral-AllDigits : (s : Text) → Numeral s → AllDigits s
Numeral-AllDigits [] a = tt
Numeral-AllDigits (c ∷ s) a = a

-- Behind the length.
abbrev pub trailer : Text → Text
trailer body_json = crlf ++ (text "Connection: close" ++ (crlf ++ (crlf ++ body_json)))

shift-suc : (n : ℕ) (o : Option ℕ) → shift 1 (shift n o) ≡ shift (suc n) o
shift-suc n none = refl
shift-suc n (some i) = ground arith

-- No digit starts what is searched.
pub find-digits :
    (p s t : Text) {m : ℕ}
    → AllDigits s
    → find (b'\r' ∷ p) t ≡ some m
    → find (b'\r' ∷ p) (s ++ t) ≡ some (length s + m)
unfolding find
find-digits p [] t a e = ground (arith, e)
find-digits p (c ∷ s) t a e = ground (arith, a.0, find-digits p s t a.2 e)

pub status_text : Code → Text
status_text success = text "200"
status_text already_init = text "200"
status_text error = text "500"
status_text not_ready = text "400"
status_text invalid_param = text "400"
status_text unavailable = text "404"

status_lem : (code : Code) → to_string (http_status code) ≡ status_text code
unfolding to_string http_status status_text
status_lem success = refl
status_lem already_init = refl
status_lem error = refl
status_lem not_ready = refl
status_lem invalid_param = refl
status_lem unavailable = refl

status_case :
    (P : Text → Type 0)
    → P (text "200")
    → P (text "400")
    → P (text "404")
    → P (text "500")
    → (code : Code) → P (status_text code)
unfolding status_text
status_case P a b c d success = a
status_case P a b c d already_init = a
status_case P a b c d error = d
status_case P a b c d not_ready = b
status_case P a b c d invalid_param = b
status_case P a b c d unavailable = c

abbrev pub line_and_type : Text → Text → Text
line_and_type status rest =
    text "HTTP/1.1 "
    ++ (status
        ++ (text " OK"
            ++ (crlf
                ++ (text "Content-Type: application/json"
                    ++ (crlf ++ (text "Content-Length: " ++ rest))))))

-- Where the parser finds what it looks for.
pub record Found (rest : Text) (status : Text) : Type 0 where
  pub ended :
      {m : ℕ}
      → find end_of_headers rest ≡ some m
      → find end_of_headers (line_and_type status rest) ≡ some (65 + m)
  pub named : find (text "content-length:") (to_lower (line_and_type status rest)) ≡ some 49
  pub from_name :
      drop 49 (to_lower (line_and_type status rest)) ≡ text "content-length: " ++ to_lower rest
  pub behind_name : drop 64 (to_lower (line_and_type status rest)) ≡ b' ' ∷ to_lower rest
  pub behind : drop 65 (line_and_type status rest) ≡ rest
  pub long : length (line_and_type status rest) ≡ 65 + length rest

pub found : (rest : Text) (code : Code) → Found rest (status_text code)
unfolding find to_lower
found rest code =
    status_case (Found rest)
      (record {
        ended = λ e. rw e (ap some (omega arith));
        named = refl;
        from_name = refl;
        behind_name = refl;
        behind = refl;
        long = omega arith;
      })
      (record {
        ended = λ e. rw e (ap some (omega arith));
        named = refl;
        from_name = refl;
        behind_name = refl;
        behind = refl;
        long = omega arith;
      })
      (record {
        ended = λ e. rw e (ap some (omega arith));
        named = refl;
        from_name = refl;
        behind_name = refl;
        behind = refl;
        long = omega arith;
      })
      (record {
        ended = λ e. rw e (ap some (omega arith));
        named = refl;
        from_name = refl;
        behind_name = refl;
        behind = refl;
        long = omega arith;
      })
      code

pub http_text_lem :
    (code : Code) (body_json : Text)
    → http_text code body_json
      ≡ line_and_type (status_text code) (to_string (length body_json) ++ trailer body_json)
unfolding http_text
http_text_lem code body_json =
    ap (λ status. line_and_type status (to_string (length body_json) ++ trailer body_json))
      (status_lem code)
