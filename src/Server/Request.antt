-- ===== src/Server/Request.antt =====
-- api/AdminServer.cpp: `parse_request_line`.
use sim_vision_sdk.Prelude.{
  ℕ, ◌+◌, ◌-◌, Option, none, some, [], Text, text, to_lower, length, take, drop, ℕ-eq,
}
use sim_vision_sdk.Prelude.Search.{find, find_from, stoul}
use sim_vision_sdk.Server.Reading.{crlf, end_of_headers}

pub record Request : Type 0 where
  pub method : Text
  pub path : Text
  pub header_end : ℕ
  pub content_length : ℕ

-- `s.substr(0, at)`, or all of it at `npos`
abbrev pub before : Text → Option ℕ → Text
before s none = s
before s (some i) = take i s

abbrev pub method_of : Text → Option ℕ → Text
method_of line none = []
method_of line (some i) = take i line

-- What stands between the two spaces, or `/`.
abbrev pub target_of : Text → Option ℕ → Option ℕ → Text
target_of line (some a) (some b) = take (b - a - 1) (drop (a + 1) line)
target_of line _ _ = text "/"

-- `sp1 + 1`, which is 0 at `npos`
abbrev pub behind : Option ℕ → ℕ
behind none = 0
behind (some i) = i + 1

abbrev pub or_size : Text → Option ℕ → ℕ
or_size buf none = length buf
or_size buf (some i) = i

abbrev pub or_zero : Option ℕ → ℕ
or_zero none = 0
or_zero (some n) = n

-- The value behind the name at `pos`, up to the end of its line.
abbrev pub value_at : Text → ℕ → Option ℕ → Text
value_at lower pos none = drop (pos + 15) lower
value_at lower pos (some eol) = take (eol - (pos + 15)) (drop (pos + 15) lower)

abbrev pub length_at : Text → Option ℕ → ℕ
length_at lower none = 0
length_at lower (some pos) = or_zero (stoul (value_at lower pos (find_from crlf lower pos)))

unfoldable pub parse_request_line : Text → Request
parse_request_line buf =
    let line = before buf (find crlf buf) in
    let sp1 = find (text " ") line in
    let sp2 = find_from (text " ") line (behind sp1) in
    let target = target_of line sp1 sp2 in
    let lower = to_lower buf in
    record {
      method = method_of line sp1;
      path = before target (find (text "?") target);
      header_end = or_size buf (find end_of_headers buf);
      content_length = length_at lower (find (text "content-length:") lower);
    }
