-- ===== src/Server/Reading.antt =====
-- api/AdminServer.cpp: `read_until_headers` and `read_body`. The list holds what the calls of `SSL_read`
-- return; `none` says that the loop still waits after them.
use sim_vision_sdk.Prelude.{
  ℕ, ◌+◌, ◌≤◌, ◌≡◌, ◌≢◌, ◌↔◌, Bool, true, false, Option, none, some, List, [], ◌∷◌, ◌++◌, Text,
  if◌then◌else◌, arith, length, ltb, length-append, append_assoc, ◌⊎◌,
}
use sim_vision_sdk.Prelude.Search.{find}

-- `SSL_read` returned bytes, or `SSL_get_error` says `WANT_READ` or `WANT_WRITE`, or it says anything else.
pub data ReadResult : Type 0 where
  got : List ℕ → ReadResult
  again failed : ReadResult

abbrev pub crlf : Text
crlf = b'\r' ∷ b'\n' ∷ []

abbrev pub end_of_headers : Text
end_of_headers = crlf ++ crlf

abbrev pub is_found : Option ℕ → Bool
is_found none = false
is_found (some _) = true

-- Success, the bytes that were read, and the results that are left.
abbrev pub ReadOutcome : Type 0
ReadOutcome = Bool × Text × List ReadResult

unfoldable pub read_until_headers : List ReadResult → Text → Option ReadOutcome
read_until_headers [] buf = none
read_until_headers (got bytes ∷ more) buf =
    let buf' = buf ++ bytes in
    if is_found (find end_of_headers buf')
    then some (true, buf', more)
    else if ltb 65536 (length buf')
    then some (false, buf', more)
    else read_until_headers more buf'
read_until_headers (again ∷ more) buf = read_until_headers more buf
read_until_headers (failed ∷ more) buf = some (false, buf, more)

unfoldable pub read_body : List ReadResult → Text → ℕ → Option ReadOutcome
read_body [] buf want = if ltb (length buf) want then none else some (true, buf, [])
read_body (got bytes ∷ more) buf want =
    if ltb (length buf) want
    then read_body more (buf ++ bytes) want
    else some (true, buf, got bytes ∷ more)
read_body (again ∷ more) buf want =
    if ltb (length buf) want then read_body more buf want else some (true, buf, again ∷ more)
read_body (failed ∷ more) buf want =
    if ltb (length buf) want then some (false, buf, more) else some (true, buf, failed ∷ more)

-- No call returned more than `n` bytes.
abbrev pub AtMost : ℕ → List ReadResult → Type 0
AtMost n [] = Unit {0}
AtMost n (got bytes ∷ more) = (length bytes ≤ n) × AtMost n more
AtMost n (_ ∷ more) = AtMost n more

-- Some call failed.
abbrev pub some_failed : List ReadResult → Bool
some_failed [] = false
some_failed (failed ∷ more) = true
some_failed (_ ∷ more) = some_failed more

-- What `read_until_headers` returns to its caller: at most 67584 bytes have been buffered if every call of
-- `SSL_read` keeps to the 2048 bytes that it is given, and a success means that the headers are complete.
pub read_until_headers_lem :
    (reads : List ReadResult) (buf : Text) {out : ReadOutcome}
    → AtMost 2048 reads
    → length buf ≤ 65536
    → read_until_headers reads buf ≡ some out
    → (length out.1 ≤ 65536 + 2048)
      × ((out.0 ≡ false) ⊎ (is_found (find end_of_headers out.1) ≡ true))
unfolding read_until_headers
read_until_headers_lem [] buf b small e = absurd (ground (arith, e))
read_until_headers_lem (got bytes ∷ more) buf {out} b small e = ground (
  arith,
  e,
  b,
  length-append buf bytes,
  read_until_headers_lem more (buf ++ bytes) {out = out} b.1,
)
read_until_headers_lem (again ∷ more) buf b small e = read_until_headers_lem more buf b small e
read_until_headers_lem (failed ∷ more) buf b small e = ground (arith, e)

-- Once some call of `SSL_read` fails, the read of the headers has ended.
pub read_until_headers_failed :
    (reads : List ReadResult) (buf : Text)
    → some_failed reads ≡ true
    → read_until_headers reads buf ≢ none
unfolding read_until_headers
read_until_headers_failed [] buf h = absurd (ground (arith, h))
read_until_headers_failed (got bytes ∷ more) buf h =
    ground (arith, read_until_headers_failed more (buf ++ bytes) h)
read_until_headers_failed (again ∷ more) buf h = read_until_headers_failed more buf h
read_until_headers_failed (failed ∷ more) buf h = ground arith

-- The bytes of the results.
abbrev pub received : List ReadResult → Text
received [] = []
received (got bytes ∷ more) = bytes ++ received more
received (_ ∷ more) = received more

-- What `read_body` returns is what it was given and then what came in, in order; a success means that
-- `want` bytes are there.
pub read_body_lem :
    (reads : List ReadResult) (buf : Text) (want : ℕ) {out : ReadOutcome}
    → read_body reads buf want ≡ some out
    → (out.1 ++ received out.2 ≡ buf ++ received reads) × ((out.0 ≡ true) ↔ (want ≤ length out.1))
unfolding read_body
read_body_lem [] buf want e = ground (arith, e)
read_body_lem (got bytes ∷ more) buf want {out} e = ground (
  arith,
  e,
  append_assoc buf bytes (received more),
  read_body_lem more (buf ++ bytes) want {out = out},
)
read_body_lem (again ∷ more) buf want {out} e =
    ground (arith, e, read_body_lem more buf want {out = out})
read_body_lem (failed ∷ more) buf want {out} e = ground (arith, e)
