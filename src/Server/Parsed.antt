-- ===== src/Server/Parsed.antt =====
-- What `parse_request_line` makes of a request.
use sim_vision_sdk.Prelude.{
  ℕ, suc, ◌+◌, ◌-◌, ◌^◌, ◌≤◌, ◌<◌, ◌≡◌, refl, ap, ap₂, ◌∙◌, false, ◌||◌, Option, none, some, [],
  ◌∷◌, ◌++◌, Text, text, to_lower, arith, length, take, drop, nat_eq_iff, ℕ-eq, Option-cases, inl,
  inr,
}
use sim_vision_sdk.Prelude.Set.{contains}
use sim_vision_sdk.Prelude.Search.{
  shift, find, find_from, stoul, signed, unsigned, negate, skip_spaces,
}
use sim_vision_sdk.Server.Reading.{crlf, end_of_headers}
use sim_vision_sdk.Server.Request.{
  before, method_of, target_of, behind, or_size, or_zero, length_at, parse_request_line,
}

-- The first place of a single byte that does not stand before.
find-skip :
    (c : ℕ) (s t : Text) → contains c s ≡ false → find (c ∷ []) (s ++ c ∷ t) ≡ some (length s)
unfolding find contains
find-skip c [] t h = ground (arith, nat_eq_iff c c)
find-skip c (a ∷ s) t h = ground (arith, nat_eq_iff c a, nat_eq_iff a c, find-skip c s t)

find-absent : (c : ℕ) (s : Text) → contains c s ≡ false → find (c ∷ []) s ≡ none
unfolding find contains
find-absent c [] h = refl
find-absent c (a ∷ s) h = ground (arith, nat_eq_iff c a, nat_eq_iff a c, find-absent c s)

find-crlf : (s t : Text) → contains b'\r' s ≡ false → find crlf (s ++ (crlf ++ t)) ≡ some (length s)
unfolding find contains
find-crlf [] t h = refl
find-crlf (a ∷ s) t h = ground (arith, nat_eq_iff b'\r' a, nat_eq_iff a b'\r', find-crlf s t)

pub take-append : (s t : Text) → take (length s) (s ++ t) ≡ s
take-append [] t = refl
take-append (c ∷ s) t = ap (◌∷◌ c) (take-append s t)

pub drop-append : (s t : Text) → drop (length s) (s ++ t) ≡ t
drop-append [] t = refl
drop-append (c ∷ s) t = drop-append s t

contains-append : (c : ℕ) (s t : Text) → contains c (s ++ t) ≡ (contains c s || contains c t)
unfolding contains
contains-append c [] t = refl
contains-append c (a ∷ s) t = ground (arith, contains-append c s t)

-- The line of a request with this method and target.
abbrev pub request_line : Text → Text → Text → Text
request_line method target version = method ++ (b' ' ∷ (target ++ (b' ' ∷ version)))

drop-suc : (s t : Text) (c : ℕ) → drop (suc (length s)) (s ++ c ∷ t) ≡ t
drop-suc [] t c = refl
drop-suc (a ∷ s) t c = drop-suc s t c

drop-behind : (s t : Text) (c : ℕ) → drop (length s + 1) (s ++ c ∷ t) ≡ t
drop-behind s t c =
    let e : length s + 1 ≡ suc (length s) = omega arith in
    ap (λ n. drop n (s ++ c ∷ t)) e ∙ drop-suc s t c

-- The two spaces of a request line delimit the method and the target.
line_parts :
    (method target version : Text)
    → contains b' ' method ≡ false
    → contains b' ' target ≡ false
    → let line = request_line method target version in
      let sp1 = find (text " ") line in
      (method_of line sp1 ≡ method)
      × (target_of line sp1 (find_from (text " ") line (behind sp1)) ≡ target)
line_parts method target version no_space no_space' =
    let line = request_line method target version in
    let rest = target ++ (b' ' ∷ version) in
    let n = length method in
    let first : find (text " ") line ≡ some n = find-skip b' ' method rest no_space in
    let tail : drop (n + 1) line ≡ rest = drop-behind method rest b' ' in
    let second : find_from (text " ") line (n + 1) ≡ some (n + 1 + length target) =
      ap (λ s. shift (n + 1) (find (text " ") s)) tail
      ∙ ap (shift (n + 1)) (find-skip b' ' target version no_space') in
    let width : n + 1 + length target - n - 1 ≡ length target = omega arith in
    (
      ap (method_of line) first ∙ take-append method (b' ' ∷ rest),
      ap (λ o. target_of line o (find_from (text " ") line (behind o))) first
          ∙ ap (target_of line (some n)) second
          ∙ ap₂ take width tail
          ∙ take-append target (b' ' ∷ version),
    )

abbrev pub with_query : Text → Option Text → Text
with_query path none = path
with_query path (some query) = path ++ b'?' ∷ query

before_query :
    (path : Text) (query : Option Text)
    → contains b'?' path ≡ false
    → before (with_query path query) (find (text "?") (with_query path query)) ≡ path
before_query path none h = ap (before path) (find-absent b'?' path h)
before_query path (some query) h =
    ap (before (path ++ b'?' ∷ query)) (find-skip b'?' path query h)
    ∙ take-append path (b'?' ∷ query)

-- From a request that starts with a method, a target and a version with single spaces between, none of them
-- with a carriage return and the first two without a space, the method is read back, and as the path the
-- target without its query.
pub parse_request_line_lem :
    (method path version rest : Text) (query : Option Text)
    → contains b' ' method ≡ false
    → contains b' ' (with_query path query) ≡ false
    → contains b'?' path ≡ false
    → contains b'\r' (request_line method (with_query path query) version) ≡ false
    → let r =
        parse_request_line
          (request_line method (with_query path query) version ++ (crlf ++ rest)) in
      (r.method ≡ method) × (r.path ≡ path)
unfolding parse_request_line
parse_request_line_lem method path version rest query no_space no_space' no_mark no_return =
    let target = with_query path query in
    let line = request_line method target version in
    let buf = line ++ (crlf ++ rest) in
    let whole : before buf (find crlf buf) ≡ line =
      ap (before buf) (find-crlf line rest no_return) ∙ take-append line (crlf ++ rest) in
    let (m, t) = line_parts method target version no_space no_space' in
    (
      ap (λ l. method_of l (find (text " ") l)) whole ∙ m,
      ap
            (λ l.
              let s =
                target_of l (find (text " ") l)
                  (find_from (text " ") l (behind (find (text " ") l))) in
              before s (find (text "?") s))
            whole
          ∙ ap (λ s. before s (find (text "?") s)) t
          ∙ before_query path query no_mark,
    )

unsigned_bound : (s : Text) {n : ℕ} → unsigned s ≡ some n → n < 2 ^ 64
unsigned_bound [] e = absurd (ground (arith, e))
unsigned_bound (c ∷ s) e = ground (arith, e)

negate_bound : (o : Option ℕ) {n : ℕ} → negate o ≡ some n → n < 2 ^ 64
negate_bound none e = absurd (ground (arith, e))
negate_bound (some m) e = ground (arith, e)

signed_bound : (s : Text) {n : ℕ} → signed s ≡ some n → n < 2 ^ 64
signed_bound [] e = absurd (ground (arith, e))
signed_bound (c ∷ s) {n} e = ground (
  arith,
  e,
  unsigned_bound s {n = n},
  unsigned_bound (c ∷ s) {n = n},
  negate_bound (unsigned s) {n = n},
)

or_zero-stoul : (s : Text) → or_zero (stoul s) < 2 ^ 64
unfolding stoul
or_zero-stoul s = elim (Option-cases (stoul s)) [
  | inl e ↦ rw (e, or_zero) (omega arith)
  | inr (n, e) ↦ rw (e, or_zero) (signed_bound (skip_spaces s) e)
]

find-le-length : (p s : Text) {i : ℕ} → find p s ≡ some i → i ≤ length s
unfolding find
find-le-length p [] e = ground (arith, e)
find-le-length p (c ∷ s) {i} e = elim (Option-cases (find p s)) [
  | inl e' ↦ ground (arith, e, e')
  | inr (k, e') ↦ ground (arith, e, e', find-le-length p s e')
]

-- Whatever was sent, the end of the headers is within what was read, and the content length fits `size_t`.
pub parse_request_line_bounds :
    (buf : Text)
    → ((parse_request_line buf).header_end ≤ length buf)
      × ((parse_request_line buf).content_length < 2 ^ 64)
unfolding parse_request_line
parse_request_line_bounds buf = (ended, measured)
  where
    ended : or_size buf (find end_of_headers buf) ≤ length buf
    ended = elim (Option-cases (find end_of_headers buf)) [
      | inl e ↦ rw e (omega arith)
      | inr (i, e) ↦ rw e (find-le-length end_of_headers buf e)
    ]

    measured : length_at (to_lower buf) (find (text "content-length:") (to_lower buf)) < 2 ^ 64
    measured = elim (Option-cases (find (text "content-length:") (to_lower buf))) [
      | inl e ↦ rw e (omega arith)
      | inr (i, e) ↦ rw e (or_zero-stoul _)
    ]
