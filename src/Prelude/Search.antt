-- ===== src/Prelude/Search.antt =====
-- `std::string::find` and `substr`, `std::stoul` and `std::to_string`.
use Prim.Native.Nat.{ℕ, zero, suc, ◌+◌, ◌-◌, ◌*◌, ◌/◌, ◌%◌, ◌^◌}
use mathlib.Core.Bool.{Bool, true, false, ◌&&◌, ◌||◌}
use mathlib.Core.List.{List, [], ◌∷◌}
use mathlib.Core.Option.{Option, none, some}
use sim_vision_sdk.Prelude.Tests.{ltb, leb, nat_eq, if◌then◌else◌}
use sim_vision_sdk.Prelude.Lists.{drop}

abbrev pub starts : List ℕ → List ℕ → Bool
starts [] s = true
starts (p ∷ ps) [] = false
starts (p ∷ ps) (c ∷ s) = nat_eq p c && starts ps s

abbrev pub shift : ℕ → Option ℕ → Option ℕ
shift n none = none
shift n (some i) = some (n + i)

-- `s.find(p)`, with `none` for `npos`
unfoldable pub find : List ℕ → List ℕ → Option ℕ
find p [] = if starts p [] then some 0 else none
find p (c ∷ s) = if starts p (c ∷ s) then some 0 else shift 1 (find p s)

-- `s.find(p, from)`
abbrev pub find_from : List ℕ → List ℕ → ℕ → Option ℕ
find_from p s from = shift from (find p (drop from s))

abbrev pub is_space : ℕ → Bool
is_space c = nat_eq c 32 || (leb 9 c && leb c 13)

abbrev pub is_digit : ℕ → Bool
is_digit c = leb b'0' c && leb c b'9'

abbrev pub skip_spaces : List ℕ → List ℕ
skip_spaces [] = []
skip_spaces (c ∷ s) = if is_space c then skip_spaces s else c ∷ s

-- the digits at the start, behind the number `n`
abbrev pub read_digits : List ℕ → ℕ → ℕ
read_digits [] n = n
read_digits (c ∷ s) n = if is_digit c then read_digits s (n * 10 + (c - b'0')) else n

-- at least one digit, and no overflow
abbrev pub unsigned : List ℕ → Option ℕ
unsigned [] = none
unsigned (c ∷ s) =
    let n = read_digits (c ∷ s) 0 in if is_digit c && ltb n (2 ^ 64) then some n else none

abbrev pub negate : Option ℕ → Option ℕ
negate none = none
negate (some n) = some ((2 ^ 64 - n) % 2 ^ 64)

abbrev pub signed : List ℕ → Option ℕ
signed [] = none
signed (c ∷ s) =
    if nat_eq c b'-'
    then negate (unsigned s)
    else if nat_eq c b'+'
    then unsigned s
    else unsigned (c ∷ s)

-- `std::stoul`: `none` is an exception; a minus sign negates modulo 2 ^ 64.
unfoldable pub stoul : List ℕ → Option ℕ
stoul s = signed (skip_spaces s)

-- The fuel is more than the number of digits.
abbrev pub digits : ℕ → ℕ → List ℕ → List ℕ
digits zero n out = out
digits (suc fuel) n out = elim (ltb n 10) [
  | true ↦ (b'0' + n) ∷ out
  | false ↦ digits fuel (n / 10) ((b'0' + n % 10) ∷ out)
]

-- `std::to_string`
unfoldable pub to_string : ℕ → List ℕ
to_string n = digits (suc n) n []
