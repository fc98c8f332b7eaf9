-- ===== src/Prelude/Decimal.antt =====
-- What `std::to_string` writes, `std::stoul` reads back.
use Prim.Native.Nat.{ℕ, zero, suc, ◌+◌, ◌*◌, ◌/◌, ◌%◌, ◌^◌, ◌≤◌, ◌<◌}
use mathlib.Core.Path.{◌≡◌, refl, sym, subst}
use mathlib.Core.List.{List, [], ◌∷◌}
use mathlib.Core.Option.{some}
use native.Mathlib.Omega.{arith}
use native.Mathlib.Decide.{dec_lt}
use sim_vision_sdk.Prelude.Bytes.{to_lower}
use sim_vision_sdk.Prelude.Search.{read_digits, digits, to_string, stoul}

abbrev pub AllDigits : List ℕ → Type 0
AllDigits [] = Unit {0}
AllDigits (c ∷ s) = (48 ≤ c) × (c ≤ 57) × AllDigits s

-- A text that starts with a digit.
abbrev pub Numeral : List ℕ → Type 0
Numeral [] = ⊥
Numeral (c ∷ s) = AllDigits (c ∷ s)

digits-Numeral :
    (fuel n : ℕ) (out : List ℕ) → n < fuel → AllDigits out → Numeral (digits fuel n out)
digits-Numeral zero n out lt a = absurd (omega arith)
digits-Numeral (suc fuel) n out lt a = elim (dec_lt n 10) [
  | yes p ↦
      let e : digits (suc fuel) n out ≡ (48 + n) ∷ out = ground (arith, p) in
      subst Numeral (sym e) (omega arith, omega arith, a)
  | no p ↦
      let next =
        digits-Numeral fuel (n / 10) ((48 + n % 10) ∷ out) (omega arith)
          (omega arith, omega arith, a) in
      ground (arith, p, next)
]

read_digits-digits :
    (fuel n : ℕ) (out : List ℕ) → n < fuel → read_digits (digits fuel n out) 0 ≡ read_digits out n
read_digits-digits zero n out lt = absurd (omega arith)
read_digits-digits (suc fuel) n out lt = elim (dec_lt n 10) [
  | yes p ↦ ground (arith, p)
  | no p ↦
      let next = read_digits-digits fuel (n / 10) ((48 + n % 10) ∷ out) (omega arith) in
      let value : n / 10 * 10 + n % 10 ≡ n = omega arith in ground (arith, p, next, value)
]

pub to_string-Numeral : (n : ℕ) → Numeral (to_string n)
unfolding to_string
to_string-Numeral n = digits-Numeral (suc n) n [] (omega arith) tt

read_to_string : (n : ℕ) → read_digits (to_string n) 0 ≡ n
unfolding to_string
read_to_string n = read_digits-digits (suc n) n [] (omega arith)

stoul-Numeral :
    (s : List ℕ) (n : ℕ) → Numeral s → read_digits s 0 ≡ n → n < 2 ^ 64 → stoul (32 ∷ s) ≡ some n
unfolding stoul
stoul-Numeral [] n a e lt = absurd a
stoul-Numeral (c ∷ s) n a e lt = ground (arith, a.0, a.1, e, lt)

-- A space in front is skipped.
pub stoul-to_string : (n : ℕ) → n < 2 ^ 64 → stoul (32 ∷ to_string n) ≡ some n
stoul-to_string n lt = stoul-Numeral (to_string n) n (to_string-Numeral n) (read_to_string n) lt

pub to_lower-digits : (s : List ℕ) → AllDigits s → to_lower s ≡ s
unfolding to_lower
to_lower-digits [] a = refl
to_lower-digits (c ∷ s) a = ground (arith, a.0, a.1, to_lower-digits s a.2)
