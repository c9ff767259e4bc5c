-- ===== src/Config/Cost.antt =====
-- `costUSDMicro` of internal/config/config.go: an amount of dollars, as bytes, in millionths.
pub mod Bounds
pub mod Decimal
use syrogo.Base.{
  ℕ, suc, ◌+◌, ◌-◌, ◌*◌, ◌/◌, ◌≤◌, Bool, true, false, ◌&&◌, ◌||◌, List, [], ◌∷◌, ◌++◌, Option, none,
  some, if◌then◌else◌, ◌==◌, nat_eq, ltb, leb, length,
}
use syrogo.Base.Int.{ℤ, pos, negsuc}
use syrogo.Config.Checks.{Message, plain, is_blank, any_code}

pub data Cost : Type 0 where
  micro_usd : ℕ → Cost
  no_cost : Message → Cost

abbrev pub max_int64 : ℕ
max_int64 = 9223372036854775807

abbrev pub is_digit : ℕ → Bool
is_digit c = leb b'0' c && leb c b'9'

-- The digits of `strconv.ParseInt` behind the sign, as a number without bounds.
unfoldable pub read_digits : ℕ → List ℕ → Option ℕ
read_digits acc [] = some acc
read_digits acc (c ∷ s) = if is_digit c then read_digits (acc * 10 + (c - b'0')) s else none

abbrev pub in_int64 : Bool → Option ℕ → Option ℤ
in_int64 minus none = none
in_int64 false (some n) = if leb n max_int64 then some (pos n) else none
in_int64 true (some ℕ.zero) = some (pos 0)
in_int64 true (some (suc n)) = if leb n max_int64 then some (negsuc n) else none

abbrev pub read_unsigned : List ℕ → Option ℕ
read_unsigned [] = none
read_unsigned (c ∷ s) = read_digits 0 (c ∷ s)

-- `strconv.ParseInt(s, 10, 64)`; `none` is an error.
unfoldable pub parse_int : List ℕ → Option ℤ
unfolding read_digits
parse_int [] = none
parse_int (c ∷ s) =
    if c == b'-'
    then in_int64 true (read_unsigned s)
    else if c == b'+'
    then in_int64 false (read_unsigned s)
    else in_int64 false (read_unsigned (c ∷ s))

abbrev cons_head : ℕ → List (List ℕ) → List (List ℕ)
cons_head c [] = (c ∷ []) ∷ []
cons_head c (p ∷ parts) = (c ∷ p) ∷ parts

-- `strings.Split(text, ".")`.
unfoldable pub split_dots : List ℕ → List (List ℕ)
split_dots [] = [] ∷ []
split_dots (c ∷ s) = if c == b'.' then [] ∷ split_dots s else cons_head c (split_dots s)

abbrev pub starts_with : ℕ → List ℕ → Bool
starts_with c [] = false
starts_with c (d ∷ s) = d == c

abbrev pub not_decimal : Cost
not_decimal = no_cost (plain "must be a positive decimal with at most 6 fractional digits")

abbrev pub too_large : Cost
too_large = no_cost (plain "is too large")

abbrev pub not_positive : Cost
not_positive = no_cost (plain "must be greater than 0")

-- The sum. With a fraction below zero `max_int64` less the fraction wraps to a number below zero,
-- and no whole part that is not negative is within its millionth part.
unfoldable pub sum_cost : ℕ → ℤ → Cost
sum_cost whole (negsuc n) = too_large
sum_cost whole (pos fraction) =
    if ltb ((max_int64 - fraction) / 1000000) whole
    then too_large
    else if whole * 1000000 + fraction == 0
    then not_positive
    else micro_usd (whole * 1000000 + fraction)

abbrev pub zeros : ℕ → List ℕ
zeros ℕ.zero = []
zeros (suc n) = b'0' ∷ zeros n

abbrev pub padded : List ℕ → List ℕ
padded fraction = fraction ++ zeros (6 - length fraction)

unfoldable pub with_fraction : ℕ → List ℕ → Cost
unfolding parse_int sum_cost
with_fraction whole fraction = elim (parse_int (padded fraction)) [
  | none ↦ not_decimal
  | some f ↦ sum_cost whole f
]

-- The whole part has no sign here; a second part is `some`.
unfoldable pub with_whole : List ℕ → Option (List ℕ) → Cost
unfolding parse_int with_fraction
with_whole whole fraction = elim (parse_int whole) [
  | none ↦ not_decimal
  | some (negsuc n) ↦ not_positive
  | some (pos w) ↦ elim fraction [
    | none ↦ with_fraction w []
    | some s ↦ if is_blank s then not_decimal else with_fraction w s
  ]
]

abbrev pub bad_whole : List ℕ → Bool
bad_whole whole = is_blank whole || starts_with b'-' whole

unfoldable pub cost_parts : List (List ℕ) → Cost
unfolding with_whole
cost_parts [] = not_decimal
cost_parts (whole ∷ []) = if bad_whole whole then not_decimal else with_whole whole none
cost_parts (whole ∷ fraction ∷ []) =
    if bad_whole whole
    then not_decimal
    else if ltb 6 (length fraction)
    then no_cost (plain "must have at most 6 fractional digits")
    else with_whole whole (some fraction)
cost_parts (whole ∷ fraction ∷ more ∷ parts) = not_decimal

abbrev pub refused : List ℕ → Bool
refused text = starts_with b'+' text || any_code (λ c. c == b'e' || c == b'E') text

unfoldable pub cost_usd_micro : List ℕ → Cost
unfolding cost_parts split_dots
cost_usd_micro text =
    if is_blank text
    then not_positive
    else if refused text
    then not_decimal
    else cost_parts (split_dots text)
