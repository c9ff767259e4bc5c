-- ===== src/Quota/Money.antt =====
-- `formatMicroUSD` of internal/quota/tracker.go: an amount in millionths of a dollar as the bytes of
-- its number, none for no amount.
pub mod RoundTrip
use syrogo.Base.{
  ℕ, zero, suc, ◌+◌, ◌*◌, ◌/◌, ◌%◌, Bool, true, false, List, [], ◌∷◌, ◌++◌, if◌then◌else◌, ◌==◌,
  nat_eq, ltb,
}

-- `%d` of a number that is not negative, with a round of fuel for each digit.
unfoldable pub digits : ℕ → ℕ → List ℕ
digits zero n = []
digits (suc fuel) n =
    let front = digits fuel (n / 10) in
    if ltb n 10 then (b'0' + n) ∷ [] else front ++ (b'0' + n % 10) ∷ []

-- `%06d` of a number below a million.
unfoldable pub six_digits : ℕ → List ℕ
six_digits n =
    (b'0' + n / 100000 % 10)
    ∷ (b'0' + n / 10000 % 10)
    ∷ (b'0' + n / 1000 % 10)
    ∷ (b'0' + n / 100 % 10)
    ∷ (b'0' + n / 10 % 10)
    ∷ (b'0' + n % 10)
    ∷ []

-- One byte in front of bytes that are trimmed.
abbrev pub trim_onto : ℕ → List ℕ → List ℕ
trim_onto c [] = if c == b'0' then [] else c ∷ []
trim_onto c (d ∷ s) = c ∷ d ∷ s

-- `strings.TrimRight(s, "0")`.
unfoldable pub trim_zeros : List ℕ → List ℕ
trim_zeros [] = []
trim_zeros (c ∷ s) = trim_onto c (trim_zeros s)

unfoldable pub format_micro_usd : ℕ → List ℕ
unfolding digits six_digits trim_zeros
format_micro_usd value =
    let whole = value / 1000000 in
    let fraction = value % 1000000 in
    if value == 0
    then []
    else if fraction == 0
    then digits (suc whole) whole
    else trim_zeros (digits (suc whole) whole ++ b'.' ∷ six_digits fraction)
