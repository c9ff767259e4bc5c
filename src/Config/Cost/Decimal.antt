-- ===== src/Config/Cost/Decimal.antt =====
-- The amount that a decimal number gives.
use syrogo.Base.{
  subst, ℕ, zero, suc, ◌+◌, ◌-◌, ◌*◌, ◌≤◌, ◌<◌, ◌≡◌, refl, ap, ◌∙◌, Bool, true, false, ◌||◌, List,
  [], ◌∷◌, ◌++◌, All, none, some, ◌==◌, nat_eq, arith, length, length-append,
}
use syrogo.Base.Int.{pos}
use syrogo.Config.Checks.{is_blank, any_code}
use syrogo.Config.Cost.{
  micro_usd, max_int64, is_digit, read_digits, parse_int, sum_cost, with_fraction, with_whole,
  cost_parts, cost_usd_micro, padded, zeros, split_dots, bad_whole, refused, starts_with,
}

-- The number that digits write.
abbrev pub value_from : ℕ → List ℕ → ℕ
value_from acc [] = acc
value_from acc (c ∷ s) = value_from (acc * 10 + (c - b'0')) s

abbrev pub IsDigit : ℕ → Type 0
IsDigit c = is_digit c ≡ true

read_digits-value :
    (acc : ℕ) (s : List ℕ) → All IsDigit s → read_digits acc s ≡ some (value_from acc s)
unfolding read_digits
read_digits-value acc [] h = refl
read_digits-value acc (c ∷ s) h =
    ground (arith, h.0, read_digits-value (acc * 10 + (c - b'0')) s h.1)

parse_int-value :
    (c : ℕ) (s : List ℕ)
    → All IsDigit (c ∷ s)
    → value_from 0 (c ∷ s) ≤ max_int64
    → parse_int (c ∷ s) ≡ some (pos (value_from 0 (c ∷ s)))
unfolding parse_int
parse_int-value c s h le = ground (arith, h.0, le, read_digits-value 0 (c ∷ s) h)

-- A number of six digits more is a million times the first and their own.
pub value_from-six :
    (acc : ℕ) (s : List ℕ) → length s ≡ 6 → value_from acc s ≡ acc * 1000000 + value_from 0 s
value_from-six acc (a ∷ b ∷ c ∷ d ∷ e ∷ f ∷ []) h = omega arith
value_from-six acc [] h = absurd (omega (arith, h))
value_from-six acc (a ∷ []) h = absurd (omega (arith, h))
value_from-six acc (a ∷ b ∷ []) h = absurd (omega (arith, h))
value_from-six acc (a ∷ b ∷ c ∷ []) h = absurd (omega (arith, h))
value_from-six acc (a ∷ b ∷ c ∷ d ∷ []) h = absurd (omega (arith, h))
value_from-six acc (a ∷ b ∷ c ∷ d ∷ e ∷ []) h = absurd (omega (arith, h))
value_from-six acc (a ∷ b ∷ c ∷ d ∷ e ∷ f ∷ g ∷ s) h = absurd (omega (arith, h))

pub value_from-append :
    (acc : ℕ) (s t : List ℕ) → value_from acc (s ++ t) ≡ value_from (value_from acc s) t
value_from-append acc [] t = refl
value_from-append acc (c ∷ s) t = value_from-append (acc * 10 + (c - b'0')) s t

length-zeros : (n : ℕ) → length (zeros n) ≡ n
length-zeros zero = omega arith
length-zeros (suc n) = omega (arith, length-zeros n)

zeros-digits : (n : ℕ) → All IsDigit (zeros n)
zeros-digits zero = tt
zeros-digits (suc n) = (refl, zeros-digits n)

All-digits-append : (s t : List ℕ) → All IsDigit s → All IsDigit t → All IsDigit (s ++ t)
All-digits-append [] t h k = k
All-digits-append (c ∷ s) t h k = (h.0, All-digits-append s t h.1 k)

pub length-padded : (s : List ℕ) → length s ≤ 6 → length (padded s) ≡ 6
length-padded s h =
    omega (arith, length-append s (zeros (6 - length s)), length-zeros (6 - length s), h)

parse_int-digits :
    (s : List ℕ)
    → 0 < length s
    → All IsDigit s
    → value_from 0 s ≤ max_int64
    → parse_int s ≡ some (pos (value_from 0 s))
parse_int-digits [] n h le = absurd (omega (arith, n))
parse_int-digits (c ∷ s) n h le = parse_int-value c s h le

split_dots-digits : (s : List ℕ) → All IsDigit s → split_dots s ≡ s ∷ []
unfolding split_dots
split_dots-digits [] h = refl
split_dots-digits (c ∷ s) h = ground (arith, h.0, split_dots-digits s h.1)

split_dots-dot : (s t : List ℕ) → All IsDigit s → split_dots (s ++ b'.' ∷ t) ≡ s ∷ split_dots t
unfolding split_dots
split_dots-dot [] t h = refl
split_dots-dot (c ∷ s) t h = ground (arith, h.0, split_dots-dot s t h.1)

abbrev is_exponent : ℕ → Bool
is_exponent c = c == b'e' || c == b'E'

no_exponent : (s : List ℕ) → All IsDigit s → any_code is_exponent s ≡ false
no_exponent [] h = refl
no_exponent (c ∷ s) h = ground (arith, h.0, no_exponent s h.1)

no_exponent-dot :
    (s t : List ℕ) → All IsDigit s → All IsDigit t → any_code is_exponent (s ++ b'.' ∷ t) ≡ false
no_exponent-dot [] t h k = no_exponent t k
no_exponent-dot (c ∷ s) t h k = ground (arith, h.0, no_exponent-dot s t h.1 k)

sum_cost-fits :
    (w f t : ℕ) → t ≡ w * 1000000 + f → 0 < t → t ≤ max_int64 → sum_cost w (pos f) ≡ micro_usd t
unfolding sum_cost
sum_cost-fits w f t e p le = ground (arith, e, p, le)

-- The text of a decimal number: a dot only where there is a fraction.
abbrev pub decimal : List ℕ → List ℕ → List ℕ
decimal whole [] = whole
decimal whole (d ∷ fraction) = whole ++ b'.' ∷ d ∷ fraction

module _ (c : ℕ) (whole fraction : List ℕ) (digits : All IsDigit (c ∷ whole))
    (more : All IsDigit fraction) (short : length fraction ≤ 6)
    (some_cost : 0 < value_from 0 ((c ∷ whole) ++ padded fraction))
    (fits : value_from 0 ((c ∷ whole) ++ padded fraction) ≤ max_int64) where
  abbrev total : ℕ
  total = value_from 0 ((c ∷ whole) ++ padded fraction)

  total-parts : total ≡ value_from 0 (c ∷ whole) * 1000000 + value_from 0 (padded fraction)
  total-parts =
      value_from-append 0 (c ∷ whole) (padded fraction)
      ∙ value_from-six (value_from 0 (c ∷ whole)) (padded fraction) (length-padded fraction short)

  with_fraction-total : with_fraction (value_from 0 (c ∷ whole)) fraction ≡ micro_usd total
  unfolding with_fraction
  with_fraction-total =
      let read : parse_int (padded fraction) ≡ some (pos (value_from 0 (padded fraction))) =
        parse_int-digits (padded fraction) (omega (arith, length-padded fraction short))
          (All-digits-append fraction (zeros (6 - length fraction)) more
            (zeros-digits (6 - length fraction)))
          (omega (arith, total-parts, fits)) in
      rw (read, with_fraction) (sum_cost-fits _ _ total total-parts some_cost fits)

  parse_whole : parse_int (c ∷ whole) ≡ some (pos (value_from 0 (c ∷ whole)))
  parse_whole = parse_int-value c whole digits (omega (arith, total-parts, fits))

  with_whole-none : fraction ≡ [] → with_whole (c ∷ whole) none ≡ micro_usd total
  unfolding with_whole
  with_whole-none e =
      rw (parse_whole, with_whole)
        (subst (λ f. with_fraction (value_from 0 (c ∷ whole)) f ≡ micro_usd total) e
          with_fraction-total)

  with_whole-some :
      is_blank fraction ≡ false → with_whole (c ∷ whole) (some fraction) ≡ micro_usd total
  unfolding with_whole
  with_whole-some e = rw (parse_whole, e, with_whole) with_fraction-total

  whole_good : bad_whole (c ∷ whole) ≡ false
  whole_good = ground (arith, digits.0)

plain_parts :
    (text : List ℕ)
    → (is_blank text ≡ false) × (starts_with b'+' text ≡ false)
    → any_code is_exponent text ≡ false
    → cost_usd_micro text ≡ cost_parts (split_dots text)
unfolding cost_usd_micro
plain_parts text h k = rw (h.0, h.1, k, cost_usd_micro) refl

two_parts :
    (whole fraction : List ℕ)
    → bad_whole whole ≡ false
    → length fraction ≤ 6
    → cost_parts (whole ∷ fraction ∷ []) ≡ with_whole whole (some fraction)
unfolding cost_parts
two_parts whole fraction h short = ground (arith, h, short)

-- A number that is written with digits, and perhaps a dot and up to six digits more, is taken as
-- the amount that its digits write once zeros fill them up to six behind the dot, if that is not
-- zero and within Go's `int64`.
pub cost_usd_micro-decimal :
    (c : ℕ) (whole fraction : List ℕ)
    → All IsDigit (c ∷ whole)
    → All IsDigit fraction
    → length fraction ≤ 6
    → 0 < value_from 0 ((c ∷ whole) ++ padded fraction)
    → value_from 0 ((c ∷ whole) ++ padded fraction) ≤ max_int64
    → cost_usd_micro (decimal (c ∷ whole) fraction)
      ≡ micro_usd (value_from 0 ((c ∷ whole) ++ padded fraction))
unfolding cost_usd_micro cost_parts
cost_usd_micro-decimal c whole [] digits more short some_cost fits =
    let plain_text : refused (c ∷ whole) ≡ false =
      ground (arith, digits.0, no_exponent (c ∷ whole) digits) in
    let good = whole_good c whole [] digits more short some_cost fits in
    rw (plain_text, split_dots-digits (c ∷ whole) digits, good, cost_usd_micro, cost_parts)
      (with_whole-none c whole [] digits more short some_cost fits refl)
cost_usd_micro-decimal c whole (d ∷ fraction) digits more short some_cost fits =
    let text : List ℕ = (c ∷ whole) ++ b'.' ∷ d ∷ fraction in
    let parts : split_dots text ≡ (c ∷ whole) ∷ (d ∷ fraction) ∷ [] =
      split_dots-dot (c ∷ whole) (d ∷ fraction) digits
      ∙ ap (λ rest. (c ∷ whole) ∷ rest) (split_dots-digits (d ∷ fraction) more) in
    plain_parts text (ground (arith, digits.0))
      (no_exponent-dot (c ∷ whole) (d ∷ fraction) digits more)
    ∙ ap cost_parts parts
    ∙ two_parts (c ∷ whole) (d ∷ fraction)
        (whole_good c whole (d ∷ fraction) digits more short some_cost fits) short
    ∙ with_whole-some c whole (d ∷ fraction) digits more short some_cost fits refl
