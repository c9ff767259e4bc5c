-- ===== src/Quota/Money/RoundTrip.antt =====
-- The amount that the text of an amount is read as.
use syrogo.Base.{
  subst, ℕ, zero, suc, ◌+◌, ◌-◌, ◌*◌, ◌/◌, ◌%◌, ◌≤◌, ◌<◌, ◌≡◌, ◌⊎◌, refl, sym, ap, ◌∙◌, inl, inr,
  false, List, [], ◌∷◌, ◌++◌, All, All-append, arith, Bool-cases, ◌==◌, nat_eq, ltb, length,
}
use syrogo.Config.Cost.{micro_usd, max_int64, cost_usd_micro, padded, zeros}
use syrogo.Config.Cost.Decimal.{
  value_from, IsDigit, decimal, value_from-six, value_from-append, length-padded,
  cost_usd_micro-decimal,
}
use syrogo.Quota.Money.{digits, six_digits, trim_onto, trim_zeros, format_micro_usd}

below_ten-IsDigit : (n : ℕ) → n < 10 → IsDigit (b'0' + n)
below_ten-IsDigit n h = ground (arith, h)

value_from-snoc :
    (acc : ℕ) (s : List ℕ) (c : ℕ)
    → value_from acc (s ++ c ∷ []) ≡ value_from acc s * 10 + (c - b'0')
value_from-snoc acc [] c = refl
value_from-snoc acc (d ∷ s) c = value_from-snoc (acc * 10 + (d - b'0')) s c

digits-value : (fuel n : ℕ) → n < fuel → value_from 0 (digits fuel n) ≡ n
unfolding digits
digits-value zero n h = absurd (omega (arith, h))
digits-value (suc fuel) n h = elim (Bool-cases (ltb n 10)) [
  | inl e ↦ rw e (omega arith)
  | inr e ↦
      let smaller : n / 10 < fuel = ground (arith, e, h) in
      rw e (
        value_from-snoc 0 (digits fuel (n / 10)) (b'0' + n % 10)
        ∙ omega (arith, digits-value fuel (n / 10) smaller))
]

digits-IsDigit : (fuel n : ℕ) → All IsDigit (digits fuel n)
unfolding digits
digits-IsDigit zero n = tt
digits-IsDigit (suc fuel) n = elim (Bool-cases (ltb n 10)) [
  | inl e ↦ rw e (below_ten-IsDigit n (ground (arith, e)), tt)
  | inr e ↦ rw e (
      All-append IsDigit (digits fuel (n / 10)) ((b'0' + n % 10) ∷ [])
        (digits-IsDigit fuel (n / 10)) (below_ten-IsDigit (n % 10) (omega arith), tt))
]

snoc_head : (s : List ℕ) (c : ℕ) → (d : ℕ) × (t : List ℕ) × (s ++ c ∷ [] ≡ d ∷ t)
snoc_head [] c = (c, [], refl)
snoc_head (d ∷ s) c = (d, s ++ c ∷ [], refl)

digits_head : (fuel n : ℕ) → (d : ℕ) × (t : List ℕ) × (digits (suc fuel) n ≡ d ∷ t)
unfolding digits
digits_head fuel n = elim (Bool-cases (ltb n 10)) [
  | inl e ↦ rw e (b'0' + n, [], refl)
  | inr e ↦ rw e (snoc_head (digits fuel (n / 10)) (b'0' + n % 10))
]

six_digits-IsDigit : (n : ℕ) → All IsDigit (six_digits n)
unfolding six_digits
six_digits-IsDigit n = (
  below_ten-IsDigit (n / 100000 % 10) (omega arith),
  (
    below_ten-IsDigit (n / 10000 % 10) (omega arith),
    (
      below_ten-IsDigit (n / 1000 % 10) (omega arith),
      (
        below_ten-IsDigit (n / 100 % 10) (omega arith),
        (
          below_ten-IsDigit (n / 10 % 10) (omega arith),
          (below_ten-IsDigit (n % 10) (omega arith), tt),
        ),
      ),
    ),
  ),
)

six_digits-value : (n : ℕ) → n < 1000000 → value_from 0 (six_digits n) ≡ n
unfolding six_digits
six_digits-value n h = omega (arith, h)

back_onto :
    (c : ℕ) (s t : List ℕ)
    → t ++ zeros (length s - length t) ≡ s
    → trim_onto c t ++ zeros (suc (length s) - length (trim_onto c t)) ≡ c ∷ s
back_onto c s [] h = elim (Bool-cases (c == b'0')) [
  | inl e ↦
      let next : suc (length s) - 0 ≡ suc (length s - 0) = omega arith in
      let same : c ≡ b'0' = ground (arith, e) in
      rw (e, next) (ap (◌∷◌ b'0') h ∙ ap (λ d. d ∷ s) (sym same))
  | inr e ↦
      let next : suc (length s) - 1 ≡ length s - 0 = omega arith in rw (e, next) (ap (◌∷◌ c) h)
]
back_onto c s (d ∷ t) h =
    let next : suc (length s) - suc (suc (length t)) ≡ length s - suc (length t) = omega arith in
    rw next (ap (◌∷◌ c) h)

-- Zeros bring a trimmed text back.
trim_zeros-back : (s : List ℕ) → trim_zeros s ++ zeros (length s - length (trim_zeros s)) ≡ s
unfolding trim_zeros
trim_zeros-back [] = refl
trim_zeros-back (c ∷ s) = back_onto c s (trim_zeros s) (trim_zeros-back s)

trim_onto-IsDigit : (c : ℕ) (t : List ℕ) → IsDigit c → All IsDigit t → All IsDigit (trim_onto c t)
trim_onto-IsDigit c [] h k = elim (Bool-cases (c == b'0')) [
  | inl e ↦ rw e tt
  | inr e ↦ rw e (h, tt)
]
trim_onto-IsDigit c (d ∷ t) h k = (h, k)

trim_zeros-IsDigit : (s : List ℕ) → All IsDigit s → All IsDigit (trim_zeros s)
unfolding trim_zeros
trim_zeros-IsDigit [] h = tt
trim_zeros-IsDigit (c ∷ s) h = trim_onto-IsDigit c (trim_zeros s) h.0 (trim_zeros-IsDigit s h.1)

length-trim_onto : (c : ℕ) (t : List ℕ) → length (trim_onto c t) ≤ suc (length t)
length-trim_onto c [] = elim (Bool-cases (c == b'0')) [
  | inl e ↦ rw e (omega arith)
  | inr e ↦ rw e (omega arith)
]
length-trim_onto c (d ∷ t) = omega arith

length-trim_zeros : (s : List ℕ) → length (trim_zeros s) ≤ length s
unfolding trim_zeros
length-trim_zeros [] = omega arith
length-trim_zeros (c ∷ s) = omega (arith, length-trim_onto c (trim_zeros s), length-trim_zeros s)

-- Bytes that stay keep what stands in front of them.
trim_zeros-append :
    (s t : List ℕ) (d : ℕ) (u : List ℕ) → trim_zeros t ≡ d ∷ u → trim_zeros (s ++ t) ≡ s ++ d ∷ u
unfolding trim_zeros
trim_zeros-append [] t d u h = h
trim_zeros-append (c ∷ []) t d u h = ap (trim_onto c) h
trim_zeros-append (c ∷ e ∷ s) t d u h = ap (trim_onto c) (trim_zeros-append (e ∷ s) t d u h)

trim_zeros-dot :
    (t : List ℕ) (d : ℕ) (u : List ℕ) → trim_zeros t ≡ d ∷ u → trim_zeros (b'.' ∷ t) ≡ b'.' ∷ d ∷ u
unfolding trim_zeros
trim_zeros-dot t d u h = ap (trim_onto b'.') h

value_from-zeros : (n : ℕ) → value_from 0 (zeros n) ≡ 0
value_from-zeros zero = refl
value_from-zeros (suc n) = value_from-zeros n

List-cases : (s : List ℕ) → (s ≡ []) ⊎ ((d : ℕ) × (u : List ℕ) × (s ≡ d ∷ u))
List-cases [] = inl refl
List-cases (d ∷ u) = inr (d, u, refl)

-- The fraction keeps a digit where it is not zero.
fraction_head :
    (n : ℕ) → 0 < n → n < 1000000 → (d : ℕ) × (u : List ℕ) × (trim_zeros (six_digits n) ≡ d ∷ u)
fraction_head n p h = elim (List-cases (trim_zeros (six_digits n))) [
  | inr found ↦ found
  | inl e ↦
      let all_zeros : zeros (length (six_digits n) - 0) ≡ six_digits n =
        subst (λ t. t ++ zeros (length (six_digits n) - length t) ≡ six_digits n) e
          (trim_zeros-back (six_digits n)) in
      let none_left : value_from 0 (six_digits n) ≡ 0 =
        ap (value_from 0) (sym all_zeros) ∙ value_from-zeros (length (six_digits n) - 0) in
      absurd (omega (arith, p, six_digits-value n h, none_left))
]

-- A whole part and a fraction of the value are read as the value.
read_parts :
    (value c : ℕ) (whole fraction : List ℕ)
    → digits (suc (value / 1000000)) (value / 1000000) ≡ c ∷ whole
    → All IsDigit fraction
    → length fraction ≤ 6
    → value_from 0 (padded fraction) ≡ value % 1000000
    → 0 < value
    → value ≤ max_int64
    → cost_usd_micro (decimal (c ∷ whole) fraction) ≡ micro_usd value
read_parts value c whole fraction e more short back some_cost fits =
    let n = value / 1000000 in
    let front : value_from 0 (c ∷ whole) ≡ n =
      ap (value_from 0) (sym e) ∙ digits-value (suc n) n (omega arith) in
    let total : value_from 0 ((c ∷ whole) ++ padded fraction) ≡ value =
      value_from-append 0 (c ∷ whole) (padded fraction)
      ∙ value_from-six (value_from 0 (c ∷ whole)) (padded fraction) (length-padded fraction short)
      ∙ omega (arith, front, back) in
    cost_usd_micro-decimal c whole fraction (subst (All IsDigit) e (digits-IsDigit (suc n) n)) more
      short (omega (arith, total, some_cost)) (omega (arith, total, fits))
    ∙ ap micro_usd total

-- The text of an amount that is not zero and within Go's `int64`, as a tracker shows it, is read by
-- the configuration as the same amount.
pub cost_usd_micro-format_micro_usd :
    (value : ℕ)
    → 0 < value
    → value ≤ max_int64
    → cost_usd_micro (format_micro_usd value) ≡ micro_usd value
unfolding format_micro_usd
cost_usd_micro-format_micro_usd value some_cost fits =
    let n = value / 1000000 in
    let f = value % 1000000 in
    let (c, whole, e) = digits_head n n in
    let shown : (value == 0) ≡ false = ground (arith, some_cost) in
    elim (Bool-cases (f == 0)) [
      | inl no_fraction ↦
          let text : format_micro_usd value ≡ decimal (c ∷ whole) [] =
            rw (shown, no_fraction, format_micro_usd) e in
          ap cost_usd_micro text
          ∙ read_parts value c whole [] e tt (omega arith)
              (ground (arith, no_fraction, value_from-zeros 6)) some_cost fits
      | inr with_fraction ↦
          let (d, u, h) = fraction_head f (ground (arith, with_fraction)) (omega arith) in
          let digits_only =
            subst (All IsDigit) h (trim_zeros-IsDigit (six_digits f) (six_digits-IsDigit f)) in
          let short : length (d ∷ u) ≤ 6 =
            unfold six_digits in subst (λ t. length t ≤ 6) h (length-trim_zeros (six_digits f)) in
          let back : padded (d ∷ u) ≡ six_digits f =
            unfold six_digits in
            subst (λ t. t ++ zeros (6 - length t) ≡ six_digits f) h
              (trim_zeros-back (six_digits f)) in
          let text : format_micro_usd value ≡ decimal (c ∷ whole) (d ∷ u) =
            rw (shown, with_fraction, format_micro_usd)
              (trim_zeros-append (digits (suc n) n) (b'.' ∷ six_digits f) b'.' (d ∷ u)
                  (trim_zeros-dot (six_digits f) d u h)
                ∙ ap (λ s. s ++ b'.' ∷ d ∷ u) e) in
          ap cost_usd_micro text
          ∙ read_parts value c whole (d ∷ u) e digits_only short
              (ap (value_from 0) back ∙ six_digits-value f (omega arith)) some_cost fits
    ]
