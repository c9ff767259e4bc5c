-- ===== src/Config/Cost/Bounds.antt =====
-- An amount that is taken is positive and a Go `int64`.
use syrogo.Base.{
  ℕ, suc, ◌+◌, ◌-◌, ◌*◌, ◌/◌, ◌≤◌, ◌<◌, ◌≡◌, inl, inr, Bool, true, false, List, [], ◌∷◌, Option,
  none, some, ◌==◌, nat_eq, ltb, arith, Bool-cases, Option-cases, length,
}
use syrogo.Base.Int.{ℤ, pos, negsuc}
use syrogo.Config.Checks.{is_blank}
use syrogo.Config.Cost.{
  Cost, micro_usd, no_cost, max_int64, in_int64, read_unsigned, parse_int, sum_cost, with_fraction,
  with_whole, cost_parts, cost_usd_micro, padded, split_dots, bad_whole, refused,
}

-- What an `int64` can hold, and an amount can be.
abbrev IsInt64 : ℤ → Type 0
IsInt64 (pos n) = n ≤ max_int64
IsInt64 (negsuc n) = n ≤ max_int64

abbrev IsAmount : Cost → Type 0
IsAmount (micro_usd v) = (0 < v) × (v ≤ max_int64)
IsAmount (no_cost m) = Unit

in_int64-IsInt64 : (minus : Bool) (n : Option ℕ) (v : ℤ) → in_int64 minus n ≡ some v → IsInt64 v
in_int64-IsInt64 minus none v e = cc (e)
in_int64-IsInt64 false (some n) (pos m) e = ground (arith, e)
in_int64-IsInt64 false (some n) (negsuc m) e = ground (arith, e)
in_int64-IsInt64 true (some ℕ.zero) (pos m) e = ground (arith, e)
in_int64-IsInt64 true (some ℕ.zero) (negsuc m) e = ground (arith, e)
in_int64-IsInt64 true (some (suc n)) (pos m) e = ground (arith, e)
in_int64-IsInt64 true (some (suc n)) (negsuc m) e = ground (arith, e)

parse_int-IsInt64 : (s : List ℕ) (v : ℤ) → parse_int s ≡ some v → IsInt64 v
unfolding parse_int
parse_int-IsInt64 [] v e = cc (e)
parse_int-IsInt64 (c ∷ s) v e = elim (Bool-cases (c == b'-')) [
  | inl m ↦ in_int64-IsInt64 true (read_unsigned s) v (rw m at e)
  | inr n ↦ elim (Bool-cases (c == b'+')) [
    | inl p ↦ in_int64-IsInt64 false (read_unsigned s) v (rw (n, p) at e)
    | inr u ↦ in_int64-IsInt64 false (read_unsigned (c ∷ s)) v (rw (n, u) at e)
  ]
]

sum_cost-IsAmount : (whole : ℕ) (f : ℤ) → IsInt64 f → IsAmount (sum_cost whole f)
unfolding sum_cost
sum_cost-IsAmount whole (negsuc n) h = tt
sum_cost-IsAmount whole (pos f) h = elim (Bool-cases (ltb ((max_int64 - f) / 1000000) whole)) [
  | inl large ↦ rw (large, sum_cost) tt
  | inr fits ↦ elim (Bool-cases (whole * 1000000 + f == 0)) [
    | inl free ↦ rw (fits, free, sum_cost) tt
    | inr paid ↦ rw (fits, paid, sum_cost) (ground (arith, fits, paid), ground (arith, fits))
  ]
]

with_fraction-IsAmount : (whole : ℕ) (s : List ℕ) → IsAmount (with_fraction whole s)
unfolding with_fraction
with_fraction-IsAmount whole s = elim (Option-cases (parse_int (padded s))) [
  | inl e ↦ rw (e, with_fraction) tt
  | inr (f, e) ↦
      rw (e, with_fraction) (sum_cost-IsAmount whole f (parse_int-IsInt64 (padded s) f e))
]

with_whole-IsAmount : (whole : List ℕ) (f : Option (List ℕ)) → IsAmount (with_whole whole f)
unfolding with_whole
with_whole-IsAmount whole f = elim (Option-cases (parse_int whole)) [
  | inl e ↦ rw (e, with_whole) tt
  | inr (negsuc n, e) ↦ rw (e, with_whole) tt
  | inr (pos w, e) ↦ elim (Option-cases f) [
    | inl k ↦ rw (e, k, with_whole) (with_fraction-IsAmount w [])
    | inr (s, k) ↦ elim (Bool-cases (is_blank s)) [
      | inl b ↦ rw (e, k, b, with_whole) tt
      | inr b ↦ rw (e, k, b, with_whole) (with_fraction-IsAmount w s)
    ]
  ]
]

cost_parts-IsAmount : (parts : List (List ℕ)) → IsAmount (cost_parts parts)
unfolding cost_parts
cost_parts-IsAmount [] = tt
cost_parts-IsAmount (whole ∷ []) = elim (Bool-cases (bad_whole whole)) [
  | inl b ↦ rw (b, cost_parts) tt
  | inr b ↦ rw (b, cost_parts) (with_whole-IsAmount whole none)
]
cost_parts-IsAmount (whole ∷ fraction ∷ []) = elim (Bool-cases (bad_whole whole)) [
  | inl b ↦ rw (b, cost_parts) tt
  | inr b ↦ elim (Bool-cases (ltb 6 (length fraction))) [
    | inl l ↦ rw (b, l, cost_parts) tt
    | inr l ↦ rw (b, l, cost_parts) (with_whole-IsAmount whole (some fraction))
  ]
]
cost_parts-IsAmount (whole ∷ fraction ∷ more ∷ parts) = tt

IsAmount-value : (c : Cost) (v : ℕ) → c ≡ micro_usd v → IsAmount c → (0 < v) × (v ≤ max_int64)
IsAmount-value (micro_usd w) v e h = ground (arith, e, h)
IsAmount-value (no_cost m) v e h = cc (e)

any_cost-IsAmount : (text : List ℕ) → IsAmount (cost_usd_micro text)
unfolding cost_usd_micro
any_cost-IsAmount [] = tt
any_cost-IsAmount (c ∷ s) = elim (Bool-cases (refused (c ∷ s))) [
  | inl b ↦ rw (b, cost_usd_micro) tt
  | inr b ↦ rw (b, cost_usd_micro) (cost_parts-IsAmount (split_dots (c ∷ s)))
]

-- Every amount that is taken, of whatever text, is greater than zero and within Go's `int64`.
pub cost_usd_micro_bounds :
    (text : List ℕ) (v : ℕ) → cost_usd_micro text ≡ micro_usd v → (0 < v) × (v ≤ max_int64)
cost_usd_micro_bounds text v e = IsAmount-value (cost_usd_micro text) v e (any_cost-IsAmount text)
