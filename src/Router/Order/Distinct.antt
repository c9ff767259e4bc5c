-- ===== src/Router/Order/Distinct.antt =====
-- `dedupePreserveOrder` keeps each value once, where it stands first.
use syrogo.Base.{
  ◌≡◌, refl, String, false, not, ◌&&◌, ◌||◌, List, [], ◌∷◌, ◌++◌, take, arith, Bool-cases, inl, inr,
  text_eq, eq_iff,
}
use syrogo.Router.Order.{contains, dedupe_seen, dedupe_preserve_order}

-- No value occurs twice.
abbrev pub Distinct : List String → Type 0
Distinct [] = Unit
Distinct (x ∷ xs) = (contains xs x ≡ false) × Distinct xs

contains-dedupe_seen :
    (seen values : List String) (x : String)
    → contains (dedupe_seen seen values) x ≡ (contains values x && not (contains seen x))
unfolding dedupe_seen
contains-dedupe_seen seen [] x = refl
contains-dedupe_seen seen (v ∷ values) x = elim (Bool-cases (contains seen v)) [
  | inl h ↦ rw (h, dedupe_seen) (ground (arith, contains-dedupe_seen seen values x, eq_iff v x, h))
  | inr h ↦
      rw (h, dedupe_seen) (ground (arith, contains-dedupe_seen (v ∷ seen) values x, eq_iff v x, h))
]

dedupe_seen-Distinct : (seen values : List String) → Distinct (dedupe_seen seen values)
unfolding dedupe_seen
dedupe_seen-Distinct seen [] = tt
dedupe_seen-Distinct seen (v ∷ values) = elim (Bool-cases (contains seen v)) [
  | inl h ↦ rw (h, dedupe_seen) (dedupe_seen-Distinct seen values)
  | inr h ↦
      rw (h, dedupe_seen)
        (
          ground (arith, contains-dedupe_seen (v ∷ seen) values v, eq_iff v v),
          dedupe_seen-Distinct (v ∷ seen) values,
        )
]

pub dedupe-Distinct : (values : List String) → Distinct (dedupe_preserve_order values)
unfolding dedupe_preserve_order
dedupe-Distinct values = dedupe_seen-Distinct [] values

pub contains-dedupe :
    (values : List String) (x : String)
    → contains (dedupe_preserve_order values) x ≡ contains values x
unfolding dedupe_preserve_order
contains-dedupe values x = ground (arith, contains-dedupe_seen [] values x)

pub take_one-dedupe : (values : List String) → take 1 (dedupe_preserve_order values) ≡ take 1 values
unfolding dedupe_preserve_order dedupe_seen
take_one-dedupe [] = refl
take_one-dedupe (v ∷ values) = refl

pub contains-append :
    (xs ys : List String) (x : String) → contains (xs ++ ys) x ≡ (contains xs x || contains ys x)
contains-append [] ys x = refl
contains-append (y ∷ xs) ys x = ground (arith, contains-append xs ys x)
