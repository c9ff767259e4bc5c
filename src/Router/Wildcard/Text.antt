-- ===== src/Router/Wildcard/Text.antt =====
-- What the text tests mean: prefix, suffix, and the leftmost occurrence.
use syrogo.Base.{
  ℕ, suc, ◌≤◌, ◌≡◌, refl, ap, ◌↔◌, true, false, Bool-cases, Option-cases, inl, inr, some, [], ◌∷◌,
  ◌++◌, length, drop, arith, nat_eq,
}
use syrogo.Router.Wildcard.{Bytes, bytes_eq, has_prefix, has_suffix, index}

pub bytes_eq_iff : (a b : Bytes) → (bytes_eq a b ≡ true) ↔ (a ≡ b)
unfolding bytes_eq
bytes_eq_iff (x ∷ a) (y ∷ b) = ground (arith, bytes_eq_iff a b)
bytes_eq_iff _ _ = ground arith

pub has_prefix→split : (s p : Bytes) → has_prefix s p ≡ true → (b : Bytes) × (s ≡ p ++ b)
unfolding has_prefix
has_prefix→split s [] h = (s, refl)
has_prefix→split [] (p ∷ ps) h = cc
has_prefix→split (c ∷ s) (p ∷ ps) h =
    let (b, e) = has_prefix→split s ps (ground arith) in (b, ground arith)

pub has_prefix-append : (p b : Bytes) → has_prefix (p ++ b) p ≡ true
unfolding has_prefix
has_prefix-append [] b = refl
has_prefix-append (c ∷ p) b = ground (arith, has_prefix-append p b)

pub has_suffix→split : (s p : Bytes) → has_suffix s p ≡ true → (a : Bytes) × (s ≡ a ++ p)
unfolding has_suffix
has_suffix→split [] p h = ([], (bytes_eq_iff [] p).0 h)
has_suffix→split (c ∷ s) p h = elim (Bool-cases (bytes_eq (c ∷ s) p)) [
  | inl e ↦ ([], (bytes_eq_iff (c ∷ s) p).0 e)
  | inr e ↦ let (a, e') = has_suffix→split s p (ground arith) in (c ∷ a, ap (◌∷◌ c) e')
]

has_suffix_self : (p : Bytes) → has_suffix p p ≡ true
unfolding has_suffix
has_suffix_self [] = (bytes_eq_iff [] []).1 refl
has_suffix_self (c ∷ p) = ground (arith, bytes_eq_iff (c ∷ p) (c ∷ p))

pub has_suffix-append : (a p : Bytes) → has_suffix (a ++ p) p ≡ true
unfolding has_suffix
has_suffix-append [] p = has_suffix_self p
has_suffix-append (c ∷ a) p = ground (arith, has_suffix-append a p)

pub index→split :
    (s p : Bytes) (i : ℕ)
    → index s p ≡ some i
    → (a : Bytes) × (b : Bytes) × (s ≡ a ++ (p ++ b)) × (length a ≡ i)
unfolding index
index→split [] p i h = elim (Bool-cases (has_prefix [] p)) [
  | inl e ↦ let (b, e') = has_prefix→split [] p e in ([], b, e', ground arith)
  | inr e ↦ ground arith
]
index→split (c ∷ s) p i h = elim (Bool-cases (has_prefix (c ∷ s) p)) [
  | inl e ↦ let (b, e') = has_prefix→split (c ∷ s) p e in ([], b, e', ground arith)
  | inr e ↦ elim (Option-cases (index s p)) [
    | inl n ↦ ground arith
    | inr (j, k) ↦
        let (a, b, e', l) = index→split s p j k in (c ∷ a, b, ap (◌∷◌ c) e', ground arith)
  ]
]

index_of_prefix : (s p : Bytes) → has_prefix s p ≡ true → index s p ≡ some 0
unfolding index
index_of_prefix [] p h = ground arith
index_of_prefix (c ∷ s) p h = ground arith

index_later :
    (c : ℕ) (s p : Bytes) {j : ℕ}
    → has_prefix (c ∷ s) p ≡ false
    → index s p ≡ some j
    → index (c ∷ s) p ≡ some (suc j)
unfolding index
index_later c s p e k = ground arith

-- An occurrence is found, and none starts further left than the one that is.
pub index_leftmost : (a b p : Bytes) → (i : ℕ) × (index (a ++ (p ++ b)) p ≡ some i) × (i ≤ length a)
index_leftmost [] b p = (0, index_of_prefix (p ++ b) p (has_prefix-append p b), omega arith)
index_leftmost (c ∷ a) b p = elim (Bool-cases (has_prefix (c ∷ (a ++ (p ++ b))) p)) [
  | inl e ↦ (0, index_of_prefix (c ∷ (a ++ (p ++ b))) p e, omega arith)
  | inr e ↦
      let (j, k, l) = index_leftmost a b p in
      (suc j, index_later c (a ++ (p ++ b)) p e k, omega arith)
]

-- Of two splits of one text, the one with the shorter front has the longer rest.
pub longer_rest :
    (q b' p b : Bytes) → q ++ b' ≡ p ++ b → length q ≤ length p → (x : Bytes) × (b' ≡ x ++ b)
longer_rest [] b' p b e h = (p, e)
longer_rest (c ∷ q) b' [] b e h = absurd (omega arith)
longer_rest (c ∷ q) b' (d ∷ p) b e h = longer_rest q b' p b (cc) (omega arith)

pub drop-append : (p b : Bytes) → drop (length p) (p ++ b) ≡ b
drop-append [] b = refl
drop-append (c ∷ p) b = drop-append p b
