-- ===== src/Router/Order/Fairness.antt =====
-- Round robin: which outbound comes first in consecutive plans.
use mathlib.Core.List.{Perm, perm_append_comm}
use native.Mathlib.Nat.{mod-eq_of_lt, add-zero, mod_self, mod-lt, mod-add-mod}
use mathlib.Core.List.Perm
use syrogo.Base.{
  ℕ, zero, suc, ◌+◌, ◌-◌, ◌%◌, ◌≤◌, ◌<◌, ◌≡◌, ◌≢◌, refl, sym, ap, ◌∙◌, String, inl, inr, List, [],
  ◌∷◌, ◌++◌, length, take, drop, length-drop, take-append-drop, arith, Bool-cases, ◌==◌, nat_eq,
  text_eq, eq_iff, append-nil, append_assoc,
}
use syrogo.Base.Map.{Map, insert, lookup-insert}
use syrogo.Router.Order.{rotate, position, next_round_robin_index}

pub next_index :
    (m : Map String ℕ) (key : String) (n : ℕ)
    → 0 < n
    → next_round_robin_index m key n
      ≡ (position key m % n, insert key ((position key m % n + 1) % n) m)
unfolding next_round_robin_index
next_index m key n h = ground arith

pub position-insert : (key : String) (i : ℕ) (m : Map String ℕ) → position key (insert key i m) ≡ i
unfolding position
position-insert key i m = ground (arith, lookup-insert key key i m, eq_iff key key)

pub position-insert_ne :
    (key other : String) (i : ℕ) (m : Map String ℕ)
    → key ≢ other
    → position other (insert key i m) ≡ position other m
unfolding position
position-insert_ne key other i m n = ground (arith, lookup-insert key other i m, eq_iff key other)

module _ {ℓ} {A : Type ℓ} where
  pub rotate-perm : (xs : List A) (i : ℕ) → Perm (rotate xs i) xs
  unfolding rotate
  rotate-perm [] i = Perm.refl []
  rotate-perm (x ∷ xs) i = elim (Bool-cases ((i % length (x ∷ xs)) == 0)) [
    | inl h ↦ rw h (Perm.refl _)
    | inr h ↦ rw h (
        let j : ℕ = i % length (x ∷ xs) in
        Perm.trans (perm_append_comm (drop j (x ∷ xs)) (take j (x ∷ xs)))
          (rw (take-append-drop j (x ∷ xs)) (Perm.refl _)))
  ]

  -- A position in range is where the rotation cuts the list.
  pub rotate_cut : (xs : List A) (i : ℕ) → i < length xs → rotate xs i ≡ drop i xs ++ take i xs
  unfolding rotate
  rotate_cut [] i h = elim h [ ]
  rotate_cut (x ∷ xs) zero h = rw (mod-eq_of_lt h) (sym (ap (◌∷◌ x) (append-nil xs)))
  rotate_cut (x ∷ xs) (suc i) h = rw (mod-eq_of_lt h) (ground arith)

  take_all : (k : ℕ) (xs : List A) → length xs ≤ k → take k xs ≡ xs
  take_all zero [] h = refl
  take_all zero (x ∷ xs) h = absurd (omega arith)
  take_all (suc k) [] h = refl
  take_all (suc k) (x ∷ xs) h = ap (◌∷◌ x) (take_all k xs (omega arith))

  -- The first elements of `k` rotations, from position `s` on.
  firsts_at : ℕ → List A → ℕ → List A
  firsts_at zero xs s = []
  firsts_at (suc k) xs s = take 1 (rotate xs s) ++ firsts_at k xs ((s + 1) % length xs)

  take_one-drop :
      (xs : List A) (s k : ℕ)
      → s < length xs
      → take 1 (drop s xs) ++ take k (drop (suc s) xs) ≡ take (suc k) (drop s xs)
  take_one-drop [] s k h = elim h [ ]
  take_one-drop (x ∷ xs) zero k h = refl
  take_one-drop (x ∷ xs) (suc s) k h = take_one-drop xs s k (omega arith)

  take_one-append : (xs ys : List A) → 0 < length xs → take 1 (xs ++ ys) ≡ take 1 xs
  take_one-append [] ys h = elim h [ ]
  take_one-append (x ∷ xs) ys h = refl

  take_one-rotate :
      (xs : List A) (s : ℕ) → s < length xs → take 1 (rotate xs s) ≡ take 1 (drop s xs)
  take_one-rotate xs s h =
      rw (rotate_cut xs s h)
        (take_one-append (drop s xs) (take s xs) (omega (arith, length-drop s xs)))

  -- Up to the end of the list they are the elements of a segment.
  firsts_at_segment :
      (k : ℕ) (xs : List A) (s : ℕ) → s + k ≤ length xs → firsts_at k xs s ≡ take k (drop s xs)
  unfolding firsts_at
  firsts_at_segment zero xs s h = refl
  firsts_at_segment (suc zero) xs s h = rw append-nil (take_one-rotate xs s (omega arith))
  firsts_at_segment (suc (suc k)) xs s h =
      let next : (s + 1) % length xs ≡ suc s = mod-eq_of_lt (omega arith) ∙ omega arith in
      rw (take_one-rotate xs s (omega arith)) (
        rw next (
          rw (firsts_at_segment (suc k) xs (suc s) (omega arith))
            (take_one-drop xs s (suc k) (omega arith))))

  firsts_at-add :
      (a b : ℕ) (xs : List A) (s : ℕ)
      → s < length xs
      → firsts_at (a + b) xs s ≡ firsts_at a xs s ++ firsts_at b xs ((s + a) % length xs)
  unfolding firsts_at
  firsts_at-add zero b xs s h =
      let e1 : zero + b ≡ b = omega arith in
      let e2 : (s + zero) % length xs ≡ s = ap (λ n. n % length xs) (add-zero s) ∙ mod-eq_of_lt h in
      rw (e1, e2) refl
  firsts_at-add (suc a) b xs s h =
      let n : ℕ = length xs in
      let e1 : suc a + b ≡ suc (a + b) = omega arith in
      let e2 : ((s + 1) % n + a) % n ≡ (s + suc a) % n =
        mod-add-mod (s + 1) n a ∙ ap (λ m. m % n) (omega arith) in
      let ih = firsts_at-add a b xs ((s + 1) % n) (mod-lt (s + 1) (omega arith)) in
      rw (e1, firsts_at) (rw (ih, e2) (sym (append_assoc (take 1 (rotate xs s)) _ _)))

  -- A full round meets every element once, in the order of the list.
  firsts_at_round : (xs : List A) (s : ℕ) → s < length xs → firsts_at (length xs) xs s ≡ rotate xs s
  firsts_at_round xs s h =
      let n : ℕ = length xs in
      let e1 : n ≡ (n - s) + s = omega arith in
      let e2 : (s + (n - s)) % n ≡ 0 = ap (λ m. m % n) (omega arith) ∙ mod_self n in
      let front : firsts_at (n - s) xs s ≡ drop s xs =
        firsts_at_segment (n - s) xs s (omega arith)
        ∙ take_all (n - s) (drop s xs) (omega (arith, length-drop s xs)) in
      ap (λ k. firsts_at k xs s) e1
      ∙ firsts_at-add (n - s) s xs s h
      ∙ rw (front, e2) (rw (firsts_at_segment s xs 0 (omega arith)) (sym (rotate_cut xs s h)))

  -- The first elements of the rotations that `k` calls of `nextRoundRobinIndex` ask for.
  unfoldable pub firsts : ℕ → List A → String → Map String ℕ → List A
  firsts zero xs key m = []
  firsts (suc k) xs key m =
      take 1 (rotate xs (next_round_robin_index m key (length xs)).0)
      ++ firsts k xs key (next_round_robin_index m key (length xs)).1

  firsts-firsts_at :
      (k : ℕ) (xs : List A) (key : String) (m : Map String ℕ)
      → 0 < length xs
      → firsts k xs key m ≡ firsts_at k xs (position key m % length xs)
  unfolding firsts firsts_at
  firsts-firsts_at zero xs key m h = refl
  firsts-firsts_at (suc k) xs key m h =
      let n : ℕ = length xs in
      let i : ℕ = position key m % n in
      let m' : Map String ℕ = insert key ((i + 1) % n) m in
      let call : next_round_robin_index m key n ≡ (i, m') = next_index m key n h in
      let back : position key m' ≡ (i + 1) % n = position-insert key ((i + 1) % n) m in
      rw (call, firsts-firsts_at k xs key m' h, back) (rw (mod-eq_of_lt (mod-lt (i + 1) h)) refl)

  -- A full round of calls meets every element once, from the kept position on.
  pub firsts_round :
      (xs : List A) (key : String) (m : Map String ℕ)
      → 0 < length xs
      → firsts (length xs) xs key m ≡ rotate xs (position key m % length xs)
  firsts_round xs key m h =
      firsts-firsts_at (length xs) xs key m h
      ∙ firsts_at_round xs (position key m % length xs) (mod-lt (position key m) h)
