-- ===== src/Base/Map.antt =====
-- A Go map as an association list: a write replaces in place or adds behind, and the order of
-- the list is the order in which a `range` over the map meets the keys.
use mathlib.Core.Path.{◌≡◌, refl, sym, ap, ◌∙◌, subst}
use mathlib.Core.Logic.{inl, inr}
use mathlib.Core.Bool.{true}
use mathlib.Core.Option.{Option, none, some}
use mathlib.Core.List.{List, [], ◌∷◌}
use native.Mathlib.Omega.{arith}
use syrogo.Base.Bools.{Comparable, ◌==◌, if◌then◌else◌, Bool-cases}

abbrev pub Map {ℓ κ} : Type ℓ → Type κ → Type (ℓ ⊔ κ)
Map K V = List (K × V)

module _ {ℓ κ} {K : Type ℓ} {V : Type κ} ⦃e : Comparable K⦄ where
  unfoldable pub lookup : K → Map K V → Option V
  lookup key [] = none
  lookup key (entry ∷ entries) = if entry.0 == key then some entry.1 else lookup key entries

  unfoldable pub erase : K → Map K V → Map K V
  erase key [] = []
  erase key (entry ∷ entries) =
      if entry.0 == key then erase key entries else entry ∷ erase key entries

  pub lookup-erase :
      (gone key : K) (entries : Map K V)
      → lookup key (erase gone entries) ≡ (if gone == key then none else lookup key entries)
  unfolding lookup erase
  lookup-erase gone key [] = ground arith
  lookup-erase gone key ((at, value) ∷ entries) = ground (
    arith,
    lookup-erase gone key entries,
    e.equals_iff gone key,
    e.equals_iff at gone,
    e.equals_iff at key,
  )

  unfoldable pub insert : K → V → Map K V → Map K V
  insert key value [] = (key, value) ∷ []
  insert key value (entry ∷ entries) =
      if entry.0 == key then (key, value) ∷ entries else entry ∷ insert key value entries

  pub lookup-insert :
      (put key : K) (value : V) (entries : Map K V)
      → lookup key (insert put value entries)
        ≡ (if put == key then some value else lookup key entries)
  unfolding lookup insert
  lookup-insert put key value [] = refl
  lookup-insert put key value ((at, old) ∷ entries) = ground (
    arith,
    lookup-insert put key value entries,
    e.equals_iff put key,
    e.equals_iff at put,
    e.equals_iff at key,
  )

pub equals_refl {ℓ} : {K : Type ℓ} ⦃e : Comparable K⦄ (k : K) → (k == k) ≡ true
equals_refl ⦃e⦄ k = (e.equals_iff k k).1 refl

module _ {ℓ κ} {K : Type ℓ} {V : Type κ} ⦃e : Comparable K⦄ where
  pub lookup-insert_same : (k : K) (v : V) (m : Map K V) → lookup k (insert k v m) ≡ some v
  lookup-insert_same k v m = ground (arith, equals_refl k, lookup-insert ⦃e = e⦄ k k v m)

pub some_inj {ℓ} : {A : Type ℓ} {a b : A} → some a ≡ some b → a ≡ b
some_inj {a} e = ap (λ o. elim o [ none ↦ a | some x ↦ x ]) e

module _ {ℓ κ μ} {K : Type ℓ} {V : Type κ} ⦃e : Comparable K⦄ (P : V → Type μ) where
  -- Each value that a key finds satisfies a predicate.
  abbrev pub Every : Map K V → Type (ℓ ⊔ κ ⊔ μ)
  Every m = (k : K) (v : V) → lookup k m ≡ some v → P v

  pub Every-insert : (k : K) (v : V) (m : Map K V) → Every m → P v → Every (insert k v m)
  Every-insert k v m all h j w found = elim (Bool-cases (k == j)) [
    | inl same ↦ subst P (some_inj (rw same at (sym (lookup-insert k j v m) ∙ found))) h
    | inr other ↦ all j w (rw other at (sym (lookup-insert k j v m) ∙ found))
  ]
