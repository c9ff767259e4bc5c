-- ===== src/Base/Sort.antt =====
-- `sort.Slice` and `sort.SliceStable`, as insertion behind the elements that are not greater.
use Prim.Native.Nat.{Ordering}
use Prim.Native.String.{String, compare}
use mathlib.Core.Bool.{Bool, true, false}
use mathlib.Core.Logic.{inl, inr}
use mathlib.Core.List.{List, [], ◌∷◌, ◌++◌, append-nil, Perm, perm_middle}
use mathlib.Core.List.Perm
use syrogo.Base.Bools.{if◌then◌else◌, Bool-cases}

abbrev pub text_less : String → String → Bool
text_less s t = elim (compare s t) [ Ordering.lt ↦ true | _ ↦ false ]

module _ {ℓ} {A : Type ℓ} (less : A → A → Bool) where
  unfoldable pub insert_by : A → List A → List A
  insert_by a [] = a ∷ []
  insert_by a (b ∷ bs) = if less a b then a ∷ b ∷ bs else b ∷ insert_by a bs

  -- Stable: an element goes in front of those that stood behind it only where it is less.
  unfoldable pub sort_onto : List A → List A → List A
  unfolding insert_by
  sort_onto sorted [] = sorted
  sort_onto sorted (a ∷ as') = sort_onto (insert_by a sorted) as'

  unfoldable pub sort_by : List A → List A
  unfolding sort_onto
  sort_by = sort_onto []

  insert_by-perm : (a : A) (bs : List A) → Perm (insert_by a bs) (a ∷ bs)
  unfolding insert_by
  insert_by-perm a [] = Perm.refl _
  insert_by-perm a (b ∷ bs) = elim (Bool-cases (less a b)) [
    | inl e ↦ rw e (Perm.refl _)
    | inr e ↦ rw e (Perm.trans (Perm.cons b (insert_by-perm a bs)) (Perm.swap a b bs))
  ]

  sort_onto-perm : (as' sorted : List A) → Perm (sort_onto sorted as') (sorted ++ as')
  unfolding sort_onto
  sort_onto-perm [] sorted = rw (append-nil sorted) (Perm.refl _)
  sort_onto-perm (a ∷ as') sorted = Perm.trans (sort_onto-perm as' (insert_by a sorted)) (
      Perm.trans (Perm.append (insert_by-perm a sorted) (Perm.refl as'))
        (Perm.symm (perm_middle sorted as')))

  pub sort_by-perm : (as' : List A) → Perm (sort_by as') as'
  unfolding sort_by
  sort_by-perm as' = sort_onto-perm as' []
