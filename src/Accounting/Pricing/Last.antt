-- ===== src/Accounting/Pricing/Last.antt =====
-- Which of the items `matchExact` finds.
use syrogo.Base.{
  ◌≡◌, refl, ap, ◌∙◌, inl, inr, Bool, ◌&&◌, List, [], ◌∷◌, ◌++◌, Option, none, some, if◌then◌else◌,
  Bool-cases, is_nil,
}
use syrogo.Router.Wildcard.{Bytes, bytes_eq}
use syrogo.Accounting.Pricing.{
  CostLib, AccountingPrice, backwards, is_blank, match_scan, match_exact,
}

-- The first or the last element with a property, and a second choice.
module _ {ℓ} {A : Type ℓ} where
  abbrev pub first_of : (A → Bool) → List A → Option A
  first_of q [] = none
  first_of q (x ∷ xs) = if q x then some x else first_of q xs

  abbrev pub or_else : Option A → Option A → Option A
  or_else none o = o
  or_else (some x) o = some x

  abbrev pub last_of : (A → Bool) → List A → Option A
  last_of q [] = none
  last_of q (x ∷ xs) = or_else (last_of q xs) (if q x then some x else none)

  first_of-append :
      (q : A → Bool) (xs ys : List A)
      → first_of q (xs ++ ys) ≡ or_else (first_of q xs) (first_of q ys)
  first_of-append q [] ys = refl
  first_of-append q (x ∷ xs) ys = elim (Bool-cases (q x)) [
    | inl h ↦ rw h refl
    | inr h ↦ rw h (first_of-append q xs ys)
  ]

  first_of-backwards : (q : A → Bool) (xs : List A) → first_of q (backwards xs) ≡ last_of q xs
  first_of-backwards q [] = refl
  first_of-backwards q (x ∷ xs) =
      first_of-append q (backwards xs) (x ∷ [])
      ∙ ap (λ o. or_else o (if q x then some x else none)) (first_of-backwards q xs)

module _ (lib : CostLib) (provider model : Bytes) where
  -- An item for the model of the provider, and one for the model of any provider.
  abbrev pub is_exact : AccountingPrice lib → Bool
  is_exact item = bytes_eq item.model model && bytes_eq item.provider provider

  abbrev pub is_general : AccountingPrice lib → Bool
  is_general item = bytes_eq item.model model && is_blank item.provider

  match_scan-first_of :
      (items : List (AccountingPrice lib)) (only : Option (AccountingPrice lib))
      → match_scan lib provider model only items
        ≡ or_else (first_of is_exact items) (or_else only (first_of is_general items))
  unfolding match_scan
  match_scan-first_of [] none = refl
  match_scan-first_of [] (some o) = refl
  match_scan-first_of (item ∷ items) only = elim (Bool-cases (bytes_eq item.model model)) [
    | inr h ↦ rw h (match_scan-first_of items only)
    | inl h ↦ elim (Bool-cases (bytes_eq item.provider provider)) [
      | inl k ↦ rw (h, k) refl
      | inr k ↦ rw (h, k) (second item items only (λ o. match_scan-first_of items o))
    ]
  ]
    where
      second :
          (item : AccountingPrice lib) (items : List (AccountingPrice lib))
          (only : Option (AccountingPrice lib))
          → ((o : Option (AccountingPrice lib))
              → match_scan lib provider model o items
                ≡ or_else (first_of is_exact items) (or_else o (first_of is_general items)))
          → match_scan lib provider model
              (if is_blank item.provider && is_nil only then some item else only)
              items
            ≡ or_else (first_of is_exact items) (
                or_else only
                  (if is_blank item.provider then some item else first_of is_general items))
      second item items none rest = elim (Bool-cases (is_blank item.provider)) [
        | inl b ↦ rw b (rest (some item))
        | inr b ↦ rw b (rest none)
      ]
      second item items (some o) rest = elim (Bool-cases (is_blank item.provider)) [
        | inl b ↦ rw b (rest (some o))
        | inr b ↦ rw b (rest (some o))
      ]

-- The price found is that of the last item for the model of the provider, and where there is none
-- that of the last item for the model of no particular provider.
pub match_exact-last_of :
    (lib : CostLib) (items : List (AccountingPrice lib)) (provider model : Bytes)
    → match_exact lib items provider model
      ≡ or_else
          (last_of (is_exact lib provider model) items)
          (last_of (is_general lib provider model) items)
unfolding match_exact
match_exact-last_of lib items provider model =
    match_scan-first_of lib provider model (backwards items) none
    ∙ rw
        (
          first_of-backwards (is_exact lib provider model) items,
          first_of-backwards (is_general lib provider model) items,
        )
        refl
