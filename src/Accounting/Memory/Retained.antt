-- ===== src/Accounting/Memory/Retained.antt =====
-- Which records the store still has one by one.
use syrogo.Base.{
  drop-nil, drop-drop, subst, ℕ, zero, suc, ◌+◌, ◌-◌, ◌≤◌, ◌≡◌, refl, sym, ap, ◌∙◌, inl, inr, Bool,
  not, ◌||◌, List, [], ◌∷◌, ◌++◌, append-nil, append_assoc, arith, Bool-cases, if◌then◌else◌, ◌==◌,
  nat_eq, ltb, length, take, drop, keep_if, length-append, length-drop,
}
use syrogo.Runtime.{UsageRecord}
use syrogo.Quota.Events.Bounded.{last, drop-append}
use syrogo.Accounting.Pricing.{backwards}
use syrogo.Accounting.Memory.{
  UsageLib, MemoryStore, default_recent_records_limit, apply_record, record_usage, record_time,
  new_memory_store,
}
use syrogo.Accounting.Memory.Queries.{recent_records}
use syrogo.Accounting.Memory.Totals.{record_usages}

module _ {ℓ} {A : Type ℓ} where
  take-nil : (n : ℕ) → take {A = A} n [] ≡ []
  take-nil zero = refl
  take-nil (suc n) = refl

  -- The last elements of a list come from its last elements.
  last-last :
      (n : ℕ) (seen : List A) (x : A) → last n (last n seen ++ x ∷ []) ≡ last n (seen ++ x ∷ [])
  last-last n seen x =
      let k = length seen - n in
      let whole : drop k seen ++ x ∷ [] ≡ drop k (seen ++ x ∷ []) =
        sym (drop-append k seen (x ∷ []) (omega arith)) in
      let m = length (last n seen ++ x ∷ []) - n in
      let at : k + m ≡ length (seen ++ x ∷ []) - n = omega (
        arith,
        length-append (drop k seen) (x ∷ []),
        length-append seen (x ∷ []),
        length-drop k seen,
      ) in
      ap (drop m) whole ∙ drop-drop m k (seen ++ x ∷ []) ∙ ap (λ j. drop j (seen ++ x ∷ [])) at

  last-all : (n : ℕ) (xs : List A) → length xs ≤ n → last n xs ≡ xs
  last-all n xs h = let e : length xs - n ≡ 0 = omega (arith, h) in rw e refl

  take-all : (n : ℕ) (xs : List A) → length xs ≤ n → take n xs ≡ xs
  take-all zero [] h = refl
  take-all zero (x ∷ xs) h = ground (arith, h)
  take-all (suc n) [] h = refl
  take-all (suc n) (x ∷ xs) h = rw (take-all n xs (omega (arith, h))) refl

  take-append : (n : ℕ) (xs ys : List A) → n ≤ length xs → take n (xs ++ ys) ≡ take n xs
  take-append zero xs ys h = refl
  take-append (suc n) [] ys h = ground (arith, h)
  take-append (suc n) (x ∷ xs) ys h = rw (take-append n xs ys (omega (arith, h))) refl

  length-backwards : (xs : List A) → length (backwards xs) ≡ length xs
  length-backwards [] = refl
  length-backwards (x ∷ xs) =
      omega (arith, length-append (backwards xs) (x ∷ []), length-backwards xs)

  backwards-append : (xs : List A) (x : A) → backwards (xs ++ x ∷ []) ≡ x ∷ backwards xs
  backwards-append [] x = refl
  backwards-append (y ∷ xs) x = rw (backwards-append xs x) refl

  backwards-backwards : (xs : List A) → backwards (backwards xs) ≡ xs
  backwards-backwards [] = refl
  backwards-backwards (x ∷ xs) =
      backwards-append (backwards xs) x ∙ ap (◌∷◌ x) (backwards-backwards xs)

  take-backwards : (n : ℕ) (xs : List A) → take n (backwards xs) ≡ backwards (last n xs)
  take-backwards n [] = take-nil n ∙ ap backwards (sym (drop-nil (0 - n)))
  take-backwards n (x ∷ xs) = elim (Bool-cases (ltb (length xs) n)) [
    | inl e ↦
        take-all n (backwards xs ++ x ∷ []) (ground (arith, e, length-backwards (x ∷ xs)))
        ∙ ap backwards (sym (last-all n (x ∷ xs) (ground (arith, e))))
    | inr e ↦
        let next : suc (length xs) - n ≡ suc (length xs - n) = ground (arith, e) in
        take-append n (backwards xs) (x ∷ []) (ground (arith, e, length-backwards xs))
        ∙ take-backwards n xs
        ∙ ap backwards (sym (ap (λ k. drop k (x ∷ xs)) next))
  ]

  keep_if-append :
      (p : A → Bool) (xs ys : List A) → keep_if p (xs ++ ys) ≡ keep_if p xs ++ keep_if p ys
  keep_if-append p [] ys = refl
  keep_if-append p (x ∷ xs) ys = ground (arith, keep_if-append p xs ys)

  keep_if-backwards :
      (p : A → Bool) (xs : List A) → keep_if p (backwards xs) ≡ backwards (keep_if p xs)
  keep_if-backwards p [] = refl
  keep_if-backwards p (x ∷ xs) =
      keep_if-append p (backwards xs) (x ∷ []) ∙ elim (Bool-cases (p x)) [
        | inl e ↦ rw e (ap (λ ys. ys ++ x ∷ []) (keep_if-backwards p xs))
        | inr e ↦ rw e (append-nil (keep_if p (backwards xs)) ∙ keep_if-backwards p xs)
      ]

  length-keep_if : (p : A → Bool) (xs : List A) → length (keep_if p xs) ≤ length xs
  length-keep_if p [] = omega arith
  length-keep_if p (x ∷ xs) = ground (arith, length-keep_if p xs)

module _ (lib : UsageLib) where
  record_usages-recent :
      (records seen : List UsageRecord) (s : MemoryStore)
      → s.recent ≡ last default_recent_records_limit seen
      → (record_usages lib records s).recent ≡ last default_recent_records_limit (seen ++ records)
  unfolding record_usages
  record_usages-recent [] seen s h =
      h ∙ ap (last default_recent_records_limit) (sym (append-nil seen))
  record_usages-recent (r ∷ records) seen s h =
      let next : (record_usage lib r s).recent
          ≡ last default_recent_records_limit (seen ++ r ∷ []) =
        unfold record_usage in
        unfold apply_record in
        ap (λ xs. last default_recent_records_limit (xs ++ r ∷ [])) h
        ∙ last-last default_recent_records_limit seen r in
      record_usages-recent records (seen ++ r ∷ []) (record_usage lib r s) next
      ∙ ap (last default_recent_records_limit) (append_assoc seen (r ∷ []) records)

-- The loop of the filter, which runs backwards, takes the last records that pass it.
taken-last :
    {A : Type 0} (p : A → Bool) (n bound : ℕ) (xs : List A)
    → length xs ≤ bound
    → backwards
        (take (if n == 0 || ltb (length xs) n then length xs else n) (keep_if p (backwards xs)))
      ≡ last (if n == 0 then bound else n) (keep_if p xs)
taken-last p n bound xs h =
    let c : ℕ = if n == 0 || ltb (length xs) n then length xs else n in
    let kept = keep_if p xs in
    let size = length-keep_if p xs in
    ap (λ ys. backwards (take c ys)) (keep_if-backwards p xs)
    ∙ ap backwards (take-backwards c kept)
    ∙ backwards-backwards (last c kept)
    ∙ elim (Bool-cases (n == 0 || ltb (length xs) n)) [
      | inl e ↦
          last-all c kept (ground (arith, e, size))
          ∙ sym (last-all (if n == 0 then bound else n) kept (ground (arith, e, size, h)))
      | inr e ↦
          let same : c ≡ (if n == 0 then bound else n) = ground (arith, e) in
          ap (λ k. last k kept) same
    ]

-- After any records, a new store answers `RecentRecords` with those of the last 10000 that are not
-- before the given time, in their order, and of these with the last ones up to the given limit, where
-- a zero time and a limit of 0 mean none.
pub recent_records-last :
    (lib : UsageLib) (started : ℕ) (known : Bool) (records : List UsageRecord) (since limit : ℕ)
    → recent_records lib (record_usages lib records (new_memory_store started known)) since limit
      ≡ last (if limit == 0 then default_recent_records_limit else limit) (
          keep_if
            (λ r. since == 0 || not (ltb (record_time lib r) since))
            (last default_recent_records_limit records))
unfolding recent_records
recent_records-last lib started known records since limit =
    let s = record_usages lib records (new_memory_store started known) in
    let p : UsageRecord → Bool = λ r. since == 0 || not (ltb (record_time lib r) since) in
    let left : s.recent ≡ last default_recent_records_limit records =
      record_usages-recent lib records [] (new_memory_store started known)
        (unfold new_memory_store in sym (drop-nil (0 - default_recent_records_limit))) in
    let size : length s.recent ≤ default_recent_records_limit =
      subst (λ xs. length xs ≤ default_recent_records_limit) (sym left)
        (omega (arith, length-drop (length records - default_recent_records_limit) records)) in
    taken-last p limit default_recent_records_limit s.recent size
    ∙ ap (λ xs. last (if limit == 0 then default_recent_records_limit else limit) (keep_if p xs))
        left
