-- ===== src/Accounting/Memory/Conserved.antt =====
-- The groups of a query over all time add up to the records.
use syrogo.Base.{
  subst, ℕ, ◌+◌, ◌≡◌, refl, ap, ◌∙◌, inl, inr, String, Bool, true, List, [], ◌∷◌, arith, Bool-cases,
  ◌==◌, text_eq, nat_eq, eq_iff, is_empty,
}
use syrogo.Base.Map.{lookup, insert}
use syrogo.Base.Sort.{insert_by, sort_onto, sort_by}
use syrogo.Runtime.{UsageRecord}
use syrogo.Router.Order.{contains}
use syrogo.Accounting.Memory.{
  UsageLib, StatsItem, Group, MemoryStore, empty_item, usage_group_bys, group_at, item_at,
  usage_group_value, apply_to_item, apply_to_group, record_usage, request_count_of, is_success,
  new_memory_store,
}
use syrogo.Accounting.Memory.Queries.{
  Query, items, values, sorted_items, query, query_defaulted, query_supported,
}
use syrogo.Accounting.Memory.Totals.{record_usages, record_usage-group}

-- The sum of a count over a list.
abbrev pub sum_by {ℓ} : {A : Type ℓ} → (A → ℕ) → List A → ℕ
sum_by f [] = 0
sum_by f (x ∷ xs) = f x + sum_by f xs

sum_by_plus {ℓ} :
    {A : Type ℓ} (f g : A → ℕ) (xs : List A)
    → sum_by f xs + sum_by g xs ≡ sum_by (λ x. f x + g x) xs
sum_by_plus f g [] = refl
sum_by_plus f g (x ∷ xs) = omega (arith, sum_by_plus f g xs)

module _ {ℓ} {A : Type ℓ} (f : A → ℕ) (less : A → A → Bool) where
  sum_by-insert_by : (a : A) (bs : List A) → sum_by f (insert_by less a bs) ≡ f a + sum_by f bs
  unfolding insert_by
  sum_by-insert_by a [] = refl
  sum_by-insert_by a (b ∷ bs) = ground (arith, sum_by-insert_by a bs)

  sum_by-sort_onto :
      (sorted as' : List A) → sum_by f (sort_onto less sorted as') ≡ sum_by f sorted + sum_by f as'
  unfolding sort_onto
  sum_by-sort_onto sorted [] = omega arith
  sum_by-sort_onto sorted (a ∷ as') =
      omega (arith, sum_by-insert_by a sorted, sum_by-sort_onto (insert_by less a sorted) as')

  -- Sorting keeps a sum.
  sum_by-sort_by : (as' : List A) → sum_by f (sort_by less as') ≡ sum_by f as'
  unfolding sort_by
  sum_by-sort_by as' = omega (arith, sum_by-sort_onto [] as')

module _ (f : StatsItem → ℕ) (zero_at : f empty_item ≡ 0) where
  sum_by-insert :
      (v : String) (i : StatsItem) (group : Group)
      → sum_by f (values (insert v i group)) + f (item_at v group) ≡ sum_by f (values group) + f i
  unfolding insert lookup
  sum_by-insert v i [] = omega (arith, zero_at)
  sum_by-insert v i ((key, x) ∷ group) = elim (Bool-cases (key == v)) [
    | inl e ↦ rw e (omega arith)
    | inr e ↦ rw e (omega (arith, sum_by-insert v i group))
  ]

  -- A count that each record raises by its weight.
  module _ (lib : UsageLib) (weight : UsageRecord → ℕ)
      (raised : (v : String) (r : UsageRecord) (i : StatsItem)
        → f (apply_to_item lib v r i) ≡ f i + weight r) where
    sum_by-apply :
        (v : String) (r : UsageRecord) (group : Group)
        → sum_by f (values (apply_to_group lib v r group)) ≡ sum_by f (values group) + weight r
    unfolding apply_to_group
    sum_by-apply v r group = omega (
      arith,
      sum_by-insert v (apply_to_item lib v r (item_at v group)) group,
      raised v r (item_at v group),
    )

    sum_by-records :
        (records : List UsageRecord) (s : MemoryStore) (group : String)
        → contains usage_group_bys group ≡ true
        → sum_by f (values (group_at group (record_usages lib records s).totals))
          ≡ sum_by f (values (group_at group s.totals)) + sum_by weight records
    unfolding record_usages
    sum_by-records [] s group h = omega arith
    sum_by-records (r ∷ records) s group h =
        let one : sum_by f (values (group_at group (record_usage lib r s).totals))
            ≡ sum_by f (values (group_at group s.totals)) + weight r =
          ap (λ g. sum_by f (values g)) (record_usage-group lib r s group h)
          ∙ sum_by-apply (usage_group_value lib r group) r (group_at group s.totals) in
        omega (arith, one, sum_by-records records (record_usage lib r s) group h)

-- The query that groups by a name, over all time.
abbrev pub by_group : String → Query
by_group group = record {
  group_by = group;
  window = "";
  bucket = "";
  start_date = "";
  end_date = "";
  client_name = "";
}

-- Items that add up to records: their requests, which are each a success or an error, their
-- tokens, and their attempts before the last.
pub record AddsUp (l : List StatsItem) (records : List UsageRecord) : Type 0 where
  pub requests : sum_by (λ i. i.request_count) l ≡ sum_by request_count_of records
  pub outcomes :
      sum_by (λ i. i.success_count) l + sum_by (λ i. i.error_count) l
      ≡ sum_by request_count_of records
  pub input : sum_by (λ i. i.input_tokens) l ≡ sum_by (λ r. r.breakdown.input_tokens) records
  pub output : sum_by (λ i. i.output_tokens) l ≡ sum_by (λ r. r.breakdown.output_tokens) records
  pub total : sum_by (λ i. i.total_tokens) l ≡ sum_by (λ r. r.breakdown.total_tokens) records
  pub fallbacks : sum_by (λ i. i.fallback_count) l ≡ sum_by (λ r. r.fallback_count) records

query-by_group :
    (lib : UsageLib) (s : MemoryStore) (group : String)
    → contains usage_group_bys group ≡ true
    → query lib s (by_group group) ≡ items (sorted_items (group_at group s.totals))
unfolding query query_defaulted query_supported
query-by_group lib s group h = elim (Bool-cases (is_empty group)) [
  | inl e ↦
      let bad = subst (λ g. contains usage_group_bys g ≡ true) ((eq_iff group "").0 e) h in cc (bad)
  | inr e ↦ rw (e, h) refl
]

module _ (lib : UsageLib) (started : ℕ) (known : Bool) (records : List UsageRecord) (group : String)
    (h : contains usage_group_bys group ≡ true) where
  abbrev found : List StatsItem
  found =
      sorted_items
        (group_at group (record_usages lib records (new_memory_store started known)).totals)

  sum_by-found :
      (f : StatsItem → ℕ) (weight : UsageRecord → ℕ)
      → f empty_item ≡ 0
      → ((v : String) (r : UsageRecord) (i : StatsItem)
          → f (apply_to_item lib v r i) ≡ f i + weight r)
      → sum_by f found ≡ sum_by weight records
  unfolding sorted_items
  sum_by-found f weight z raised =
      sum_by-sort_by f _ (
        values (group_at group (record_usages lib records (new_memory_store started known)).totals))
      ∙ sum_by-records f z lib weight raised records (new_memory_store started known) group h
      ∙ (unfold new_memory_store in unfold lookup in omega arith)

  outcome :
      (v : String) (r : UsageRecord) (i : StatsItem)
      → (apply_to_item lib v r i).success_count + (apply_to_item lib v r i).error_count
        ≡ i.success_count + i.error_count + request_count_of r
  unfolding apply_to_item
  outcome v r i = elim (Bool-cases (is_success r.status)) [
    | inl e ↦ rw e (omega arith)
    | inr e ↦ rw e (omega arith)
  ]

  found-AddsUp : AddsUp found records
  unfolding apply_to_item
  found-AddsUp = record {
    requests = sum_by-found (λ i. i.request_count) request_count_of refl (λ v r i. refl);
    outcomes =
        sum_by_plus (λ i. i.success_count) (λ i. i.error_count) found
        ∙ sum_by-found (λ i. i.success_count + i.error_count) request_count_of refl outcome;
    input = sum_by-found (λ i. i.input_tokens) (λ r. r.breakdown.input_tokens) refl (λ v r i. refl);
    output =
        sum_by-found (λ i. i.output_tokens) (λ r. r.breakdown.output_tokens) refl (λ v r i. refl);
    total = sum_by-found (λ i. i.total_tokens) (λ r. r.breakdown.total_tokens) refl (λ v r i. refl);
    fallbacks = sum_by-found (λ i. i.fallback_count) (λ r. r.fallback_count) refl (λ v r i. refl);
  }

-- After any records, a new store answers the query by any supported group, over all time, with items
-- whose requests, successes and errors together, tokens and attempts before the last add up to those
-- of the records: no grouping loses a record or counts one twice.
pub query-AddsUp :
    (lib : UsageLib) (started : ℕ) (known : Bool) (records : List UsageRecord) (group : String)
    → contains usage_group_bys group ≡ true
    → (l : List StatsItem) × (query lib
          (record_usages lib records (new_memory_store started known))
          (by_group group)
        ≡ items l)
      × AddsUp l records
query-AddsUp lib started known records group h = (
  found lib started known records group h,
  query-by_group lib (record_usages lib records (new_memory_store started known)) group h,
  found-AddsUp lib started known records group h,
)
