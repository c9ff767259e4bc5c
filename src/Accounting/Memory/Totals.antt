-- ===== src/Accounting/Memory/Totals.antt =====
-- The sums over all time.
use syrogo.Base.{
  subst, ◌≡◌, refl, ap, ◌∙◌, inl, inr, String, true, false, List, [], ◌∷◌, arith, Bool-cases,
  if◌then◌else◌, ◌==◌, text_eq, nat_eq, eq_iff, keep_if,
}
use syrogo.Base.Map.{Map, insert, lookup-insert}
use syrogo.Runtime.{UsageRecord}
use syrogo.Router.Order.{contains}
use syrogo.Router.Order.Distinct.{Distinct}
use syrogo.Accounting.Memory.{
  UsageLib, StatsItem, Group, MemoryStore, usage_group_bys, group_at, item_at, entries_or_none,
  item_or_empty, usage_group_value, apply_to_item, apply_to_group, apply_totals, apply_record,
  record_usage,
}

module _ (lib : UsageLib) where
  -- A run of the store over records.
  unfoldable pub record_usages : List UsageRecord → MemoryStore → MemoryStore
  unfolding record_usage
  record_usages [] s = s
  record_usages (r ∷ rs) s = record_usages rs (record_usage lib r s)

  -- The records of one value, one after another.
  abbrev pub apply_all : String → List UsageRecord → StatsItem → StatsItem
  apply_all value [] i = i
  apply_all value (r ∷ rs) i = apply_all value rs (apply_to_item lib value r i)

group_at-insert :
    (g k : String) (group : Group) (m : Map String Group)
    → group_at k (insert g group m) ≡ (if g == k then group else group_at k m)
group_at-insert g k group m =
    ap entries_or_none (lookup-insert g k group m)
    ∙ elim (Bool-cases (g == k)) [ inl e ↦ rw e refl | inr e ↦ rw e refl ]

item_at-insert :
    (v k : String) (i : StatsItem) (m : Group)
    → item_at k (insert v i m) ≡ (if v == k then i else item_at k m)
item_at-insert v k i m =
    ap item_or_empty (lookup-insert v k i m)
    ∙ elim (Bool-cases (v == k)) [ inl e ↦ rw e refl | inr e ↦ rw e refl ]

module _ (lib : UsageLib) (r : UsageRecord) (k : String) where
  apply_totals-other :
      (groups : List String) (m : Map String Group)
      → contains groups k ≡ false
      → group_at k (apply_totals lib groups r m) ≡ group_at k m
  unfolding apply_totals
  apply_totals-other [] m h = refl
  apply_totals-other (g ∷ groups) m h =
      let group = apply_to_group lib (usage_group_value lib r g) r (group_at g m) in
      apply_totals-other groups (insert g group m) (ground (arith, h))
      ∙ group_at-insert g k group m
      ∙ (let e : (g == k) ≡ false = ground (arith, h) in rw e refl)

  apply_totals-group :
      (groups : List String) (m : Map String Group)
      → Distinct groups
      → contains groups k ≡ true
      → group_at k (apply_totals lib groups r m)
        ≡ apply_to_group lib (usage_group_value lib r k) r (group_at k m)
  unfolding apply_totals
  apply_totals-group [] m d h = cc (h)
  apply_totals-group (g ∷ groups) m d h =
      let group = apply_to_group lib (usage_group_value lib r g) r (group_at g m) in
      elim (Bool-cases (g == k)) [
        | inl e ↦
            let same : g ≡ k = (eq_iff g k).0 e in
            apply_totals-other groups (insert g group m)
              (subst (λ n. contains groups n ≡ false) same d.0)
            ∙ group_at-insert g k group m
            ∙ rw e (ap (λ n. apply_to_group lib (usage_group_value lib r n) r (group_at n m)) same)
        | inr e ↦
            let other : group_at k (insert g group m) ≡ group_at k m =
              group_at-insert g k group m ∙ rw e refl in
            apply_totals-group groups (insert g group m) d.1 (ground (arith, h, e))
            ∙ ap (apply_to_group lib (usage_group_value lib r k) r) other
      ]

usage_group_bys-Distinct : Distinct usage_group_bys
usage_group_bys-Distinct =
    (refl, (refl, (refl, (refl, (refl, (refl, (refl, (refl, (refl, (refl, tt))))))))))

pub record_usage-group :
    (lib : UsageLib) (r : UsageRecord) (s : MemoryStore) (k : String)
    → contains usage_group_bys k ≡ true
    → group_at k (record_usage lib r s).totals
      ≡ apply_to_group lib (usage_group_value lib r k) r (group_at k s.totals)
unfolding record_usage apply_record
record_usage-group lib r s k h =
    apply_totals-group lib r k usage_group_bys s.totals usage_group_bys-Distinct h

item_at-apply :
    (lib : UsageLib) (value v : String) (r : UsageRecord) (group : Group)
    → item_at value (apply_to_group lib v r group) ≡ (
        if v == value then apply_to_item lib value r (item_at value group) else item_at value group)
unfolding apply_to_group
item_at-apply lib value v r group =
    item_at-insert v value (apply_to_item lib v r (item_at v group)) group
    ∙ elim (Bool-cases (v == value)) [
      | inl e ↦ rw e (ap (λ n. apply_to_item lib n r (item_at n group)) ((eq_iff v value).0 e))
      | inr e ↦ rw e refl
    ]

-- What the store has for a value of a supported group is what the records of that value add up to,
-- in their order, from what it had; records of other values have no part in it.
pub record_usages-item_at :
    (lib : UsageLib) (records : List UsageRecord) (s : MemoryStore) (group value : String)
    → contains usage_group_bys group ≡ true
    → item_at value (group_at group (record_usages lib records s).totals)
      ≡ apply_all lib value
          (keep_if (λ r. usage_group_value lib r group == value) records)
          (item_at value (group_at group s.totals))
unfolding record_usages
record_usages-item_at lib [] s group value h = refl
record_usages-item_at lib (r ∷ records) s group value h =
    let v = usage_group_value lib r group in
    let kept = keep_if (λ r. usage_group_value lib r group == value) records in
    let one : item_at value (group_at group (record_usage lib r s).totals) ≡ (
        if v == value
        then apply_to_item lib value r (item_at value (group_at group s.totals))
        else item_at value (group_at group s.totals)) =
      ap (item_at value) (record_usage-group lib r s group h)
      ∙ item_at-apply lib value v r (group_at group s.totals) in
    record_usages-item_at lib records (record_usage lib r s) group value h
    ∙ ap (apply_all lib value kept) one
    ∙ elim (Bool-cases (v == value)) [ inl e ↦ rw e refl | inr e ↦ rw e refl ]
