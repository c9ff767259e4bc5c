-- ===== src/Accounting/Memory/Days.antt =====
-- The loop over the days of a query has enough fuel.
use syrogo.Base.{
  ℕ, zero, suc, ◌+◌, ◌-◌, ◌*◌, ◌/◌, ◌≤◌, ◌≡◌, refl, sym, ◌∙◌, inl, inr, String, false, arith,
  Bool-cases, ltb,
}
use syrogo.Accounting.Memory.{UsageLib, Group, MemoryStore}
use syrogo.Accounting.Memory.Queries.{merge_days, merge_day, day_length}

module _ (lib : UsageLib) (s : MemoryStore) (group_by client_name : String) where
  done :
      (fuel day end : ℕ) (merged : Group)
      → ltb day end ≡ false
      → merge_days lib s group_by client_name fuel day end merged ≡ merged
  unfolding merge_days
  done zero day end merged h = refl
  done (suc fuel) day end merged h = rw h refl

  more_fuel :
      (fuel extra day end : ℕ) (merged : Group)
      → end ≤ day + fuel * day_length
      → merge_days lib s group_by client_name (fuel + extra) day end merged
        ≡ merge_days lib s group_by client_name fuel day end merged
  unfolding merge_days
  more_fuel zero extra day end merged h =
      done (zero + extra) day end merged (ground (arith, h))
      ∙ sym (done 0 day end merged (ground (arith, h)))
  more_fuel (suc fuel) extra day end merged h =
      let next : suc fuel + extra ≡ suc (fuel + extra) = omega arith in
      rw next (elim (Bool-cases (ltb day end)) [
        | inl e ↦
            rw (e, merge_days)
              (more_fuel fuel extra (day + day_length) end
                (merge_day lib s group_by client_name (lib.day_text day) merged) (omega (arith, h)))
        | inr e ↦ rw (e, merge_days) refl
      ])

  -- More rounds than a query allows change nothing.
  pub enough_days :
      (extra start end : ℕ) (merged : Group)
      → merge_days lib s group_by client_name
          (suc ((end - start) / day_length) + extra)
          start
          end
          merged
        ≡ merge_days lib s group_by client_name (suc ((end - start) / day_length)) start end merged
  enough_days extra start end merged =
      more_fuel (suc ((end - start) / day_length)) extra start end merged (omega arith)
