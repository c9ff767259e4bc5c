-- ===== src/Tests/QuotaState.antt =====
-- Runs of changes of the quota configuration and of the saved state.
use Prim.Native.String.{◌∷◌ as text_cons}
use syrogo.Base.{
  ℕ, zero, suc, ◌≡◌, refl, inl, inr, arith, true, false, Option, none, some, List, map, All, String,
  ap, [], ◌∷◌, is_empty, eq_iff, ◌==◌, nat_eq, text_eq, subst, Bool-cases,
}
use syrogo.Base.Map.{lookup, some_inj}
use syrogo.Router.Order.Distinct.{Distinct}
use syrogo.Quota.Schedule.{TimeLib}
use syrogo.Quota.Tracker.{SubjectState, Tracker, subject_rollover}
use syrogo.Quota.Configure.{SubjectConfig, no_reset_all}
use syrogo.Quota.Reconfigure.{reconfigure}
use syrogo.Quota.Reconfigure.Merge.{window_names}
use syrogo.Quota.Reconfigure.Kept.{usage_of, HasDistinctWindows, reconfigure-usage_of}
use syrogo.Quota.Persist.{export_state, import_state}
use syrogo.Quota.Persist.Window.{IsFaithful}
use syrogo.Quota.Persist.RoundTrip.{IsStorable, blank_tracker, map_subject, import-export}
use syrogo.Quota.Money.{format_micro_usd}
use syrogo.Quota.Money.RoundTrip.{cost_usd_micro-format_micro_usd}
use syrogo.Quota.Snapshot.{SnapshotItem, tracker_snapshot}
use syrogo.Config.Cost.{micro_usd, cost_usd_micro}
use syrogo.Tests.Quota.{lib, tracker}

-- A time written as that many strokes and one more.
abbrev strokes : ℕ → String
strokes zero = ""
strokes (suc n) = text_cons "|" (strokes n)

abbrev number : String → ℕ
number String.[] = zero
number (String.◌∷◌ c s) = suc (number s)

number-strokes : (n : ℕ) → number (strokes n) ≡ n
number-strokes zero = refl
number-strokes (suc n) = ap suc (number-strokes n)

abbrev parse_tally : String → Option ℕ
parse_tally String.[] = none
parse_tally (String.◌∷◌ c s) = some (number s)

abbrev tally_lib : TimeLib
tally_lib = record lib { format = λ t. text_cons "|" (strokes t); parse = parse_tally }

not_empty : (s : String) → is_empty (text_cons "|" s) ≡ false
not_empty s = elim (Bool-cases (is_empty (text_cons "|" s))) [
  | inl h ↦ let bad : text_cons "|" s ≡ "" = (eq_iff (text_cons "|" s) "").0 h in cc (bad)
  | inr h ↦ h
]

tally_lib-IsFaithful : IsFaithful tally_lib
tally_lib-IsFaithful = record {
  parse-format = λ t. ap some (number-strokes t);
  format_text = λ t. not_empty (strokes t);
}

tracker-IsStorable :
    All
      (λ (e : String × SubjectState). IsStorable e.1)
      (export_state tally_lib 12 tracker).1.subjects
unfolding export_state
tracker-IsStorable =
    (record { distinct = (refl, tt); ordered = ((omega arith, (omega arith, tt)), tt) }, tt)

import-export_example :
    lookup "cli"
      (import_state tally_lib 13
        (export_state tally_lib 12 tracker).0
        (blank_tracker (export_state tally_lib 12 tracker).1)).subjects
    ≡ map_subject
        (λ s. subject_rollover tally_lib 13 (record s { probe_in_flight = false }))
        (lookup "cli" (export_state tally_lib 12 tracker).1.subjects)
import-export_example =
    import-export tally_lib tally_lib-IsFaithful tracker 12 13 "cli" tracker-IsStorable
      (unfold export_state in (refl, tt))

-- An outbound whose limit is raised while another one is added.
abbrev outbound : String → ℕ → SubjectConfig
outbound name limit = record {
  name = name;
  inbound = "";
  windows =
      record {
        name = "burst";
        type_name = "requests";
        reset = "";
        duration = 10;
        fixed_period = "";
        anchor = 0;
        time = "";
        timezone = "";
        weekday = 0;
        max_requests = limit;
        max_tokens = 0;
        max_cost_micro_usd = 0;
      }
      ∷ [];
  cooldown = 30;
  probe_interval = 5;
  reset_all = no_reset_all;
}

abbrev configs : List SubjectConfig
configs = outbound "new" 3 ∷ outbound "cli" 9 ∷ []

unchanged : (reconfigure lib tracker configs).1 ≡ false
unfolding reconfigure
unchanged = refl

tracker-HasDistinctWindows : HasDistinctWindows tracker.subjects
unfolding lookup
tracker-HasDistinctWindows k v found = elim (Bool-cases ("cli" == k)) [
  | inl h ↦ subst (λ s. Distinct (window_names s.windows)) (some_inj (rw h at found)) (refl, tt)
  | inr h ↦ let bad : none ≡ some v = rw h at found in ground (arith, bad)
]

reconfigure-usage_of_example :
    usage_of "cli" "burst" (reconfigure lib tracker configs).0 ≡ usage_of "cli" "burst" tracker
reconfigure-usage_of_example =
    reconfigure-usage_of lib tracker configs "cli" "burst" tracker-HasDistinctWindows unchanged

-- A used window that is dropped is reported.
cleared_reported :
    (reconfigure lib tracker (record (outbound "cli" 9) { windows = [] } ∷ [])).1 ≡ true
unfolding reconfigure
cleared_reported = refl

format-run : format_micro_usd 1250000 ≡ b'1' ∷ b'.' ∷ b'2' ∷ b'5' ∷ []
unfolding format_micro_usd
format-run = refl

cost_usd_micro-format_micro_usd_example :
    cost_usd_micro (format_micro_usd 1250000) ≡ micro_usd 1250000
cost_usd_micro-format_micro_usd_example =
    cost_usd_micro-format_micro_usd 1250000 (omega arith) (omega arith)

abbrev states : Option (List SnapshotItem × Tracker) → List String
states none = []
states (some (items, t)) = map (λ i. i.state) items

-- In a cooldown at 12, and behind it without a limit that is reached.
states-run :
    (states (tracker_snapshot lib 12 true tracker) ≡ "cooldown" ∷ [])
    × (states (tracker_snapshot lib 41 true tracker) ≡ "available" ∷ [])
unfolding tracker_snapshot
states-run = (refl, refl)
