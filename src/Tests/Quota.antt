-- ===== src/Tests/Quota.antt =====
-- Runs of the quota tracker and of the recorder of events.
use syrogo.Base.{
  ℕ, ◌+◌, ◌*◌, ◌≤◌, ◌<◌, ◌≡◌, refl, ◌⊎◌, inl, inr, arith, true, false, none, some, [], ◌∷◌, All,
  keep_if, ltb, ◌==◌, nat_eq, text_eq, subst, Bool-cases,
}
use syrogo.Base.Map.{lookup, some_inj}
use syrogo.Quota.Schedule.{TimeLib, Schedule, no_schedule, interval_bounds}
use syrogo.Quota.Schedule.Bounds.{interval_bounds_lem}
use syrogo.Quota.Window.{
  UsageEvent, WindowState, usage, is_limited, rollover, rolling_retry, retry_at,
}
use syrogo.Quota.Window.Expiry.{counts, rollover-keep_if}
use syrogo.Quota.Window.Earliest.{FreedBy, rolling_retry-FreedBy}
use syrogo.Quota.Events.{Event, new_recorder, event_snapshot}
use syrogo.Quota.Events.Bounded.{record_all, record_all-new}
use syrogo.Quota.Tracker.{SubjectState, Tracker, subject_rollover, allow_probe, refuse, cooldown}
use syrogo.Quota.Tracker.Admission.{Answer, client_attempt-Answer}
use syrogo.Quota.Tracker.Cooldown.{attempts, attempts-probe}
use syrogo.Quota.Tracker.Within.{Within, AllWithin, Admitted, admit-Admitted}

-- A time package in which every day has 86400 seconds and starts at a multiple of that.
abbrev pub lib : TimeLib
lib = record {
  load_location = λ name. none;
  weekday = λ loc now. 0;
  days_before = λ loc t n. t;
  days_after = λ loc t n. t + n * 86400000000000;
  at_clock = λ loc t clock. t;
  parse_layout = λ layout value. none;
  format = λ t. "";
  parse = λ s. none;
  duration_text = λ d. "";
}

abbrev hourly : Schedule
hourly = record no_schedule { period = "interval"; duration = 10; anchor = 3 }

interval_bounds_lem_example :
    let start = (interval_bounds lib hourly 27).0 in
    let end = (interval_bounds lib hourly 27).1 in
    (start ≤ 27)
    × (27 < end)
    × (end ≡ start + 10)
    × ((k : ℕ) × ((start ≡ 3 + k * 10) ⊎ (3 ≡ start + k * 10)))
interval_bounds_lem_example =
    interval_bounds_lem lib hourly 27 (omega arith) (omega arith) (omega arith, omega arith)

-- In 2026 the window of one day that is anchored in 1600 is one that ended long ago.
abbrev in_2026 : ℕ
in_2026 = 63902908800000000000

abbrev anchored_1600 : Schedule
anchored_1600 = record hourly { duration = 86400000000000; anchor = 50459500800000000000 }

far_anchor-run : ltb (interval_bounds lib anchored_1600 in_2026).1 in_2026 ≡ true
unfolding interval_bounds
far_anchor-run = refl

interval_bounds-run : interval_bounds lib hourly 27 ≡ (23, 33)
unfolding interval_bounds
interval_bounds-run = refl

abbrev pub used : ℕ → UsageEvent
used at = record { at = at; requests = 1; tokens = 5; cost_micro_usd = 0; unpriced = 0 }

abbrev pub window : WindowState
window = record {
  name = "burst";
  type_name = "requests";
  reset = "rolling";
  duration = 10;
  fixed = no_schedule;
  max_requests = 2;
  max_tokens = 0;
  max_cost_micro_usd = 0;
  events = used 4 ∷ used 7 ∷ [];
}

rollover-keep_if_example :
    (rollover lib 15 window).events ≡ keep_if (counts lib 15 window) (used 4 ∷ used 7 ∷ [])
rollover-keep_if_example = rollover-keep_if lib 15 0 window (omega arith, (omega arith, tt))

window-limited : is_limited window (usage window.events) ≡ true
unfolding usage
window-limited = refl

rolling_retry-run : rolling_retry window ≡ retry_at 14
unfolding rolling_retry
rolling_retry-run = refl

rolling_retry-FreedBy_example : FreedBy window window.events (rolling_retry window)
rolling_retry-FreedBy_example = rolling_retry-FreedBy window window-limited

abbrev pub subject : SubjectState
subject = record {
  name = "cli";
  inbound = "";
  windows = window ∷ [];
  cooldown = 30;
  probe_interval = 5;
  reset_all = no_schedule;
  cooldown_until = 40;
  next_probe_at = 15;
  last_quota_exceeded_at = 10;
  last_success_at = 0;
  probe_in_flight = false;
}

abbrev pub tracker : Tracker
tracker = record { client = true; subjects = ("cli", subject) ∷ [] }

subject-found : lookup "cli" tracker.subjects ≡ some subject
unfolding lookup
subject-found = refl

client_attempt-Answer_example : Answer lib 12 tracker "cli" (subject_rollover lib 12 subject)
client_attempt-Answer_example = client_attempt-Answer lib 12 tracker "cli" subject subject-found

tracker-AllWithin : AllWithin tracker
unfolding lookup usage
tracker-AllWithin k v found = elim (Bool-cases ("cli" == k)) [
  | inl h ↦ subst (λ s. All Within s.windows) (some_inj (rw h at found)) (inr (omega arith), tt)
  | inr h ↦ let bad : none ≡ some v = rw h at found in ground (arith, bad)
]

admit-Admitted_example : Admitted lib 12 13 tracker "cli"
admit-Admitted_example = admit-Admitted lib 12 13 tracker "cli" tracker-AllWithin

attempts-probe_example :
    attempts lib (some tracker) "cli" (12 ∷ 15 ∷ 16 ∷ 39 ∷ [])
    ≡ refuse cooldown 15 [] ∷ allow_probe ∷ refuse cooldown 15 [] ∷ refuse cooldown 15 [] ∷ []
attempts-probe_example =
    attempts-probe lib tracker "cli" 40 15 (12 ∷ []) 15 (16 ∷ 39 ∷ [])
      (record {
        subject = subject;
        found = subject-found;
        until_is = refl;
        next_is = refl;
        probing_is = refl;
      })
      (λ e. ground (arith, e)) ((omega arith, omega arith), tt) (omega arith) (omega arith)
      (omega arith, (omega arith, tt))

abbrev event : Event
event = record {
  time = "";
  event_type = "client_limited";
  client = "cli";
  inbound = "in";
  outbound = "";
  reason = "limited";
  retry_after = "";
}

record_all-new_example :
    event_snapshot (record_all (new_recorder 2) (("1", event) ∷ ("2", event) ∷ ("3", event) ∷ []))
    ≡ record event { time = "2" } ∷ record event { time = "3" } ∷ []
record_all-new_example =
    record_all-new 2 (("1", event) ∷ ("2", event) ∷ ("3", event) ∷ []) (λ e. ground (arith, e))
