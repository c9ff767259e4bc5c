-- ===== src/Quota/Reconfigure.antt =====
-- internal/quota/tracker.go: the change of a tracker's configuration while it runs. A nil tracker,
-- which answers `false`, is left to the callers.
pub mod Merge
pub mod Kept
use Prim.Native.String.{◌++◌ as text_append}
use syrogo.Base.{
  ℕ, String, Bool, true, false, not, ◌&&◌, ◌||◌, List, [], ◌∷◌, Option, none, some, if◌then◌else◌,
  ◌==◌, nat_eq, text_eq, is_empty, is_some,
}
use syrogo.Base.Map.{Map, lookup, insert, erase}
use syrogo.Quota.Schedule.{TimeLib, Schedule}
use syrogo.Quota.Window.{UsageEvent, WindowState}
use syrogo.Quota.Tracker.{SubjectState, Tracker, format_time}
use syrogo.Quota.Configure.{SubjectConfig, new_subject_state, new_client_state}

-- `time.Weekday.String`, for the days of the week.
unfoldable pub weekday_name : ℕ → String
weekday_name day =
    if day == 0
    then "Sunday"
    else if day == 1
    then "Monday"
    else if day == 2
    then "Tuesday"
    else if day == 3
    then "Wednesday"
    else if day == 4
    then "Thursday"
    else if day == 5
    then "Friday"
    else "Saturday"

-- `strings.Join(parts, "|")`.
unfoldable pub join_bars : List String → String
join_bars [] = ""
join_bars (part ∷ []) = part
join_bars (part ∷ next ∷ parts) = text_append part (text_append "|" (join_bars (next ∷ parts)))

abbrev pub has_events : WindowState → Bool
has_events w = elim w.events [ [] ↦ false | e ∷ events ↦ true ]

unfoldable pub any_usage : List WindowState → Bool
any_usage [] = false
any_usage (w ∷ windows) = has_events w || any_usage windows

unfoldable pub has_usage : SubjectState → Bool
unfolding any_usage
has_usage s = any_usage s.windows

-- `oldByName`: a later window stands for an earlier one of its name.
unfoldable pub by_name : List WindowState → Map String WindowState → Map String WindowState
unfolding insert
by_name [] m = m
by_name (w ∷ windows) m = by_name windows (insert w.name w m)

unfoldable pub any_left : Map String WindowState → Bool
any_left [] = false
any_left ((name, w) ∷ m) = has_events w || any_left m

-- The new state with the cooldown and the probe of the old one.
abbrev pub with_state : SubjectState → SubjectState → SubjectState
with_state old fresh = record fresh {
  cooldown_until = old.cooldown_until;
  next_probe_at = old.next_probe_at;
  last_quota_exceeded_at = old.last_quota_exceeded_at;
  last_success_at = old.last_success_at;
  probe_in_flight = old.probe_in_flight;
}

module _ (lib : TimeLib) where
  unfoldable pub schedule_text : Schedule → String
  unfolding weekday_name join_bars
  schedule_text s =
      if is_empty s.period
      then ""
      else join_bars (
          s.period
          ∷ lib.duration_text s.duration
          ∷ format_time lib s.anchor
          ∷ s.clock
          ∷ (elim s.location [ none ↦ "" | some l ↦ l ])
          ∷ weekday_name s.weekday
          ∷ [])

  unfoldable pub schedule_key : WindowState → String
  unfolding schedule_text
  schedule_key w =
      if w.reset == "rolling" then lib.duration_text w.duration else schedule_text w.fixed

  unfoldable pub compatible : WindowState → WindowState → Bool
  unfolding schedule_key
  compatible w other =
      if not (w.type_name == other.type_name) || not (w.reset == other.reset)
      then false
      else if w.reset == "rolling"
      then w.duration == other.duration
      else schedule_key w == schedule_key other

  -- The loop over the new windows: these with what they take over, whether usage was cleared, and
  -- the old windows that are left.
  unfoldable pub merge_scan :
      Map String WindowState → List WindowState → List WindowState × Bool × Map String WindowState
  unfolding lookup erase compatible
  merge_scan old [] = ([], false, old)
  merge_scan old (w ∷ windows) = elim (lookup w.name old) [
    | none ↦ let rest = merge_scan old windows in (w ∷ rest.0, rest.1, rest.2)
    | some previous ↦
        let rest = merge_scan (erase w.name old) windows in
        if compatible w previous
        then (record w { events = previous.events } ∷ rest.0, rest.1, rest.2)
        else (w ∷ rest.0, has_events previous || rest.1, rest.2)
  ]

  -- The new state with the usage of the old one, and whether usage was cleared.
  unfoldable pub merge_windows : SubjectState → SubjectState → SubjectState × Bool
  unfolding by_name merge_scan any_left
  merge_windows old fresh =
      let merged = merge_scan (by_name old.windows []) fresh.windows in
      (record fresh { windows = merged.0 }, merged.1 || any_left merged.2)

  -- What a client takes over from its old state, and what an outbound does.
  unfoldable pub carry_client : SubjectState → SubjectState → SubjectState × Bool
  unfolding merge_windows
  carry_client old fresh = merge_windows old fresh

  unfoldable pub carry_outbound : SubjectState → SubjectState → SubjectState × Bool
  unfolding merge_windows has_usage schedule_text
  carry_outbound old fresh =
      if not (schedule_text old.reset_all == schedule_text fresh.reset_all)
      then (with_state old fresh, has_usage old)
      else merge_windows old (with_state old fresh)

-- The loop over the old subjects.
unfoldable pub usage_removed : Map String SubjectState → Map String SubjectState → Bool
unfolding lookup has_usage
usage_removed [] next = false
usage_removed ((name, old) ∷ subjects) next =
    (not (is_some (lookup name next)) && has_usage old) || usage_removed subjects next

-- The loop over the configurations, for a way to make a state and one to carry usage over.
unfoldable pub next_subjects :
    (SubjectConfig → SubjectState)
    → (SubjectState → SubjectState → SubjectState × Bool)
    → Map String SubjectState
    → List SubjectConfig
    → Bool
    → Map String SubjectState
    → Map String SubjectState × Bool
unfolding lookup insert
next_subjects make carry old [] changed next = (next, changed)
next_subjects make carry old (c ∷ configs) changed next = elim (lookup c.name old) [
  | none ↦ next_subjects make carry old configs changed (insert c.name (make c) next)
  | some s ↦
      next_subjects make carry old configs ((carry s (make c)).1 || changed)
        (insert c.name (carry s (make c)).0 next)
]

unfoldable pub reconfigure_with :
    (SubjectConfig → SubjectState)
    → (SubjectState → SubjectState → SubjectState × Bool)
    → Tracker
    → List SubjectConfig
    → Tracker × Bool
unfolding next_subjects usage_removed
reconfigure_with make carry t configs =
    let result = next_subjects make carry t.subjects configs false [] in
    (record t { subjects = result.0 }, usage_removed t.subjects result.0 || result.1)

module _ (lib : TimeLib) where
  unfoldable pub reconfigure_clients : Tracker → List SubjectConfig → Tracker × Bool
  unfolding reconfigure_with new_client_state carry_client
  reconfigure_clients t configs =
      reconfigure_with (new_client_state lib) (carry_client lib) t configs

  unfoldable pub reconfigure : Tracker → List SubjectConfig → Tracker × Bool
  unfolding reconfigure_with new_subject_state carry_outbound
  reconfigure t configs = reconfigure_with (new_subject_state lib) (carry_outbound lib) t configs
