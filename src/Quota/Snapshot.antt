-- ===== src/Quota/Snapshot.antt =====
-- internal/quota/tracker.go: what a tracker shows of its subjects. A cost is its number of millionths
-- of a dollar, whose text is that of Quota.Money.
pub mod Decided
use syrogo.Base.{
  ℕ, ◌+◌, ◌-◌, String, Bool, true, false, not, ◌&&◌, List, [], ◌∷◌, Option, none, some,
  if◌then◌else◌, ◌==◌, nat_eq, text_eq, is_empty, ltb,
}
use syrogo.Base.Map.{Map}
use syrogo.Base.Sort.{text_less, sort_by}
use syrogo.Quota.Schedule.{TimeLib, bounds}
use syrogo.Quota.Window.{WindowState, Retry, retry_at, not_limited, index_panic, usage, retry_after}
use syrogo.Quota.Tracker.{
  SubjectState, Tracker, BlockingWindow, format_time, in_cooldown, blocking_from,
}
use syrogo.Quota.Persist.{roll_subjects}

pub record SnapshotWindow : Type 0 where
  pub name : String
  pub type_name : String
  pub reset : String
  pub fixed_period : String
  pub duration : String
  pub max_requests : ℕ
  pub used_requests : ℕ
  pub remaining_requests : ℕ
  pub max_tokens : ℕ
  pub used_tokens : ℕ
  pub remaining_tokens : ℕ
  pub max_cost_micro_usd : ℕ
  pub used_cost_micro_usd : ℕ
  pub remaining_cost_micro_usd : ℕ
  pub unpriced_count : ℕ
  pub warning : String
  pub reset_at : String
  pub limit : ℕ
  pub used : ℕ
  pub remaining : ℕ

pub record SnapshotItem : Type 0 where
  pub outbound : String
  pub client : String
  pub inbound : String
  pub enabled : Bool
  pub state : String
  pub cooldown_until : String
  pub next_probe_at : String
  pub last_quota_exceeded_at : String
  pub last_success_at : String
  pub windows : List SnapshotWindow

-- `remaining` and `remaining64`: what is left of a limit, 0 where there is none.
abbrev pub remaining_of : ℕ → ℕ → ℕ
remaining_of maximum used = if maximum == 0 then 0 else maximum - used

-- The time of the first event and the length of the window, or else no time.
abbrev pub first_expiry : WindowState → ℕ
first_expiry w = elim w.events [ [] ↦ 0 | e ∷ events ↦ e.at + w.duration ]

module _ (lib : TimeLib) where
  abbrev duration_string : WindowState → String
  duration_string w = if w.duration == 0 then "" else lib.duration_text w.duration

  -- When a window is shown to be free again; `none` is a panic.
  unfoldable pub shown_reset : ℕ → WindowState → Option ℕ
  unfolding bounds retry_after
  shown_reset now w =
      let limited = retry_after lib now w in
      if w.reset == "fixed" then some (bounds lib w.fixed now).1 else elim limited [
        | retry_at t ↦ some t
        | not_limited ↦ some (first_expiry w)
        | index_panic ↦ none
      ]

  unfoldable pub snapshot_window : WindowState → ℕ → SnapshotWindow
  unfolding usage
  snapshot_window w reset_at =
      let t = usage w.events in
      record {
        name = w.name;
        type_name = w.type_name;
        reset = w.reset;
        fixed_period = w.fixed.period;
        duration = duration_string w;
        max_requests = w.max_requests;
        used_requests = t.requests;
        remaining_requests = remaining_of w.max_requests t.requests;
        max_tokens = w.max_tokens;
        used_tokens = t.tokens;
        remaining_tokens = remaining_of w.max_tokens t.tokens;
        max_cost_micro_usd = w.max_cost_micro_usd;
        used_cost_micro_usd = t.cost_micro_usd;
        remaining_cost_micro_usd = remaining_of w.max_cost_micro_usd t.cost_micro_usd;
        unpriced_count = t.unpriced;
        warning = if ltb 0 t.unpriced then "cost quota excludes unpriced terminal usage" else "";
        reset_at = format_time lib reset_at;
        limit = w.max_requests;
        used = t.requests;
        remaining = remaining_of w.max_requests t.requests;
      }

  unfoldable pub snapshot_windows : ℕ → List WindowState → Option (List SnapshotWindow)
  unfolding shown_reset snapshot_window
  snapshot_windows now [] = some []
  snapshot_windows now (w ∷ windows) =
      let rest = snapshot_windows now windows in
      elim (shown_reset now w) [
        | none ↦ none
        | some t ↦ elim rest [ none ↦ none | some shown ↦ some (snapshot_window w t ∷ shown) ]
      ]

  -- The state that is shown, and the time at which a limit ends.
  unfoldable pub snapshot_state : ℕ → SubjectState → Option (String × ℕ)
  unfolding in_cooldown blocking_from
  snapshot_state now s =
      let reached = blocking_from lib now 0 s.windows in
      if in_cooldown s now then some ("cooldown", 0) else elim reached [
        | none ↦ none
        | some (latest, []) ↦ some ("available", 0)
        | some (latest, b ∷ blocking) ↦ some ("limited", latest)
      ]

  abbrev shown_probe : SubjectState → String → ℕ → String
  shown_probe s state retry =
      if state == "limited" && is_empty (format_time lib s.next_probe_at)
      then format_time lib retry
      else format_time lib s.next_probe_at

  unfoldable pub subject_snapshot : ℕ → Bool → SubjectState → Option SnapshotItem
  unfolding snapshot_state snapshot_windows
  subject_snapshot now client s =
      let shown = snapshot_windows now s.windows in
      elim (snapshot_state now s) [
        | none ↦ none
        | some (state, retry) ↦ elim shown [
          | none ↦ none
          | some windows ↦ some (record {
            outbound = if client then "" else s.name;
            client = if client then s.name else "";
            inbound = if client then s.inbound else "";
            enabled = true;
            state = state;
            cooldown_until = format_time lib s.cooldown_until;
            next_probe_at = shown_probe s state retry;
            last_quota_exceeded_at = format_time lib s.last_quota_exceeded_at;
            last_success_at = format_time lib s.last_success_at;
            windows = windows;
          })
        ]
      ]

  unfoldable pub snapshot_items : ℕ → Bool → Map String SubjectState → Option (List SnapshotItem)
  unfolding subject_snapshot
  snapshot_items now client [] = some []
  snapshot_items now client ((name, s) ∷ subjects) =
      let rest = snapshot_items now client subjects in
      elim (subject_snapshot now client s) [
        | none ↦ none
        | some item ↦ elim rest [ none ↦ none | some items ↦ some (item ∷ items) ]
      ]

  -- `Snapshot` and `ClientSnapshot`, with the tracker whose subjects were rolled over.
  unfoldable pub tracker_snapshot : ℕ → Bool → Tracker → Option (List SnapshotItem × Tracker)
  unfolding roll_subjects snapshot_items sort_by
  tracker_snapshot now client t =
      let rolled = roll_subjects lib now t.subjects in
      let less : SnapshotItem → SnapshotItem → Bool =
        λ a b. if client then text_less a.client b.client else text_less a.outbound b.outbound in
      elim (snapshot_items now client rolled) [
        | none ↦ none
        | some items ↦ some (sort_by less items, record t { subjects = rolled })
      ]
