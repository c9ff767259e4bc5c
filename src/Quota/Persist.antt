-- ===== src/Quota/Persist.antt =====
-- internal/quota/tracker.go: the state of a tracker as it is saved and restored. The JSON form is
-- not modelled; `legacy` marks a window that was read from its oldest one.
pub mod Window
pub mod RoundTrip
use syrogo.Base.{
  ℕ, String, Bool, true, false, not, ◌&&◌, ◌||◌, List, [], ◌∷◌, map, Option, none, some,
  if◌then◌else◌, ◌==◌, nat_eq, text_eq, is_empty, ltb,
}
use syrogo.Base.Map.{Map, lookup, insert}
use syrogo.Base.Sort.{sort_by}
use syrogo.Quota.Schedule.{TimeLib}
use syrogo.Quota.Window.{UsageEvent, WindowState}
use syrogo.Quota.Tracker.{SubjectState, Tracker, format_time, subject_rollover}
use syrogo.Quota.Reconfigure.{schedule_text, schedule_key}

pub record PersistedEvent : Type 0 where
  pub at : String
  pub requests : ℕ
  pub tokens : ℕ
  pub cost_micro_usd : ℕ
  pub unpriced : ℕ

pub record PersistedWindowState : Type 0 where
  pub type_name : String
  pub reset : String
  pub duration : String
  pub fixed_period : String
  pub schedule : String
  pub events : List PersistedEvent
  pub legacy : Bool

pub record PersistedSubject : Type 0 where
  pub name : String
  pub inbound : String
  pub cooldown_until : String
  pub next_probe_at : String
  pub last_quota_exceeded_at : String
  pub last_success_at : String
  pub reset_all : String
  pub windows : Map String PersistedWindowState

pub record PersistedState : Type 0 where
  pub version : ℕ
  pub captured_at : String
  pub subjects : Map String PersistedSubject

-- `events[i].At.Before(events[j].At)`.
abbrev pub earlier : UsageEvent → UsageEvent → Bool
earlier a b = ltb a.at b.at

module _ (lib : TimeLib) where
  unfoldable pub save_event : UsageEvent → PersistedEvent
  save_event e = record {
    at = format_time lib e.at;
    requests = e.requests;
    tokens = e.tokens;
    cost_micro_usd = e.cost_micro_usd;
    unpriced = e.unpriced;
  }

  unfoldable pub save_window : WindowState → PersistedWindowState
  unfolding save_event schedule_key
  save_window w = record {
    type_name = w.type_name;
    reset = w.reset;
    duration = lib.duration_text w.duration;
    fixed_period = w.fixed.period;
    schedule = schedule_key lib w;
    events = map save_event w.events;
    legacy = false;
  }

  unfoldable pub save_windows :
      List WindowState → Map String PersistedWindowState → Map String PersistedWindowState
  unfolding save_window insert
  save_windows [] m = m
  save_windows (w ∷ windows) m = save_windows windows (insert w.name (save_window w) m)

  unfoldable pub save_subject : SubjectState → PersistedSubject
  unfolding save_windows schedule_text
  save_subject s = record {
    name = s.name;
    inbound = s.inbound;
    cooldown_until = format_time lib s.cooldown_until;
    next_probe_at = format_time lib s.next_probe_at;
    last_quota_exceeded_at = format_time lib s.last_quota_exceeded_at;
    last_success_at = format_time lib s.last_success_at;
    reset_all = schedule_text lib s.reset_all;
    windows = save_windows s.windows [];
  }

  -- The subjects are rolled over as they are met.
  unfoldable pub roll_subjects : ℕ → Map String SubjectState → Map String SubjectState
  unfolding subject_rollover
  roll_subjects now [] = []
  roll_subjects now ((name, s) ∷ subjects) =
      (name, subject_rollover lib now s) ∷ roll_subjects now subjects

  unfoldable pub save_subjects : Map String SubjectState → Map String PersistedSubject
  unfolding save_subject
  save_subjects [] = []
  save_subjects ((name, s) ∷ subjects) = (name, save_subject s) ∷ save_subjects subjects

  unfoldable pub export_state : ℕ → Tracker → PersistedState × Tracker
  unfolding roll_subjects save_subjects
  export_state now t =
      let rolled = roll_subjects now t.subjects in
      (
        record { version = 3; captured_at = format_time lib now; subjects = save_subjects rolled },
        record t { subjects = rolled },
      )

  unfoldable pub parse_persisted_time : String → Option ℕ
  parse_persisted_time value = if is_empty value then none else lib.parse value

  -- The time of a text, or else the one that is there.
  unfoldable pub restored_time : String → ℕ → ℕ
  unfolding parse_persisted_time
  restored_time value present = elim (parse_persisted_time value) [ none ↦ present | some t ↦ t ]

  unfoldable pub restore_events : List PersistedEvent → List UsageEvent
  unfolding parse_persisted_time
  restore_events [] = []
  restore_events (e ∷ events) = elim (parse_persisted_time e.at) [
    | none ↦ restore_events events
    | some t ↦
        record {
          at = t;
          requests = e.requests;
          tokens = e.tokens;
          cost_micro_usd = e.cost_micro_usd;
          unpriced = e.unpriced;
        }
        ∷ restore_events events
  ]

  unfoldable pub persisted_compatible : WindowState → PersistedWindowState → ℕ → Bool → Bool
  unfolding schedule_key
  persisted_compatible w saved version client =
      if ltb version 2 || saved.legacy
      then (if client && not (w.type_name == "requests")
          then false
          else w.reset == "rolling"
            && (is_empty saved.duration || saved.duration == lib.duration_text w.duration))
      else if ltb version 3
      then (if client && not (w.type_name == "requests")
          then false
          else saved.reset == w.reset && saved.schedule == schedule_key lib w)
      else saved.type_name == w.type_name
        && saved.reset == w.reset
        && saved.schedule == schedule_key lib w

  -- The round of the inner loop for one window, whose subject has the same `reset_all`.
  unfoldable pub restore_window :
      ℕ → Bool → Map String PersistedWindowState → WindowState → WindowState
  unfolding lookup persisted_compatible restore_events sort_by
  restore_window version client saved w = elim (lookup w.name saved) [
    | none ↦ w
    | some p ↦
        if not (persisted_compatible w p version client)
        then w
        else record w { events = sort_by earlier (restore_events p.events) }
  ]

  unfoldable pub restore_windows :
      ℕ → Bool → Bool → Map String PersistedWindowState → List WindowState → List WindowState
  unfolding restore_window
  restore_windows version client same saved windows =
      if not same then windows else map (restore_window version client saved) windows

  unfoldable pub restore_subject : ℕ → Bool → PersistedSubject → SubjectState → SubjectState
  unfolding restored_time restore_windows schedule_text
  restore_subject version client saved s = record s {
    cooldown_until = restored_time saved.cooldown_until s.cooldown_until;
    next_probe_at = restored_time saved.next_probe_at s.next_probe_at;
    last_quota_exceeded_at = restored_time saved.last_quota_exceeded_at s.last_quota_exceeded_at;
    last_success_at = restored_time saved.last_success_at s.last_success_at;
    windows =
        restore_windows version client
          (ltb version 2 || saved.reset_all == schedule_text lib s.reset_all) saved.windows
          s.windows;
  }

  unfoldable pub import_subjects :
      ℕ → ℕ → Bool → Map String PersistedSubject → Map String SubjectState → Map String SubjectState
  unfolding lookup insert restore_subject subject_rollover
  import_subjects now version client [] subjects = subjects
  import_subjects now version client ((name, saved) ∷ rest) subjects = elim (lookup name subjects) [
    | none ↦ import_subjects now version client rest subjects
    | some s ↦
        import_subjects now version client rest
          (insert name (subject_rollover lib now (restore_subject version client saved s)) subjects)
  ]

  unfoldable pub import_state : ℕ → PersistedState → Tracker → Tracker
  unfolding import_subjects
  import_state now persisted t = record t {
    subjects = import_subjects now persisted.version t.client persisted.subjects t.subjects;
  }
