-- ===== src/Quota/Tracker.antt =====
-- internal/quota/tracker.go: admission and recording. A nil tracker is `none`; each operation
-- takes the reading of `t.now()` as an argument; the mutex makes it one step.
pub mod Admission
pub mod Cooldown
pub mod Within
use syrogo.Base.{
  ℕ, suc, ◌+◌, String, Bool, true, false, not, ◌&&◌, ◌||◌, List, [], ◌∷◌, ◌++◌, map, Option, none,
  some, if◌then◌else◌, ltb, leb, ◌==◌, nat_eq, text_eq, is_empty,
}
use syrogo.Base.Map.{Map, lookup, insert}
use syrogo.Quota.Schedule.{TimeLib, Schedule, bounds}
use syrogo.Quota.Window.{
  UsageEvent, WindowState, Totals, usage, discard_before, rollover, Retry, not_limited, retry_at,
  index_panic, retry_after,
}

pub data QuotaReason : Type 0 where
  no_reason limited cooldown : QuotaReason

-- A limit or a use of a window: a count, or micro USD before `formatMicroUSD`.
pub data Amount : Type 0 where
  count micro_usd : ℕ → Amount

pub record BlockingWindow : Type 0 where
  pub window : String
  pub window_type : String
  pub limit : Amount
  pub used : Amount
  pub unit : String
  pub retry_after : String

pub record Decision : Type 0 where
  pub allowed : Bool
  pub reason : QuotaReason
  pub probe : Bool
  pub retry_after : ℕ
  pub blocking_windows : List BlockingWindow

pub record SubjectState : Type 0 where
  pub name : String
  pub inbound : String
  pub windows : List WindowState
  pub cooldown : ℕ
  pub probe_interval : ℕ
  pub reset_all : Schedule
  pub cooldown_until : ℕ
  pub next_probe_at : ℕ
  pub last_quota_exceeded_at : ℕ
  pub last_success_at : ℕ
  pub probe_in_flight : Bool

pub record Tracker : Type 0 where
  pub client : Bool
  pub subjects : Map String SubjectState

abbrev pub allow : Decision
allow = record {
  allowed = true;
  reason = no_reason;
  probe = false;
  retry_after = 0;
  blocking_windows = [];
}

abbrev pub allow_probe : Decision
allow_probe = record allow { probe = true }

abbrev pub refuse : QuotaReason → ℕ → List BlockingWindow → Decision
refuse reason retry windows = record {
  allowed = false;
  reason = reason;
  probe = false;
  retry_after = retry;
  blocking_windows = windows;
}

unfoldable pub in_cooldown : SubjectState → ℕ → Bool
in_cooldown s now = not (s.cooldown_until == 0) && ltb now s.cooldown_until

-- `w.typeName`, or "requests" where it is empty.
abbrev pub shown_type : WindowState → String
shown_type w = if is_empty w.type_name then "requests" else w.type_name

abbrev pub append_event : UsageEvent → WindowState → WindowState
append_event e w = record w { events = w.events ++ e ∷ [] }

unfoldable pub sum : List ℕ → ℕ
sum [] = 0
sum (n ∷ ns) = n + sum ns

-- Whether an event concerns a window of its type.
unfoldable pub concerns : UsageEvent → WindowState → Bool
concerns e w =
    if w.type_name == "requests"
    then ltb 0 e.requests
    else if w.type_name == "tokens"
    then ltb 0 e.tokens
    else if w.type_name == "cost"
    then ltb 0 e.cost_micro_usd || ltb 0 e.unpriced
    else true

module _ (lib : TimeLib) where
  abbrev pub format_time : ℕ → String
  format_time t = if t == 0 then "" else lib.format t

  unfoldable pub blocking_window : WindowState → ℕ → BlockingWindow
  unfolding usage
  blocking_window w reset_at =
      let t = usage w.events in
      let amounts : Amount × Amount × String =
        if shown_type w == "tokens"
        then (count w.max_tokens, count t.tokens, "tokens")
        else if shown_type w == "cost"
        then (micro_usd w.max_cost_micro_usd, micro_usd t.cost_micro_usd, "USD")
        else (count w.max_requests, count t.requests, "requests") in
      record {
        window = w.name;
        window_type = shown_type w;
        limit = amounts.0;
        used = amounts.1;
        unit = amounts.2;
        retry_after = format_time reset_at;
      }

  -- The loop of `blockingWindows`, with the latest reset so far. A panic ends the process.
  unfoldable pub blocking_from : ℕ → ℕ → List WindowState → Option (ℕ × List BlockingWindow)
  unfolding retry_after blocking_window
  blocking_from now latest [] = some (latest, [])
  blocking_from now latest (w ∷ windows) = elim (retry_after lib now w) [
    | not_limited ↦ blocking_from now latest windows
    | index_panic ↦ none
    | retry_at reset_at ↦
        let next : ℕ = if latest == 0 || ltb latest reset_at then reset_at else latest in
        elim (blocking_from now next windows) [
          | none ↦ none
          | some (latest', rest) ↦ some (latest', blocking_window w reset_at ∷ rest)
        ]
  ]

  unfoldable pub reset_windows : ℕ → SubjectState → List WindowState
  unfolding bounds discard_before
  reset_windows now s =
      if not (is_empty s.reset_all.period)
      then map (discard_before (bounds lib s.reset_all now).0) s.windows
      else s.windows

  unfoldable pub subject_rollover : ℕ → SubjectState → SubjectState
  unfolding reset_windows rollover
  subject_rollover now s =
      let windows = map (rollover lib now) (reset_windows now s) in
      if not (s.cooldown_until == 0) && not (ltb now s.cooldown_until)
      then record s {
        windows = windows;
        cooldown_until = 0;
        next_probe_at = 0;
        probe_in_flight = false;
      }
      else record s { windows = windows }

  -- The decision on a subject that is rolled over; `none` is a panic.
  unfoldable pub decide : ℕ → Bool → SubjectState → Option (Decision × SubjectState)
  unfolding in_cooldown blocking_from
  decide now probing s =
      if probing && in_cooldown s now
      then (if not (s.next_probe_at == 0) && not (ltb now s.next_probe_at) && not s.probe_in_flight
          then some (allow_probe, record s { probe_in_flight = true })
          else some (refuse cooldown s.next_probe_at [], s))
      else elim (blocking_from now 0 s.windows) [
        | none ↦ none
        | some (latest, []) ↦ some (allow, s)
        | some (latest, b ∷ blocking) ↦ some (refuse limited latest (b ∷ blocking), s)
      ]

  -- `beforeAttempt`: `BeforeAttempt` with a probe, `BeforeClientRequest` without.
  unfoldable pub before_attempt :
      Bool → Option Tracker → String → ℕ → Option (Decision × Option Tracker)
  unfolding lookup insert subject_rollover decide
  before_attempt probing none name now = some (allow, none)
  before_attempt probing (some t) name now = elim (lookup name t.subjects) [
    | none ↦ some (allow, some t)
    | some s ↦ elim (decide now probing (subject_rollover now s)) [
      | none ↦ none
      | some (d, s') ↦ some (d, some (record t { subjects = insert name s' t.subjects }))
    ]
  ]

  -- Every recording rolls the subject over first, and does nothing to an unknown one.
  unfoldable pub update_subject :
      (SubjectState → SubjectState) → Option Tracker → String → ℕ → Option Tracker
  unfolding lookup insert subject_rollover
  update_subject f none name now = none
  update_subject f (some t) name now = elim (lookup name t.subjects) [
    | none ↦ some t
    | some s ↦ some (record t { subjects = insert name (f (subject_rollover now s)) t.subjects })
  ]

  -- `RecordSuccess`, with the variadic token counts as a list.
  unfoldable pub record_success : Option Tracker → String → List ℕ → ℕ → Option Tracker
  unfolding update_subject sum
  record_success t outbound tokens now =
      update_subject
        (λ s. record s {
          windows =
              map
                (append_event (record {
                  at = now;
                  requests = 1;
                  tokens = sum tokens;
                  cost_micro_usd = 0;
                  unpriced = 0;
                }))
                s.windows;
          cooldown_until = 0;
          next_probe_at = 0;
          probe_in_flight = false;
          last_success_at = now;
        })
        t outbound now

  unfoldable pub record_quota_exceeded : Option Tracker → String → ℕ → Option Tracker
  unfolding update_subject
  record_quota_exceeded t outbound now =
      update_subject
        (λ s. record s {
          last_quota_exceeded_at = now;
          cooldown_until = now + s.cooldown;
          next_probe_at = now + s.probe_interval;
          probe_in_flight = false;
        })
        t outbound now

  unfoldable pub record_client_usage : Option Tracker → String → UsageEvent → ℕ → Option Tracker
  unfolding update_subject concerns
  record_client_usage t name event now =
      let e = record event { at = now } in
      update_subject
        (λ s. record s {
          windows = map (λ w. if concerns e w then append_event e w else w) s.windows;
          last_success_at = now;
        })
        t name now

  unfoldable pub record_client_request : Option Tracker → String → ℕ → Option Tracker
  unfolding record_client_usage
  record_client_request t client now =
      record_client_usage t client
        (record { at = 0; requests = 1; tokens = 0; cost_micro_usd = 0; unpriced = 0 }) now

  unfoldable pub record_client_terminal_usage :
      Option Tracker → String → ℕ → ℕ → Bool → ℕ → Option Tracker
  unfolding record_client_usage
  record_client_terminal_usage t client tokens cost priced now =
      record_client_usage t client
        (record {
          at = 0;
          requests = 0;
          tokens = tokens;
          cost_micro_usd = if priced then cost else 0;
          unpriced = if priced then 0 else 1;
        })
        now
