-- ===== src/Quota/Window.antt =====
-- internal/quota/tracker.go: usage windows. Counts and costs are natural numbers that do not
-- wrap, and a limit of 0 is no limit. `now.Add(-d)` is compared without the subtraction.
pub mod Expiry
pub mod Earliest
use syrogo.Base.{
  ℕ, suc, ◌+◌, ◌-◌, String, Bool, true, false, not, ◌&&◌, ◌||◌, List, [], ◌∷◌, Option, none, some,
  if◌then◌else◌, ltb, leb, ◌==◌, text_eq, drop,
}
use syrogo.Quota.Schedule.{TimeLib, Schedule, bounds}

pub record UsageEvent : Type 0 where
  pub at : ℕ
  pub requests : ℕ
  pub tokens : ℕ
  pub cost_micro_usd : ℕ
  pub unpriced : ℕ

pub record WindowState : Type 0 where
  pub name : String
  pub type_name : String
  pub reset : String
  pub duration : ℕ
  pub fixed : Schedule
  pub max_requests : ℕ
  pub max_tokens : ℕ
  pub max_cost_micro_usd : ℕ
  pub events : List UsageEvent

pub record Totals : Type 0 where
  pub requests : ℕ
  pub tokens : ℕ
  pub cost_micro_usd : ℕ
  pub unpriced : ℕ

abbrev pub no_usage : Totals
no_usage = record { requests = 0; tokens = 0; cost_micro_usd = 0; unpriced = 0 }

abbrev pub add_event : Totals → UsageEvent → Totals
add_event t e = record {
  requests = t.requests + e.requests;
  tokens = t.tokens + e.tokens;
  cost_micro_usd = t.cost_micro_usd + e.cost_micro_usd;
  unpriced = t.unpriced + e.unpriced;
}

-- The loop of `usage`.
unfoldable pub usage_from : Totals → List UsageEvent → Totals
usage_from t [] = t
usage_from t (e ∷ events) = usage_from (add_event t e) events

unfoldable pub usage : List UsageEvent → Totals
unfolding usage_from
usage events = usage_from no_usage events

-- The index at which the scan of `discardBefore` and `discardThrough` stops.
unfoldable pub leading : (UsageEvent → Bool) → List UsageEvent → ℕ
leading old [] = 0
leading old (e ∷ events) = if old e then suc (leading old events) else 0

unfoldable pub discard : (UsageEvent → Bool) → List UsageEvent → List UsageEvent
unfolding leading
discard old events = drop (leading old events) events

unfoldable pub discard_before : ℕ → WindowState → WindowState
unfolding discard
discard_before cutoff w = record w { events = discard (λ e. ltb e.at cutoff) w.events }

-- `discardThrough(now.Add(-duration))`.
unfoldable pub discard_through : ℕ → ℕ → WindowState → WindowState
unfolding discard
discard_through now duration w = record w {
  events = discard (λ e. leb (e.at + duration) now) w.events;
}

unfoldable pub rollover : TimeLib → ℕ → WindowState → WindowState
unfolding bounds discard_before discard_through
rollover lib now w =
    if w.reset == "fixed"
    then discard_before (bounds lib w.fixed now).0 w
    else discard_through now w.duration w

-- `limited`: a limit is set and reached.
abbrev pub reached : ℕ → ℕ → Bool
reached maximum used = ltb 0 maximum && leb maximum used

-- How much has to go before the limit is no longer reached.
abbrev pub needed : ℕ → ℕ → ℕ
needed maximum used = if reached maximum used then used - maximum + 1 else 0

abbrev pub is_limited : WindowState → Totals → Bool
is_limited w t =
    reached w.max_requests t.requests
    || reached w.max_tokens t.tokens
    || reached w.max_cost_micro_usd t.cost_micro_usd

abbrev pub enough : Totals → Totals → Bool
enough need removed =
    leb need.requests removed.requests
    && leb need.tokens removed.tokens
    && leb need.cost_micro_usd removed.cost_micro_usd

pub data Retry : Type 0 where
  not_limited : Retry
  retry_at : ℕ → Retry
  -- The index of the last event of an empty list.
  index_panic : Retry

-- `w.events[len(w.events)-1].At.Add(w.duration)`.
unfoldable pub last_expiry : ℕ → List UsageEvent → Retry
last_expiry duration [] = index_panic
last_expiry duration (e ∷ []) = retry_at (e.at + duration)
last_expiry duration (e ∷ f ∷ events) = last_expiry duration (f ∷ events)

-- The loop over the events, oldest first; behind it stands the expiry of the last one.
unfoldable pub retry_scan : ℕ → Totals → Totals → Retry → List UsageEvent → Retry
retry_scan duration need removed behind [] = behind
retry_scan duration need removed behind (e ∷ events) =
    let later = retry_scan duration need (add_event removed e) behind events in
    if enough need (add_event removed e) then retry_at (e.at + duration) else later

abbrev pub need_of : WindowState → Totals → Totals
need_of w t = record {
  requests = needed w.max_requests t.requests;
  tokens = needed w.max_tokens t.tokens;
  cost_micro_usd = needed w.max_cost_micro_usd t.cost_micro_usd;
  unpriced = 0;
}

unfoldable pub rolling_retry : WindowState → Retry
unfolding usage retry_scan last_expiry
rolling_retry w =
    retry_scan w.duration (need_of w (usage w.events)) no_usage (last_expiry w.duration w.events)
      w.events

unfoldable pub retry_after : TimeLib → ℕ → WindowState → Retry
unfolding usage bounds rolling_retry
retry_after lib now w =
    if not (is_limited w (usage w.events))
    then not_limited
    else if w.reset == "fixed"
    then retry_at (bounds lib w.fixed now).1
    else rolling_retry w
