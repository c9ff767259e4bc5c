-- ===== src/Execution.antt =====
-- internal/execution/dispatcher.go: what the dispatcher keeps, and what it tells the trackers, the
-- event recorder and the store. The store is the list of the records handed to it. The latency
-- recorder is left out.
pub mod Preferred
pub mod Dispatch
pub mod Stream
use syrogo.Base.{
  ℕ, ◌+◌, ◌-◌, ◌/◌, String, Bool, true, false, not, ◌&&◌, List, [], ◌∷◌, ◌++◌, Option, none, some,
  if◌then◌else◌, ◌==◌, nat_eq, is_empty, is_some, is_nil,
}
use syrogo.Runtime.{
  CompletionProvider, ExecutionPlan, ExecutionStep, Usage, UsageBreakdown, UsageRecord, UsageStatus,
  success, failed,
}
use syrogo.Provider.Error.{
  ErrorKind, is_quota_exceeded, unknown, retryable, timeout, quota_exceeded, upstream_server_error,
  auth_failed, capability_unsupported, model_unavailable, fatal,
}
use syrogo.Provider.Health.{HealthReason, HealthDecision, HealthTracker}
use syrogo.Provider.Health
use syrogo.Quota.Schedule.{TimeLib}
use syrogo.Quota.Events.{Event, EventRecorder, record_event}
use syrogo.Quota.Tracker.{
  QuotaReason, limited, cooldown, Decision, Tracker, record_quota_exceeded,
  record_client_terminal_usage,
}
use syrogo.Quota.Tracker

-- What the dispatcher calls outside: the time package, `fmt.Errorf` on a format and the texts of
-- its arguments, the price of a breakdown, and `int64(math.Round(cost * 1_000_000))`.
pub record Env : Type 0 where
  pub time : TimeLib
  pub errorf : String → List String → String
  pub cost_usd_with_match : String → String → UsageBreakdown → ℕ × Bool
  pub micro_usd : ℕ → ℕ

-- The values of the context.
pub record Context : Type 0 where
  pub request_id : String
  pub session_id : String
  pub agent : String

pub record Dispatcher : Type 0 where
  pub store : List UsageRecord
  pub quota_tracker : Option Tracker
  pub client_quota_tracker : Option Tracker
  pub health_tracker : Option HealthTracker
  pub event_recorder : Option EventRecorder

-- The readings of the clock by the calls on the trackers and by the recorder of events.
pub record Clock : Type 0 where
  pub quota_at : ℕ
  pub health_at : ℕ
  pub record_quota_at : ℕ
  pub record_health_at : ℕ
  pub client_at : ℕ
  pub finished_at : ℕ
  pub stamp : String

-- `string(kind)`.
unfoldable pub kind_text : ErrorKind → String
kind_text unknown = "unknown"
kind_text retryable = "retryable"
kind_text timeout = "timeout"
kind_text quota_exceeded = "quota_exceeded"
kind_text upstream_server_error = "upstream_server_error"
kind_text auth_failed = "auth_failed"
kind_text capability_unsupported = "capability_unsupported"
kind_text model_unavailable = "model_unavailable"
kind_text fatal = "fatal"

unfoldable pub quota_reason_text : QuotaReason → String
quota_reason_text QuotaReason.no_reason = ""
quota_reason_text limited = "limited"
quota_reason_text cooldown = "cooldown"

unfoldable pub health_reason_text : HealthReason → String
health_reason_text HealthReason.no_reason = ""
health_reason_text HealthReason.available = "available"
health_reason_text HealthReason.degraded = "degraded"
health_reason_text HealthReason.probing = "probing"

unfoldable pub normalized_usage_tokens : Option Usage → ℕ
normalized_usage_tokens none = 0
normalized_usage_tokens (some u) =
    if not (u.total_tokens == 0) then u.total_tokens else u.input_tokens + u.output_tokens

unfoldable pub provider_name : ExecutionStep → String
provider_name step = elim step.outbound_target [ none ↦ step.outbound_name | some p ↦ p.name ]

abbrev pub outbound_event : String → String → String → String → Event
outbound_event event_type outbound reason retry = record {
  time = "";
  event_type = event_type;
  client = "";
  inbound = "";
  outbound = outbound;
  reason = reason;
  retry_after = retry;
}

unfoldable pub add_event : Event → String → Dispatcher → Dispatcher
unfolding record_event
add_event e stamp d = record d { event_recorder = record_event d.event_recorder stamp e }

unfoldable pub record_usage : UsageRecord → Dispatcher → Dispatcher
record_usage r d = record d { store = d.store ++ r ∷ [] }

unfoldable pub breakdown_of : Option Usage → UsageBreakdown
unfolding normalized_usage_tokens
breakdown_of none = record {
  request_count = 1;
  input_tokens = 0;
  output_tokens = 0;
  cached_input_read_tokens = 0;
  cached_input_write_tokens = 0;
  total_tokens = 0;
}
breakdown_of (some u) = record {
  request_count = 1;
  input_tokens = u.input_tokens;
  output_tokens = u.output_tokens;
  cached_input_read_tokens = u.cached_input_read_tokens;
  cached_input_write_tokens = u.cached_input_write_tokens;
  total_tokens = normalized_usage_tokens (some u);
}

module _ (env : Env) where
  unfoldable pub format_retry_after : ℕ → String
  format_retry_after value = if value == 0 then "" else env.time.format value

  unfoldable pub record_outbound_limited : String → Decision → Clock → Dispatcher → Dispatcher
  unfolding add_event quota_reason_text format_retry_after
  record_outbound_limited outbound decision clock d =
      add_event
        (outbound_event "outbound_limited" outbound (quota_reason_text decision.reason)
          (format_retry_after decision.retry_after))
        clock.stamp d

  unfoldable pub record_provider_health_limited :
      String → HealthDecision → Clock → Dispatcher → Dispatcher
  unfolding add_event health_reason_text format_retry_after
  record_provider_health_limited outbound decision clock d =
      add_event
        (outbound_event "provider_health_limited" outbound (health_reason_text decision.reason)
          (format_retry_after decision.retry_after))
        clock.stamp d

  unfoldable pub record_provider_error : String → ErrorKind → Clock → Dispatcher → Dispatcher
  unfolding add_event kind_text Health.record_failure record_quota_exceeded
  record_provider_error outbound kind clock d =
      let told : Dispatcher = record d {
        health_tracker =
            Health.record_failure d.health_tracker outbound kind clock.record_health_at;
      } in
      if is_some d.quota_tracker && is_quota_exceeded kind
      then add_event (outbound_event "outbound_quota_exceeded" outbound (kind_text kind) "")
          clock.stamp
          (record told {
            quota_tracker =
                record_quota_exceeded env.time d.quota_tracker outbound clock.record_quota_at;
          })
      else told

  unfoldable pub record_success : String → ℕ → Bool → Bool → Clock → Dispatcher → Dispatcher
  unfolding add_event Health.record_success Tracker.record_success
  record_success outbound tokens quota_probe health_probe clock d =
      let told : Dispatcher = record d {
        quota_tracker =
            Tracker.record_success env.time d.quota_tracker outbound (tokens ∷ [])
              clock.record_quota_at;
        health_tracker = Health.record_success d.health_tracker outbound clock.record_health_at;
      } in
      let first : Dispatcher =
        if quota_probe
        then add_event (outbound_event "outbound_probe_succeeded" outbound "" "") clock.stamp told
        else told in
      if health_probe
      then add_event (outbound_event "provider_probe_succeeded" outbound "" "") clock.stamp first
      else first

  unfoldable pub record_client_terminal_success : UsageRecord → Clock → Dispatcher → Dispatcher
  unfolding record_client_terminal_usage
  record_client_terminal_success r clock d = elim r.status [
    | failed ↦ d
    | success ↦ record d {
      client_quota_tracker =
          record_client_terminal_usage env.time d.client_quota_tracker r.client_name
            r.breakdown.total_tokens (env.micro_usd r.cost_usd) r.priced clock.client_at;
    }
  ]

  -- The times are formatted by the library; a difference that is not positive is 0.
  unfoldable pub finalize_usage_record :
      Context
      → ExecutionPlan
      → ExecutionStep
      → String
      → String
      → Option Usage
      → UsageStatus
      → String
      → ℕ
      → ℕ
      → ℕ
      → UsageRecord
  unfolding breakdown_of provider_name
  finalize_usage_record ctx plan step requested executed usage status kind started finished
        fallbacks =
      let model : String = if is_empty executed then requested else executed in
      let price : ℕ × Bool =
        env.cost_usd_with_match (provider_name step) model (breakdown_of usage) in
      record {
        request_id = ctx.request_id;
        client_name = plan.client_name;
        inbound_name = plan.inbound_name;
        inbound_protocol = plan.inbound_protocol;
        active_tag = plan.active_tag;
        matched_rule = plan.matched_rule;
        strategy = plan.strategy;
        outbound_name = step.outbound_name;
        outbound_protocol = step.outbound_protocol;
        provider_name = provider_name step;
        requested_model = requested;
        executed_model = model;
        usage_source = elim usage [ none ↦ "" | some u ↦ u.source ];
        status = status;
        error_kind = kind;
        session_id = ctx.session_id;
        agent = ctx.agent;
        cost_usd = price.0;
        priced = price.1;
        breakdown = breakdown_of usage;
        started_at = started;
        finished_at = finished;
        latency_ms = (finished - started) / 1000000;
        fallback_count = fallbacks;
      }
