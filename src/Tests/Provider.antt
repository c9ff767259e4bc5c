-- ===== src/Tests/Provider.antt =====
-- Runs of the health tracker and of the error kinds.
use syrogo.Base.{◌≡◌, refl, String, true, false, Option, some, [], ◌∷◌, All}
use syrogo.Base.Map.{Map, lookup}
use syrogo.Provider.Error.{
  Error, plain, wrapped, provider_error, ProviderError, retryable, auth_failed, quota_exceeded,
  as_provider_error, normalize_error, is_recoverable, fallback_allowed,
}
use syrogo.Provider.Health.{
  HealthState, HealthTracker, new_health_tracker, before_attempt, record_failure,
}
use syrogo.Provider.Health.Breaker.{
  half_open, probe, refuse, Call, attempt, success, failure, breaker_run, view, interval_of,
  answers, calls_of, answers-breaker_run,
}
use syrogo.Provider.Health.Probe.{IsQuiet, answers-half_open}

abbrev quota_error : ProviderError
quota_error = record {
  kind = quota_exceeded;
  err = plain "limit";
  status_code = 429;
  request_id = "";
  retry_after = "";
}

abbrev wrapped_quota_error : Error
wrapped_quota_error =
    wrapped "dispatch: limit" (provider_error quota_exceeded (plain "limit") 429 "" "")

chain-run : as_provider_error wrapped_quota_error ≡ some quota_error
unfolding as_provider_error
chain-run = refl

fallback_allowed-wrapped :
    fallback_allowed "retryable" (normalize_error wrapped_quota_error) false ≡ some true
unfolding fallback_allowed normalize_error
fallback_allowed-wrapped = refl

-- Three failures, a refusal, the probe, a failure that is not recoverable, and later attempts.
abbrev outage : Map String Call
outage =
    ("a", failure retryable 1)
    ∷ ("a", failure retryable 2)
    ∷ ("b", attempt 2)
    ∷ ("a", failure retryable 3)
    ∷ ("a", attempt 4)
    ∷ ("a", attempt 40)
    ∷ ("a", failure auth_failed 41)
    ∷ ("a", attempt 1000)
    ∷ []

abbrev two_outbounds : Option HealthTracker
two_outbounds = new_health_tracker ("a" ∷ "b" ∷ []) 30

outage-answers : answers "a" two_outbounds outage ≡ refuse ∷ probe ∷ refuse ∷ []
unfolding answers new_health_tracker before_attempt record_failure
outage-answers = refl

answers-breaker_run_example :
    answers "a" two_outbounds outage
    ≡ breaker_run (interval_of two_outbounds) (view two_outbounds "a") (calls_of "a" outage)
answers-breaker_run_example = answers-breaker_run "a" two_outbounds outage

abbrev probing_state : HealthState
probing_state = record {
  name = "a";
  last_success_at = 0;
  last_failure_at = 3;
  last_error_kind = some retryable;
  consecutive_failures = 3;
  next_probe_at = 33;
  probe_in_flight = true;
}

abbrev probing_tracker : Option HealthTracker
probing_tracker = some (record { probe_interval = 30; outbounds = ("a", probing_state) ∷ [] })

abbrev after_probe : Map String Call
after_probe =
    ("a", failure auth_failed 41)
    ∷ ("a", attempt 1000)
    ∷ ("b", success 1001)
    ∷ ("a", attempt 9999)
    ∷ []

answers-half_open_example : All (λ v. v ≡ refuse) (answers "a" probing_tracker after_probe)
answers-half_open_example = answers-half_open "a" probing_tracker after_probe seen quiet
  where
    seen : view probing_tracker "a" ≡ some half_open
    seen = unfold lookup in refl

    quiet : All IsQuiet (calls_of "a" after_probe)
    quiet = unfold is_recoverable in (refl, (tt, (tt, tt)))
