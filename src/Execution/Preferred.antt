-- ===== src/Execution/Preferred.antt =====
-- internal/execution/dispatcher.go: which of the errors of the attempts is returned.
pub mod Highest
use syrogo.Base.{
  ℕ, String, Bool, true, false, not, ◌&&◌, ◌||◌, Option, none, some, if◌then◌else◌, ltb, ◌==◌,
  nat_eq, is_empty, List, [], ◌∷◌,
}
use syrogo.Runtime.{ExecutionPlan, Request}
use syrogo.Provider.Error.{
  Error, nil, plain, ErrorKind, unknown, retryable, timeout, quota_exceeded, upstream_server_error,
  auth_failed, capability_unsupported, model_unavailable, fatal, is_nil_error, new_error,
  as_provider_error, normalize_error,
}
use syrogo.Execution.{Env}

unfoldable pub has_http_metadata : Error → Bool
unfolding as_provider_error
has_http_metadata e = elim (as_provider_error e) [
  | none ↦ false
  | some p ↦ not (p.status_code == 0) || not (is_empty p.request_id) || not (is_empty p.retry_after)
]

abbrev pub kind_priority : ErrorKind → Bool → ℕ
kind_priority quota_exceeded metadata = if metadata then 5 else 4
kind_priority auth_failed metadata = if metadata then 5 else 4
kind_priority fatal metadata = 3
kind_priority capability_unsupported metadata = 3
kind_priority timeout metadata = 2
kind_priority upstream_server_error metadata = 2
kind_priority retryable metadata = 2
kind_priority unknown metadata = 1
kind_priority model_unavailable metadata = 1

unfoldable pub preferred_error_priority : Error → ℕ
unfolding has_http_metadata normalize_error
preferred_error_priority e = kind_priority (normalize_error e) (has_http_metadata e)

unfoldable pub select_preferred_error : Error → Error → Error
unfolding preferred_error_priority
select_preferred_error current candidate =
    if is_nil_error current
    then candidate
    else if is_nil_error candidate
    then current
    else if ltb (preferred_error_priority current) (preferred_error_priority candidate)
    then candidate
    else current

unfoldable pub model_unavailable_error : Env → ExecutionPlan → Request → Error
unfolding new_error
model_unavailable_error env plan req =
    let model : String =
      if is_empty plan.requested_model then req.model else plan.requested_model in
    if is_empty model
    then new_error model_unavailable (plain "requested model is unavailable")
    else new_error model_unavailable (plain (env.errorf "model %q is unavailable" (model ∷ [])))
