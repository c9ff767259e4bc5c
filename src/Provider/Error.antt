-- ===== src/Provider/Error.antt =====
-- internal/provider/errors.go: error values, their kinds, and when a failed attempt may fall back.
-- `Error` is Go's `error` interface: `nil`, an error with no `Unwrap`, an error that wraps another,
-- and `*ProviderError` (never a typed nil pointer, which no code under internal/ builds).
use syrogo.Base.{
  ℕ, String, Bool, true, false, Option, none, some, if◌then◌else◌, ◌==◌, ◌||◌, is_empty, text_eq,
}

pub data ErrorKind : Type 0 where
  unknown retryable timeout quota_exceeded upstream_server_error auth_failed : ErrorKind
  capability_unsupported model_unavailable fatal : ErrorKind

pub data Error : Type 0 where
  nil : Error
  plain : String → Error
  wrapped : String → Error → Error
  provider_error : ErrorKind → Error → ℕ → String → String → Error

-- What a `**ProviderError` target holds after `AsProviderError`.
pub record ProviderError : Type 0 where
  pub kind : ErrorKind
  pub err : Error
  pub status_code : ℕ
  pub request_id : String
  pub retry_after : String

abbrev pub is_quota_exceeded : ErrorKind → Bool
is_quota_exceeded quota_exceeded = true
is_quota_exceeded _ = false

abbrev pub is_nil_error : Error → Bool
is_nil_error nil = true
is_nil_error _ = false

unfoldable pub new_error : ErrorKind → Error → Error
new_error kind err = provider_error kind err 0 "" ""

unfoldable pub as_provider_error : Error → Option ProviderError
as_provider_error nil = none
as_provider_error (plain message) = none
as_provider_error (wrapped message e) = as_provider_error e
as_provider_error (provider_error kind err status request retry) = some (record {
  kind = kind;
  err = err;
  status_code = status;
  request_id = request;
  retry_after = retry;
})

unfoldable pub normalize_error : Error → ErrorKind
unfolding as_provider_error
normalize_error e = elim (as_provider_error e) [ some p ↦ p.kind | none ↦ unknown ]

unfoldable pub error_text : Error → String
error_text nil = ""
error_text (plain message) = message
error_text (wrapped message e) = message
error_text (provider_error kind nil status request retry) = "provider error"
error_text (provider_error kind err status request retry) = error_text err

-- `errors.Is(err, context.DeadlineExceeded)` and the `net.Error` timeout test are the library's.
unfoldable pub new_transient_error : (Error → Bool) → (Error → Bool) → Error → Error
new_transient_error is_deadline is_timeout nil = nil
new_transient_error is_deadline is_timeout err =
    if is_deadline err
    then new_error timeout err
    else if is_timeout err
    then new_error timeout err
    else new_error retryable err

unfoldable pub is_recoverable : ErrorKind → Bool
is_recoverable retryable = true
is_recoverable timeout = true
is_recoverable quota_exceeded = true
is_recoverable upstream_server_error = true
is_recoverable model_unavailable = true
is_recoverable _ = false

-- `none` is the panic on an unsupported condition.
unfoldable pub fallback_allowed : String → ErrorKind → Bool → Option Bool
unfolding is_recoverable
fallback_allowed condition kind is_last =
    if is_last
    then some false
    else if is_empty condition || condition == "always"
    then some (is_recoverable kind)
    else if condition == "retryable"
    then some (is_recoverable kind)
    else if condition == "quota_exceeded"
    then some (is_quota_exceeded kind)
    else none
