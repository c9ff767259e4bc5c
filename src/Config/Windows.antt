-- ===== src/Config/Windows.antt =====
-- The checks of quota windows and schedules in internal/config/config.go.
pub mod Sound
use syrogo.Base.{
  ℕ, suc, String, Bool, true, false, not, ◌&&◌, ◌||◌, List, [], ◌∷◌, if◌then◌else◌, ◌==◌, nat_eq,
  text_eq, is_empty, is_nil, ltb, length,
}
use syrogo.Base.Int.{ℤ, is_negative, is_positive, is_zero}
use syrogo.Runtime.{codes}
use syrogo.Router.Order.{contains}
use syrogo.Config.Checks.{
  Message, plain, with_text, with_number, with_part, Validity, valid, invalid, ◌>>◌, refuse,
  is_blank,
}
use syrogo.Config.Schema.{
  Parsers, QuotaWindowConfig, QuotaFixedScheduleConfig, OutboundQuotaWindowConfig,
  QuotaResetScheduleConfig,
}
use syrogo.Config.Cost.{Cost, micro_usd, no_cost, cost_usd_micro}

-- `prefix` and a format that begins with it.
abbrev pub at : Message → String → Message
at prefix format = with_part (plain format) prefix

abbrev pub not_long : Parsers → String → Bool
not_long go text = go.duration text == 0

-- The last byte is a Z, or the sixth byte from the end is a sign.
abbrev has_offset : List ℕ → Bool
has_offset [] = false
has_offset (c ∷ s) =
    (c == b'Z' && is_blank s) || (length (c ∷ s) == 6 && (c == b'+' || c == b'-')) || has_offset s

unfoldable pub validate_rfc3339_anchor : Parsers → Message → String → Validity
validate_rfc3339_anchor go field value = do
  refuse (is_empty value) (at field "%s is required")
  refuse (is_nil (go.parse_rfc3339 value)) (at field "%s must be RFC3339: %w")
  refuse (not (has_offset (codes value))) (at field "%s must include an explicit offset")

unfoldable pub validate_wall_clock : Parsers → Message → String → String → Validity
validate_wall_clock go prefix value timezone = do
  refuse (is_empty value) (at prefix "%s.time is required")
  refuse (not (go.is_minutes_clock value) && not (go.is_seconds_clock value))
      (at prefix "%s.time must use HH:MM[:SS]")
  refuse (is_empty timezone) (at prefix "%s.timezone is required")
  refuse (not (go.is_location timezone)) (at prefix "%s.timezone must be a valid IANA timezone")

unfoldable pub valid_weekday : String → Bool
valid_weekday value =
    value == "monday"
    || value == "tuesday"
    || value == "wednesday"
    || value == "thursday"
    || value == "friday"
    || value == "saturday"
    || value == "sunday"

unfoldable pub validate_fixed_window_schedule :
    Parsers → Message → OutboundQuotaWindowConfig → Validity
unfolding validate_rfc3339_anchor validate_wall_clock valid_weekday
validate_fixed_window_schedule go prefix window =
    let fixed = window.fixed in
    if is_empty fixed.period
    then invalid (at prefix "%s.fixed.period is required when reset=fixed")
    else if fixed.period == "interval"
    then (do
      refuse (not_long go window.duration)
          (at prefix "%s.duration must be a positive duration when fixed.period=interval")
      validate_rfc3339_anchor go (at prefix "%s.fixed.anchor") fixed.anchor
      refuse
          (not (is_empty fixed.time)
            || not (is_empty fixed.timezone)
            || not (is_empty fixed.weekday))
          (at prefix "%s.fixed time, timezone, and weekday are not supported when period=interval"))
    else if fixed.period == "daily"
    then (do
      refuse
          (not (is_empty window.duration)
            || not (is_empty fixed.anchor)
            || not (is_empty fixed.weekday))
          (at prefix
            "%s duration, fixed.anchor, and fixed.weekday are not supported when fixed.period=daily")
      validate_wall_clock go (at prefix "%s.fixed") fixed.time fixed.timezone)
    else if fixed.period == "weekly"
    then (do
      refuse (not (is_empty window.duration) || not (is_empty fixed.anchor))
          (at prefix "%s duration and fixed.anchor are not supported when fixed.period=weekly")
      validate_wall_clock go (at prefix "%s.fixed") fixed.time fixed.timezone
      refuse (not (valid_weekday fixed.weekday))
          (at prefix "%s.fixed.weekday must be monday-sunday"))
    else invalid (with_text (at prefix "%s.fixed.period %q is unsupported") fixed.period)

unfoldable pub validate_reset_schedule : Parsers → Message → QuotaResetScheduleConfig → Validity
unfolding validate_rfc3339_anchor validate_wall_clock valid_weekday
validate_reset_schedule go prefix schedule =
    if schedule.period == "interval"
    then (do
      refuse (not_long go schedule.duration)
          (at prefix "%s.duration must be a positive duration when period=interval")
      validate_rfc3339_anchor go (at prefix "%s.anchor") schedule.anchor
      refuse
          (not (is_empty schedule.time)
            || not (is_empty schedule.timezone)
            || not (is_empty schedule.weekday))
          (at prefix "%s time, timezone, and weekday are not supported when period=interval"))
    else if schedule.period == "daily"
    then (do
      refuse
          (not (is_empty schedule.duration)
            || not (is_empty schedule.anchor)
            || not (is_empty schedule.weekday))
          (at prefix "%s duration, anchor, and weekday are not supported when period=daily")
      validate_wall_clock go prefix schedule.time schedule.timezone)
    else if schedule.period == "weekly"
    then (do
      refuse (not (is_empty schedule.duration) || not (is_empty schedule.anchor))
          (at prefix "%s duration and anchor are not supported when period=weekly")
      validate_wall_clock go prefix schedule.time schedule.timezone
      refuse (not (valid_weekday schedule.weekday)) (at prefix "%s.weekday must be monday-sunday"))
    else invalid (with_text (at prefix "%s.period %q is unsupported") schedule.period)

-- `window.Fixed != (QuotaFixedScheduleConfig{})`.
abbrev pub is_fixed_set : QuotaFixedScheduleConfig → Bool
is_fixed_set f =
    not (is_empty f.period)
    || not (is_empty f.anchor)
    || not (is_empty f.time)
    || not (is_empty f.timezone)
    || not (is_empty f.weekday)

unfoldable pub validate_reset : Parsers → Message → OutboundQuotaWindowConfig → Validity
unfolding validate_fixed_window_schedule
validate_reset go prefix window =
    if window.reset == "rolling"
    then (do
      refuse (not_long go window.duration)
          (at prefix "%s.duration must be a positive duration when reset=rolling")
      refuse (is_fixed_set window.fixed) (at prefix "%s.fixed is only supported when reset=fixed"))
    else if window.reset == "fixed"
    then validate_fixed_window_schedule go prefix window
    else invalid (with_text (at prefix "%s.reset %q is unsupported") window.reset)

unfoldable pub validate_outbound_window :
    Parsers → Message → List String → OutboundQuotaWindowConfig → Validity
unfolding validate_reset
validate_outbound_window go prefix seen window = do
  refuse (is_empty window.name) (at prefix "%s.name is required")
  refuse (contains seen window.name) (with_text (at prefix "%s.name duplicates %q") window.name)
  refuse (is_negative window.max_requests)
      (at prefix "%s.max_requests must be greater than or equal to 0")
  refuse (is_negative window.max_tokens)
      (at prefix "%s.max_tokens must be greater than or equal to 0")
  refuse (is_zero window.max_requests && is_zero window.max_tokens)
      (at prefix "%s requires max_requests or max_tokens greater than 0")
  validate_reset go prefix window

abbrev pub window_prefix : Message → ℕ → Message
window_prefix prefix i = with_number (at prefix "%s.windows[%d]") i

unfoldable pub validate_outbound_windows_from :
    Parsers → Message → ℕ → List String → List OutboundQuotaWindowConfig → Validity
unfolding validate_outbound_window
validate_outbound_windows_from go prefix i seen [] = valid
validate_outbound_windows_from go prefix i seen (window ∷ windows) =
    validate_outbound_window go (window_prefix prefix i) seen window
    >> validate_outbound_windows_from go prefix (suc i) (window.name ∷ seen) windows

unfoldable pub validate_outbound_quota_windows :
    Parsers → Message → List OutboundQuotaWindowConfig → Validity
unfolding validate_outbound_windows_from
validate_outbound_quota_windows go prefix [] =
    invalid (at prefix "%s.windows is required when quota is enabled")
validate_outbound_quota_windows go prefix (window ∷ windows) =
    validate_outbound_windows_from go prefix 0 [] (window ∷ windows)

unfoldable pub validate_cost : Message → List ℕ → Validity
unfolding cost_usd_micro
validate_cost prefix text = elim (cost_usd_micro text) [
  | micro_usd v ↦ valid
  | no_cost m ↦ invalid (with_part (at prefix "%s.max_cost_usd %v") m)
]

-- The `switch` on the type of a client's window.
unfoldable pub validate_limits : Message → QuotaWindowConfig → Validity
unfolding validate_cost
validate_limits prefix window =
    if window.window_type == "requests"
    then (do
      refuse (not (is_positive window.max_requests))
          (at prefix "%s.max_requests must be greater than 0")
      refuse (not (is_zero window.max_tokens) || not (is_blank window.max_cost_usd))
          (at prefix "%s type=requests only supports max_requests"))
    else if window.window_type == "tokens"
    then (do
      refuse (not (is_positive window.max_tokens))
          (at prefix "%s.max_tokens must be greater than 0")
      refuse (not (is_zero window.max_requests) || not (is_blank window.max_cost_usd))
          (at prefix "%s type=tokens only supports max_tokens"))
    else if window.window_type == "cost"
    then (do
      refuse (not (is_zero window.max_requests) || not (is_zero window.max_tokens))
          (at prefix "%s type=cost only supports max_cost_usd")
      validate_cost prefix window.max_cost_usd)
    else invalid (with_text (at prefix "%s.type %q is unsupported") window.window_type)

unfoldable pub validate_window : Parsers → Message → List String → QuotaWindowConfig → Validity
unfolding validate_limits
validate_window go prefix seen window = do
  refuse (is_empty window.name) (at prefix "%s.name is required")
  refuse (contains seen window.name) (with_text (at prefix "%s.name duplicates %q") window.name)
  refuse (not_long go window.duration) (at prefix "%s.duration must be a positive duration")
  validate_limits prefix window

unfoldable pub validate_windows_from :
    Parsers → Message → ℕ → List String → List QuotaWindowConfig → Validity
unfolding validate_window
validate_windows_from go prefix i seen [] = valid
validate_windows_from go prefix i seen (window ∷ windows) =
    validate_window go (window_prefix prefix i) seen window
    >> validate_windows_from go prefix (suc i) (window.name ∷ seen) windows

unfoldable pub validate_quota_windows : Parsers → Message → List QuotaWindowConfig → Validity
unfolding validate_windows_from
validate_quota_windows go prefix [] =
    invalid (at prefix "%s.windows is required when quota is enabled")
validate_quota_windows go prefix (window ∷ windows) =
    validate_windows_from go prefix 0 [] (window ∷ windows)
