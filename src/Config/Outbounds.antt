-- ===== src/Config/Outbounds.antt =====
-- The checks of outbounds in internal/config/config.go and the protocols of internal/protocol.
use syrogo.Base.{
  ℕ, suc, String, Bool, not, ◌&&◌, ◌||◌, List, [], ◌∷◌, none, some, if◌then◌else◌, ◌==◌, nat_eq,
  text_eq, is_empty, is_some,
}
use syrogo.Base.Map.{Map, lookup, insert}
use syrogo.Runtime.{codes}
use syrogo.Router.Compile.{OutboundModelSpec}
use syrogo.Config.Checks.{
  Message, plain, with_text, with_number, with_part, Validity, valid, invalid, ◌>>◌, refuse, unless,
  is_blank, any_code, trim_space, is_trimmed, same_codes,
}
use syrogo.Config.Schema.{Parsers, OutboundConfig, OutboundCapabilities, QuotaResetScheduleConfig}
use syrogo.Config.Windows.{at, not_long, validate_outbound_quota_windows, validate_reset_schedule}

unfoldable pub is_supported_inbound : String → Bool
is_supported_inbound name =
    name == "openai_chat" || name == "openai_responses" || name == "anthropic_messages"

unfoldable pub is_supported_outbound : String → Bool
is_supported_outbound name =
    name == "mock"
    || name == "openai_chat"
    || name == "openai_responses"
    || name == "anthropic_messages"

-- A format about an outbound, which begins with its name.
abbrev pub of : OutboundConfig → String → Message
of o format = with_text (plain format) o.name

abbrev is_text : List ℕ → String → Bool
is_text s t = same_codes s (codes t)

unfoldable pub validate_auth_type : List ℕ → OutboundConfig → Validity
validate_auth_type auth_type o =
    if is_text auth_type "claude_consumer_oauth"
    then refuse (not (o.protocol == "anthropic_messages"))
        (of o "outbounds.%s.auth.type claude_consumer_oauth requires anthropic_messages")
    else if is_text auth_type "codex_consumer_oauth"
    then refuse (not (o.protocol == "openai_responses"))
        (of o "outbounds.%s.auth.type codex_consumer_oauth requires openai_responses")
    else invalid (of o "outbounds.%s.auth.type %q is unsupported")

unfoldable pub validate_outbound_auth : OutboundConfig → Validity
unfolding trim_space validate_auth_type
validate_outbound_auth o =
    let auth_type = trim_space o.auth.auth_type in
    let credential_ref = trim_space o.auth.credential_ref in
    if is_blank auth_type
    then refuse (not (is_blank credential_ref))
        (of o "outbounds.%s.auth.credential_ref requires auth.type")
    else (do
      refuse (not (is_empty o.auth_token)) (of o "outbounds.%s.auth cannot be used with auth_token")
      refuse (is_blank credential_ref) (of o "outbounds.%s.auth.credential_ref is required")
      refuse (any_code (λ c. c == 47 || c == 92) credential_ref)
          (of o "outbounds.%s.auth.credential_ref is invalid")
      validate_auth_type auth_type o
      refuse (not (is_empty o.endpoint))
          (of o "outbounds.%s.endpoint must be empty for OAuth consumer compatibility"))

-- The names that are taken, each with the field that took it, after a model's name and aliases.
pub data Seen : Type 0 where
  taken : Map String Message → Seen
  refused : Message → Seen

abbrev pub also : Seen → (Map String Message → Seen) → Seen
also (taken m) f = f m
also (refused e) f = refused e

-- A name at `field`, whose two complaints are given.
unfoldable pub take_name :
    Message → String → Message → (Message → Message) → Map String Message → Seen
unfolding is_trimmed lookup insert
take_name field name untrimmed conflict seen =
    if is_empty name || not (is_trimmed name) then refused untrimmed else elim (lookup name seen) [
      | some owner ↦ refused (conflict owner)
      | none ↦ taken (insert name field seen)
    ]

unfoldable pub take_aliases : Message → ℕ → List String → Map String Message → Seen
unfolding take_name
take_aliases prefix j [] seen = taken seen
take_aliases prefix j (alias ∷ aliases) seen =
    let field = with_number (at prefix "%s.aliases[%d]") j in
    also
      (take_name field alias (at field "%s must be non-empty and trimmed")
        (λ owner. with_part (with_text (at field "%s %q conflicts with %s") alias) owner) seen)
      (take_aliases prefix (suc j) aliases)

unfoldable pub take_models : (ℕ → Message) → ℕ → List OutboundModelSpec → Map String Message → Seen
unfolding take_name take_aliases
take_models prefix i [] seen = taken seen
take_models prefix i (model ∷ models) seen =
    also
      (also
        (take_name (at (prefix i) "%s.name") model.name
          (at (prefix i) "%s.name must be non-empty and trimmed")
          (λ owner.
            with_part (with_text (at (prefix i) "%s.name %q conflicts with %s") model.name) owner)
          seen)
        (take_aliases (prefix i) 0 model.aliases))
      (take_models prefix (suc i) models)

unfoldable pub validate_outbound_models : OutboundConfig → Validity
unfolding take_models
validate_outbound_models o =
    elim (take_models (λ i. with_number (of o "outbounds.%s.models[%d]") i) 0 o.models []) [
      | taken m ↦ valid
      | refused e ↦ invalid e
    ]

unfoldable pub validate_outbound_proxy : Parsers → OutboundConfig → Validity
unfolding trim_space
validate_outbound_proxy go o =
    if is_blank (trim_space o.proxy_url)
    then valid
    else elim (go.parse_url (trim_space o.proxy_url)) [
      | none ↦ invalid (of o "outbounds.%s.proxy.url is invalid: %w")
      | some u ↦
          if is_empty u.host
          then invalid (of o "outbounds.%s.proxy.url host is required")
          else refuse (not (u.scheme == "http" || u.scheme == "https" || u.scheme == "socks5"))
              (with_text (of o "outbounds.%s.proxy.url has unsupported scheme %q") u.scheme)
    ]

-- `quota.ResetAll.Schedule != (QuotaResetScheduleConfig{})`.
abbrev is_schedule_set : QuotaResetScheduleConfig → Bool
is_schedule_set s =
    not (is_empty s.period)
    || not (is_empty s.duration)
    || not (is_empty s.anchor)
    || not (is_empty s.time)
    || not (is_empty s.timezone)
    || not (is_empty s.weekday)

unfoldable pub validate_outbound_quota : Parsers → OutboundConfig → Validity
unfolding validate_outbound_quota_windows validate_reset_schedule
validate_outbound_quota go o =
    let prefix = of o "outbounds.%s.quota" in
    unless (not o.quota.enabled) (do
      validate_outbound_quota_windows go prefix o.quota.windows
      refuse (not_long go o.quota.cooldown)
          (of o "outbounds.%s.quota.cooldown must be a positive duration")
      refuse (not_long go o.quota.probe_interval)
          (of o "outbounds.%s.quota.probe_interval must be a positive duration")
      unless (not (o.quota.reset_all.enabled || is_schedule_set o.quota.reset_all.schedule)) (
          validate_reset_schedule go (at prefix "%s.reset_all.schedule")
            o.quota.reset_all.schedule))

unfoldable pub validate_endpoint : OutboundConfig → Validity
validate_endpoint o =
    unless
      (o.protocol == "mock"
        || o.auth.auth_type == "claude_consumer_oauth"
        || o.auth.auth_type == "codex_consumer_oauth")
      (do
        refuse (is_empty o.endpoint) (of o "outbounds.%s.endpoint is required")
        refuse (is_empty o.auth_token) (of o "outbounds.%s.auth_token is required"))

abbrev has_responses : OutboundCapabilities → Bool
has_responses c =
    is_some c.responses_previous_response_id
    || is_some c.responses_builtin_tools
    || is_some c.responses_tool_result_status_error
    || is_some c.responses_assistant_history_native

unfoldable pub validate_protocol_capabilities : OutboundConfig → Validity
validate_protocol_capabilities o =
    if o.protocol == "openai_responses"
    then valid
    else if o.protocol == "openai_chat" || o.protocol == "anthropic_messages"
    then refuse (has_responses o.capabilities)
        (of o "outbounds.%s.responses capabilities are only supported for openai_responses")
    else if o.protocol == "mock"
    then refuse
        (has_responses o.capabilities
          || o.capabilities.usage_estimation
          || not (is_empty o.capabilities.usage_estimation_mode))
        (of o "outbounds.%s.capabilities is unsupported for mock")
    else valid

unfoldable pub validate_capabilities : OutboundConfig → Validity
unfolding validate_protocol_capabilities
validate_capabilities o = do
  validate_protocol_capabilities o
  refuse
      (not (is_empty o.capabilities.usage_estimation_mode) && not o.capabilities.usage_estimation)
      (of o "outbounds.%s.usage_estimation_mode requires usage_estimation=true")
  unless (not o.capabilities.usage_estimation) (do
    refuse (not (o.protocol == "openai_chat") && not (o.protocol == "anthropic_messages")) (
        of o
          "outbounds.%s.usage_estimation is only supported for openai_chat and anthropic_messages")
    refuse (is_empty o.capabilities.usage_estimation_mode)
        (of o "outbounds.%s.usage_estimation_mode is required when usage_estimation is enabled")
    refuse (not (o.capabilities.usage_estimation_mode == "heuristic")) (
        with_text (of o "outbounds.%s.usage_estimation_mode %q is unsupported")
          o.capabilities.usage_estimation_mode))

unfoldable pub validate_outbound : Parsers → OutboundConfig → Validity
unfolding is_supported_outbound validate_outbound_auth validate_endpoint validate_capabilities
    validate_outbound_models validate_outbound_proxy validate_outbound_quota
validate_outbound go o = do
  refuse (is_empty o.name) (plain "outbounds.name is required")
  refuse (is_empty o.protocol) (of o "outbounds.%s.protocol is required")
  refuse (not (is_supported_outbound o.protocol))
      (with_text (of o "outbounds.%s.protocol %q is unsupported") o.protocol)
  refuse (is_empty o.tag) (of o "outbounds.%s.tag is required")
  validate_outbound_auth o
  validate_endpoint o
  validate_capabilities o
  validate_outbound_models o
  validate_outbound_proxy go o
  validate_outbound_quota go o

unfoldable pub validate_outbounds : Parsers → List OutboundConfig → Validity
unfolding validate_outbound
validate_outbounds go [] = valid
validate_outbounds go (o ∷ outbounds) = validate_outbound go o >> validate_outbounds go outbounds
