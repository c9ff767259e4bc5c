-- ===== src/Config/Schema.antt =====
-- The types of internal/config/config.go. A pointer to a Boolean is an option. A duration is its
-- text, and an amount of money is the bytes of its number; what Go's parsers make of texts is the record `Parsers`.
use syrogo.Base.{ℕ, String, Bool, true, List, [], ◌∷◌, Option, none, some}
use syrogo.Base.Int.{ℤ}
use syrogo.Router.Compile.{RoutingRule, OutboundSpec}

pub record Url : Type 0 where
  pub scheme : String
  pub host : String

-- `time.ParseDuration` in nanoseconds, 0 for what is not positive or no duration, which the checks
-- treat alike; what `time.Parse` makes of a full time,
-- and whether it and `time.LoadLocation` take a text; and `url.Parse`.
pub record Parsers : Type 0 where
  pub duration : String → ℕ
  pub parse_rfc3339 : String → Option ℕ
  pub is_minutes_clock : String → Bool
  pub is_seconds_clock : String → Bool
  pub is_location : String → Bool
  pub parse_url : List ℕ → Option Url

pub record AdminLogsRotationConfig : Type 0 where
  pub max_size_mb : ℤ
  pub max_files : ℤ
  pub max_age_days : ℤ
  pub max_total_size_mb : ℤ

pub record AdminLogsConfig : Type 0 where
  pub enabled : Bool
  pub path : String
  pub max_bytes : ℤ
  pub rotation : AdminLogsRotationConfig

pub record AdminConfig : Type 0 where
  pub enabled : Bool
  pub token : String
  pub logs : AdminLogsConfig

pub record ListenerSpec : Type 0 where
  pub name : String
  pub listen : String
  pub inbounds : List String

pub record QuotaWindowConfig : Type 0 where
  pub name : String
  pub window_type : String
  pub duration : String
  pub max_requests : ℤ
  pub max_tokens : ℤ
  pub max_cost_usd : List ℕ

pub record ClientQuotaConfig : Type 0 where
  pub enabled : Bool
  pub windows : List QuotaWindowConfig

pub record ClientSpec : Type 0 where
  pub name : String
  pub token : String
  pub quota : ClientQuotaConfig

pub record ClientBindingSpec : Type 0 where
  pub ref : String
  pub tag : String

pub record InboundSpec : Type 0 where
  pub name : String
  pub protocol : String
  pub path : String
  pub clients : List ClientBindingSpec

pub record QuotaFixedScheduleConfig : Type 0 where
  pub period : String
  pub anchor : String
  pub time : String
  pub timezone : String
  pub weekday : String

pub record OutboundQuotaWindowConfig : Type 0 where
  pub name : String
  pub reset : String
  pub duration : String
  pub fixed : QuotaFixedScheduleConfig
  pub max_requests : ℤ
  pub max_tokens : ℤ

pub record QuotaResetScheduleConfig : Type 0 where
  pub period : String
  pub duration : String
  pub anchor : String
  pub time : String
  pub timezone : String
  pub weekday : String

pub record QuotaResetAllConfig : Type 0 where
  pub enabled : Bool
  pub schedule : QuotaResetScheduleConfig

pub record OutboundQuotaConfig : Type 0 where
  pub enabled : Bool
  pub windows : List OutboundQuotaWindowConfig
  pub cooldown : String
  pub probe_interval : String
  pub reset_all : QuotaResetAllConfig

pub record OutboundCapabilities : Type 0 where
  pub responses_previous_response_id : Option Bool
  pub responses_builtin_tools : Option Bool
  pub responses_tool_result_status_error : Option Bool
  pub responses_assistant_history_native : Option Bool
  pub usage_estimation : Bool
  pub usage_estimation_mode : String

pub record OutboundAuthConfig : Type 0 where
  pub auth_type : String
  pub credential_ref : String

-- An outbound of the configuration; the router reads the part `spec` of it.
pub record OutboundConfig : Type 0 where
  pub spec : OutboundSpec
  pub open spec use *
  pub protocol : String
  pub endpoint : String
  pub auth_token : String
  pub auth : OutboundAuthConfig
  pub capabilities : OutboundCapabilities
  pub quota : OutboundQuotaConfig
  pub proxy_url : String

pub record SessionSnapshotConfig : Type 0 where
  pub enabled : Option Bool
  pub dir : String
  pub flush_interval : String

pub record GovernanceConfig : Type 0 where
  pub snapshot_enabled : Bool
  pub snapshot_dir : String
  pub snapshot_flush_interval : String
  pub events_enabled : Bool
  pub events_max_entries : ℤ

pub record AccountingLocalFileConfig : Type 0 where
  pub dir : String
  pub rotate_max_size_mb : ℤ
  pub retention_days : ℤ
  pub snapshot_interval : String
  pub snapshot_retention_days : ℤ
  pub write_buffer_records : ℤ
  pub flush_interval : String
  pub queue_size : ℤ

-- The rates are in a unit small enough for the values of the file.
pub record AccountingPriceConfig : Type 0 where
  pub model : String
  pub input_per_million_usd : ℤ
  pub output_per_million_usd : ℤ
  pub cache_create_per_million_usd : ℤ
  pub cache_read_per_million_usd : ℤ

pub record AccountingConfig : Type 0 where
  pub enabled : Bool
  pub backend : String
  pub expose_http : Bool
  pub admin_token : String
  pub local_file : AccountingLocalFileConfig
  pub pricing : List AccountingPriceConfig

pub record Config : Type 0 where
  pub server_listen : String
  pub listeners : List ListenerSpec
  pub clients : List ClientSpec
  pub inbounds : List InboundSpec
  pub rules : List RoutingRule
  pub outbounds : List OutboundConfig
  pub accounting : AccountingConfig
  pub governance : GovernanceConfig
  pub sessions_snapshot : SessionSnapshotConfig
  pub oauth_dir : String
  pub admin : AdminConfig

abbrev pub enabled_effective : SessionSnapshotConfig → Bool
enabled_effective c = elim c.enabled [ none ↦ true | some b ↦ b ]

-- `ListenAddresses`.
unfoldable pub listens : List ListenerSpec → List String
listens [] = []
listens (l ∷ listeners) = l.listen ∷ listens listeners
