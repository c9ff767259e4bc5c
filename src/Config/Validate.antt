-- ===== src/Config/Validate.antt =====
-- `Validate` of internal/config/config.go and the defaults that it sets first.
pub mod Routable
pub mod Separate
use syrogo.Base.{
  ℕ, String, Bool, true, false, not, ◌&&◌, List, [], ◌∷◌, map, Option, none, some, if◌then◌else◌,
  ◌==◌, nat_eq, text_eq, is_empty,
}
use syrogo.Base.Int.{ℤ, pos, is_zero}
use syrogo.Config.Checks.{
  plain, Validity, valid, invalid, ◌>>◌, refuse, unless, is_blank, trim_space,
}
use syrogo.Config.Schema.{
  Parsers, Config, AdminLogsConfig, AdminLogsRotationConfig, QuotaWindowConfig, ClientSpec,
  OutboundQuotaWindowConfig, OutboundConfig, SessionSnapshotConfig, ListenerSpec, enabled_effective,
  listens,
}
use syrogo.Config.Windows.{not_long}
use syrogo.Config.Outbounds.{validate_outbounds}
use syrogo.Config.Routing.{is_none, outbound_tags, validate_rules}
use syrogo.Config.Entrances.{
  validate_clients, client_names, token_owners, validate_inbounds, inbound_names,
  validate_listeners, validate_admin, validate_accounting, validate_governance,
}

abbrev or_text : String → String → String
or_text s default = if is_empty s then default else s

abbrev or_number : ℤ → ℕ → ℤ
or_number n default = if is_zero n then pos default else n

unfoldable pub log_defaults : AdminLogsConfig → AdminLogsConfig
log_defaults logs = record logs {
  path = or_text logs.path "tmp/dev.log";
  max_bytes = or_number logs.max_bytes 65536;
  rotation = record {
    max_size_mb = or_number logs.rotation.max_size_mb 100;
    max_files = or_number logs.rotation.max_files 20;
    max_age_days = or_number logs.rotation.max_age_days 14;
    max_total_size_mb = or_number logs.rotation.max_total_size_mb 1024;
  };
}

unfoldable pub client_defaults : ClientSpec → ClientSpec
client_defaults c = record c {
  quota = record c.quota {
    windows =
        map (λ (w : QuotaWindowConfig). record w { window_type = or_text w.window_type "requests" })
          c.quota.windows;
  };
}

unfoldable pub outbound_defaults : OutboundConfig → OutboundConfig
outbound_defaults o = record o {
  quota = record o.quota {
    windows =
        map (λ (w : OutboundQuotaWindowConfig). record w { reset = or_text w.reset "rolling" })
          o.quota.windows;
  };
}

unfoldable pub apply_defaults : Config → Config
unfolding log_defaults client_defaults outbound_defaults
apply_defaults c = record c {
  oauth_dir = or_text c.oauth_dir "./data/oauth";
  sessions_snapshot = record c.sessions_snapshot {
    dir = or_text c.sessions_snapshot.dir "./data/sessions";
    flush_interval = or_text c.sessions_snapshot.flush_interval "5s";
  };
  admin = record c.admin { logs = log_defaults c.admin.logs };
  clients = map client_defaults c.clients;
  outbounds = map outbound_defaults c.outbounds;
}

unfoldable pub validate_sessions : Parsers → SessionSnapshotConfig → Validity
unfolding trim_space
validate_sessions go s = unless (not (enabled_effective s)) (do
  refuse (is_blank (trim_space s.dir)) (plain "sessions.snapshot.dir is required")
  refuse (not_long go s.flush_interval) (plain "sessions.snapshot.flush_interval must be positive"))

-- `ListenAddresses`.
unfoldable pub listen_addresses : Config → List String
unfolding listens
listen_addresses c =
    if not (is_none c.listeners)
    then listens c.listeners
    else if is_empty c.server_listen
    then []
    else c.server_listen ∷ []

unfoldable pub listen_address : Config → String
unfolding listen_addresses
listen_address c = elim (listen_addresses c) [ [] ↦ "" | address ∷ addresses ↦ address ]

-- The first part of `Validate`: where requests come in.
unfoldable pub validate_entrances : Parsers → Config → Validity
validate_entrances go c = do
  validate_sessions go c.sessions_snapshot
  refuse (is_none (listen_addresses c)) (plain "server.listen or listeners is required")
  refuse (is_none c.outbounds) (plain "at least one outbound is required")
  refuse (is_none c.rules) (plain "at least one routing rule is required")
  validate_clients go 0 [] [] c.clients
  validate_inbounds (client_names c.clients) c.inbounds
  refuse (not (is_none c.listeners) && is_none c.inbounds)
      (plain "at least one inbound is required when listeners are configured")
  validate_listeners (inbound_names c.inbounds) c.listeners

unfoldable pub validate_services : Parsers → Config → Validity
validate_services go c = do
  validate_admin c.admin (token_owners [] c.clients) c.accounting
  validate_accounting go c.accounting
  validate_governance go c.governance

-- `Validate` behind `applyDefaults`.
unfoldable pub validate_defaulted : Parsers → Config → Validity
unfolding validate_entrances validate_services validate_outbounds outbound_tags validate_rules
validate_defaulted go c = do
  validate_entrances go c
  validate_services go c
  validate_outbounds go c.outbounds
  validate_rules (outbound_tags c.outbounds) 0 c.rules

unfoldable pub validate : Parsers → Config → Validity
unfolding apply_defaults validate_defaulted
validate go c = validate_defaulted go (apply_defaults c)
