-- ===== src/Config/Entrances.antt =====
-- The checks of clients, inbounds, listeners and administrators in internal/config/config.go.
pub mod Distinct
use syrogo.Base.{
  ℕ, suc, String, Bool, true, false, not, ◌&&◌, ◌||◌, List, [], ◌∷◌, Option, none, some,
  if◌then◌else◌, ◌==◌, nat_eq, text_eq, is_empty, is_some,
}
use syrogo.Base.Int.{is_positive, is_negative}
use syrogo.Base.Map.{Map, lookup, insert}
use syrogo.Router.Order.{contains}
use syrogo.Config.Checks.{
  Message, plain, with_text, with_number, Validity, valid, invalid, ◌>>◌, refuse, unless,
}
use syrogo.Config.Schema.{
  Parsers, ClientSpec, ClientBindingSpec, InboundSpec, ListenerSpec, AdminConfig, AdminLogsConfig,
  AccountingConfig, AccountingLocalFileConfig, AccountingPriceConfig, GovernanceConfig,
}
use syrogo.Config.Windows.{not_long, validate_quota_windows}
use syrogo.Config.Outbounds.{is_supported_inbound}
use syrogo.Config.Routing.{is_none}

abbrev pub client_message : ℕ → String → Message
client_message i format = with_number (plain format) i

unfoldable pub validate_client_quota : Parsers → ℕ → ClientSpec → Validity
unfolding validate_quota_windows
validate_client_quota go i c =
    unless (not c.quota.enabled)
      (validate_quota_windows go (client_message i "clients[%d].quota") c.quota.windows)

-- The owner of a token that another client has too.
unfoldable pub refuse_owner : ℕ → Option String → Validity
refuse_owner i none = valid
refuse_owner i (some owner) =
    invalid (with_text (client_message i "clients[%d].token duplicates token used by %s") owner)

unfoldable pub validate_client :
    Parsers → ℕ → List String → Map String String → ClientSpec → Validity
unfolding lookup refuse_owner validate_client_quota
validate_client go i names tokens c = do
  refuse (is_empty c.name) (client_message i "clients[%d].name is required")
  refuse (is_empty c.token) (client_message i "clients[%d].token is required")
  refuse (contains names c.name)
      (with_text (client_message i "clients[%d].name duplicates %q") c.name)
  refuse_owner i (lookup c.token tokens)
  validate_client_quota go i c

unfoldable pub validate_clients :
    Parsers → ℕ → List String → Map String String → List ClientSpec → Validity
unfolding validate_client insert
validate_clients go i names tokens [] = valid
validate_clients go i names tokens (c ∷ clients) =
    validate_client go i names tokens c
    >> validate_clients go (suc i) (c.name ∷ names) (insert c.token c.name tokens) clients

-- What the loop has written to `clientNames` and `tokens` at its end.
unfoldable pub client_names : List ClientSpec → List String
client_names [] = []
client_names (c ∷ clients) = c.name ∷ client_names clients

unfoldable pub token_owners : Map String String → List ClientSpec → Map String String
unfolding insert
token_owners tokens [] = tokens
token_owners tokens (c ∷ clients) = token_owners (insert c.token c.name tokens) clients

unfoldable pub validate_bindings :
    List String → String → ℕ → List String → List ClientBindingSpec → Validity
validate_bindings names inbound i refs [] = valid
validate_bindings names inbound i refs (b ∷ bindings) = do
  refuse (is_empty b.ref) (message "inbounds.%s.clients[%d].ref is required")
  refuse (is_empty b.tag) (message "inbounds.%s.clients[%d].tag is required")
  refuse (not (contains names b.ref))
      (with_text (message "inbounds.%s.clients[%d].ref %q not found in clients") b.ref)
  refuse (contains refs b.ref)
      (with_text (message "inbounds.%s.clients[%d].ref duplicates %q") b.ref)
  validate_bindings names inbound (suc i) (b.ref ∷ refs) bindings
  where
    message : String → Message
    message format = with_number (with_text (plain format) inbound) i

unfoldable pub validate_inbounds : List String → List InboundSpec → Validity
unfolding is_supported_inbound validate_bindings
validate_inbounds names [] = valid
validate_inbounds names (b ∷ inbounds) = do
  refuse (is_empty b.name) (plain "inbounds.name is required")
  refuse (is_empty b.protocol) (with_text (plain "inbounds.%s.protocol is required") b.name)
  refuse (not (is_supported_inbound b.protocol))
      (with_text (with_text (plain "inbounds.%s.protocol %q is unsupported") b.name) b.protocol)
  refuse (is_empty b.path) (with_text (plain "inbounds.%s.path is required") b.name)
  validate_bindings names b.name 0 [] b.clients
  validate_inbounds names inbounds

unfoldable pub inbound_names : List InboundSpec → List String
inbound_names [] = []
inbound_names (b ∷ inbounds) = b.name ∷ inbound_names inbounds

unfoldable pub validate_listener_inbounds : List String → String → List String → Validity
validate_listener_inbounds declared listener [] = valid
validate_listener_inbounds declared listener (name ∷ names) =
    refuse (not (contains declared name))
      (with_text (with_text (plain "listeners.%s.inbound %q not found in inbounds") listener) name)
    >> validate_listener_inbounds declared listener names

unfoldable pub validate_listeners : List String → List ListenerSpec → Validity
unfolding validate_listener_inbounds
validate_listeners declared [] = valid
validate_listeners declared (l ∷ listeners) = do
  refuse (is_empty l.name) (plain "listeners.name is required")
  refuse (is_empty l.listen) (with_text (plain "listeners.%s.listen is required") l.name)
  refuse (is_none l.inbounds) (with_text (plain "listeners.%s.inbounds is required") l.name)
  validate_listener_inbounds declared l.name l.inbounds
  validate_listeners declared listeners

unfoldable pub validate_logs : AdminLogsConfig → Validity
validate_logs logs = do
  refuse (is_empty logs.path) (plain "admin.logs.path is required when admin.logs.enabled=true")
  refuse (not (is_positive logs.max_bytes)) (plain "admin.logs.max_bytes must be greater than 0")
  refuse (not (is_positive logs.rotation.max_size_mb))
      (plain "admin.logs.rotation.max_size_mb must be greater than 0")
  refuse (not (is_positive logs.rotation.max_files))
      (plain "admin.logs.rotation.max_files must be greater than 0")
  refuse (not (is_positive logs.rotation.max_age_days))
      (plain "admin.logs.rotation.max_age_days must be greater than 0")
  refuse (not (is_positive logs.rotation.max_total_size_mb))
      (plain "admin.logs.rotation.max_total_size_mb must be greater than 0")

unfoldable pub refuse_admin_owner : Option String → Validity
refuse_admin_owner none = valid
refuse_admin_owner (some owner) =
    invalid (with_text (plain "admin.token duplicates client token used by %s") owner)

unfoldable pub validate_admin : AdminConfig → Map String String → AccountingConfig → Validity
unfolding validate_logs lookup refuse_admin_owner
validate_admin admin tokens accounting = do
  unless (not admin.logs.enabled) (validate_logs admin.logs)
  unless (not admin.enabled) (do
    refuse (is_empty admin.token) (plain "admin.token is required when admin.enabled=true")
    refuse_admin_owner (lookup admin.token tokens)
    refuse (not (is_empty accounting.admin_token) && admin.token == accounting.admin_token)
        (plain "admin.token must be different from accounting.admin_token"))

unfoldable pub validate_governance : Parsers → GovernanceConfig → Validity
validate_governance go g = do
  unless (not g.snapshot_enabled) (do
    refuse (is_empty g.snapshot_dir) (
        plain
          "governance.quota.snapshot.dir is required when governance.quota.snapshot.enabled=true")
    refuse (not_long go g.snapshot_flush_interval)
        (plain "governance.quota.snapshot.flush_interval must be a positive duration"))
  refuse (g.events_enabled && not (is_positive g.events_max_entries))
      (plain "governance.quota.events.max_entries must be greater than 0")

unfoldable pub validate_local_file : Parsers → AccountingLocalFileConfig → Validity
validate_local_file go f = do
  refuse (is_empty f.dir)
      (plain "accounting.local_file.dir is required when accounting.backend=local_file")
  refuse (not (is_positive f.rotate_max_size_mb))
      (plain "accounting.local_file.rotate_max_size_mb must be greater than 0")
  refuse (is_negative f.retention_days)
      (plain "accounting.local_file.retention_days must be greater than or equal to 0")
  refuse (is_negative f.snapshot_retention_days)
      (plain "accounting.local_file.snapshot_retention_days must be greater than or equal to 0")
  refuse (not (is_positive f.write_buffer_records))
      (plain "accounting.local_file.write_buffer_records must be greater than 0")
  refuse (not (is_positive f.queue_size))
      (plain "accounting.local_file.queue_size must be greater than 0")
  refuse (not_long go f.flush_interval)
      (plain "accounting.local_file.flush_interval must be a positive duration")
  refuse (not (is_empty f.snapshot_interval) && not_long go f.snapshot_interval)
      (plain "accounting.local_file.snapshot_interval must be a positive duration")

unfoldable pub validate_pricing : ℕ → List AccountingPriceConfig → Validity
validate_pricing i [] = valid
validate_pricing i (item ∷ items) = do
  refuse (is_empty item.model) (with_number (plain "accounting.pricing[%d].model is required") i)
  refuse
      (is_negative item.input_per_million_usd
        || is_negative item.output_per_million_usd
        || is_negative item.cache_create_per_million_usd
        || is_negative item.cache_read_per_million_usd)
      (with_number (plain "accounting.pricing[%d] rates must be greater than or equal to 0") i)
  validate_pricing (suc i) items

unfoldable pub validate_backend : Parsers → AccountingConfig → Validity
unfolding validate_local_file
validate_backend go a =
    if is_empty a.backend || a.backend == "memory"
    then valid
    else if a.backend == "local_file"
    then validate_local_file go a.local_file
    else invalid (with_text (plain "accounting.backend %q is unsupported") a.backend)

unfoldable pub validate_accounting : Parsers → AccountingConfig → Validity
unfolding validate_backend validate_pricing
validate_accounting go a = unless (not a.enabled) (do
  validate_backend go a
  refuse (a.expose_http && is_empty a.admin_token)
      (plain "accounting.admin_token is required when accounting.expose_http is enabled")
  validate_pricing 0 a.pricing)
