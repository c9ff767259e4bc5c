-- ===== src/Tests/Config.antt =====
-- Runs of the checks of a configuration.
use syrogo.Base.{
  ℕ, ◌≤◌, ◌<◌, ◌≡◌, refl, String, true, false, List, [], ◌∷◌, ◌++◌, All, none, some, if◌then◌else◌,
  arith, is_empty,
}
use syrogo.Base.Int.{pos}
use syrogo.Base.Map.{Map, lookup}
use syrogo.Runtime.{CompletionProvider, mock}
use syrogo.Router.Compile.{RoutingRule, Router, Compiled, new_router}
use syrogo.Router.Order.Distinct.{Distinct}
use syrogo.Router.Plan.Targets.{IsWired}
use syrogo.Config.Checks.{plain, with_number, with_text, valid, invalid}
use syrogo.Config.Schema.{Parsers, Config, ClientSpec, OutboundConfig}
use syrogo.Config.Cost.{micro_usd, max_int64, cost_usd_micro, padded}
use syrogo.Config.Cost.Bounds.{cost_usd_micro_bounds}
use syrogo.Config.Cost.Decimal.{value_from, decimal, cost_usd_micro-decimal}
use syrogo.Config.Entrances.{
  validate_clients, client_names, token_owners, validate_inbounds, inbound_names,
  validate_listeners, validate_admin, validate_accounting, validate_governance,
}
use syrogo.Config.Entrances.Distinct.{client_tokens}
use syrogo.Config.Validate.{
  apply_defaults, validate, validate_entrances, validate_services, validate_sessions,
  listen_addresses,
}
use syrogo.Config.Validate.Routable.{specs, HasProvider, validate-new_router}
use syrogo.Quota.Configure.{client_configs, new_client_state}
use syrogo.Quota.Configure.Limited.{IsLimiting, validate-IsLimiting}
use syrogo.Tests.Quota.{lib}
use syrogo.Config.Resources.{edited, refused, move_route}
use syrogo.Config.Resources.Move.{move_route-back}
use syrogo.Config.Validate.Separate.{credentials, IsOwnToken, validate-separate}

abbrev cents : List ℕ
cents = b'2' ∷ b'5' ∷ []

cost-run : cost_usd_micro (decimal (b'1' ∷ []) cents) ≡ micro_usd 1250000
unfolding cost_usd_micro
cost-run = refl

-- A sign behind the dot is taken.
signed_fraction : cost_usd_micro (b'1' ∷ b'.' ∷ b'+' ∷ b'5' ∷ []) ≡ micro_usd 1050000
unfolding cost_usd_micro
signed_fraction = refl

cost_usd_micro_bounds_example : (0 < 1250000) × (1250000 ≤ max_int64)
cost_usd_micro_bounds_example = cost_usd_micro_bounds (decimal (b'1' ∷ []) cents) 1250000 cost-run

cost_usd_micro-decimal_example :
    cost_usd_micro (decimal (b'1' ∷ []) cents)
    ≡ micro_usd (value_from 0 ((b'1' ∷ []) ++ padded cents))
cost_usd_micro-decimal_example =
    cost_usd_micro-decimal b'1' [] cents (refl, tt) (refl, (refl, tt)) (omega arith) (omega arith)
      (omega arith)

abbrev go : Parsers
go = record {
  duration = λ s. if is_empty s then 0 else 1;
  parse_rfc3339 = λ s. some 1;
  is_minutes_clock = λ s. true;
  is_seconds_clock = λ s. false;
  is_location = λ s. true;
  parse_url = λ s. none;
}

abbrev client : String → String → ClientSpec
client name token = record {
  name = name;
  token = token;
  quota = record {
    enabled = true;
    windows =
        record {
          name = "hour";
          window_type = "";
          duration = "1h";
          max_requests = pos 5;
          max_tokens = pos 0;
          max_cost_usd = [];
        }
        ∷ [];
  };
}

abbrev outbound : String → String → OutboundConfig
outbound name tag = record {
  spec = record { name = name; tag = tag; enabled = none; models = [] };
  protocol = "mock";
  endpoint = "";
  auth_token = "";
  auth = record { auth_type = ""; credential_ref = "" };
  capabilities = record {
    responses_previous_response_id = none;
    responses_builtin_tools = none;
    responses_tool_result_status_error = none;
    responses_assistant_history_native = none;
    usage_estimation = false;
    usage_estimation_mode = "";
  };
  quota = record {
    enabled = false;
    windows = [];
    cooldown = "";
    probe_interval = "";
    reset_all = record {
      enabled = false;
      schedule = record {
        period = "";
        duration = "";
        anchor = "";
        time = "";
        timezone = "";
        weekday = "";
      };
    };
  };
  proxy_url = "";
}

abbrev rule : String → RoutingRule
rule to = record {
  name = "main";
  from_tags = "dev" ∷ [];
  to_tags = to ∷ [];
  strategy = "failover";
  weights = [];
  target_model = "";
  model_map = [];
  match_models = some ("gpt-*" ∷ []);
}

abbrev config : List ClientSpec → String → Config
config clients to = record {
  server_listen = ":8080";
  listeners = [];
  clients = clients;
  inbounds =
      record {
        name = "api";
        protocol = "openai_chat";
        path = "/v1";
        clients = record { ref = "alice"; tag = "dev" } ∷ [];
      }
      ∷ [];
  rules = rule to ∷ [];
  outbounds = outbound "one" "fast" ∷ [];
  accounting = record {
    enabled = false;
    backend = "";
    expose_http = false;
    admin_token = "";
    local_file = record {
      dir = "";
      rotate_max_size_mb = pos 0;
      retention_days = pos 0;
      snapshot_interval = "";
      snapshot_retention_days = pos 0;
      write_buffer_records = pos 0;
      flush_interval = "";
      queue_size = pos 0;
    };
    pricing = [];
  };
  governance = record {
    snapshot_enabled = false;
    snapshot_dir = "";
    snapshot_flush_interval = "";
    events_enabled = false;
    events_max_entries = pos 0;
  };
  sessions_snapshot = record { enabled = none; dir = ""; flush_interval = "" };
  oauth_dir = "";
  admin = record {
    enabled = true;
    token = "root";
    logs = record {
      enabled = true;
      path = "";
      max_bytes = pos 0;
      rotation = record {
        max_size_mb = pos 0;
        max_files = pos 0;
        max_age_days = pos 0;
        max_total_size_mb = pos 0;
      };
    };
  };
}

abbrev good : Config
good = config (client "alice" "a" ∷ client "bob" "b" ∷ []) "fast"

accepted : validate go good ≡ valid
unfolding validate validate_entrances validate_services validate_sessions listen_addresses
    validate_clients client_names token_owners validate_inbounds inbound_names validate_listeners
    validate_admin validate_accounting validate_governance
accepted = refl

unknown_tag_refused :
    validate go (config (client "alice" "a" ∷ []) "slow")
    ≡ invalid (
        with_text
          (with_number (plain "routing.rules[%d].to_tags %q not found in outbounds") 0)
          "slow")
unfolding validate validate_entrances validate_services validate_sessions listen_addresses
    validate_clients client_names token_owners validate_inbounds inbound_names validate_listeners
    validate_admin validate_accounting validate_governance
unknown_tag_refused = refl

abbrev providers : Map String CompletionProvider
providers = ("one", record { name = "one"; provider_type = mock }) ∷ []

provided : All (HasProvider providers) (specs good.outbounds)
unfolding lookup
provided = ((λ on. refl), tt)

validate-new_router_example :
    (r : Router) × (new_router (λ i. "rule") good.rules providers (specs good.outbounds)
      ≡ Compiled.ok r)
    × IsWired r
validate-new_router_example = validate-new_router go good (λ i. "rule") providers accepted provided

validate-separate_example :
    Distinct (client_names good.clients)
    × Distinct (credentials good.admin (client_tokens good.clients))
    × IsOwnToken good.admin good.accounting
validate-separate_example = validate-separate go good accepted

validate-IsLimiting_example :
    All
      (λ s. All IsLimiting (new_client_state lib s).windows)
      (client_configs go (apply_defaults good).clients)
validate-IsLimiting_example = validate-IsLimiting lib go good accepted

abbrev three_rules : Config
three_rules = record good { rules = rule "a" ∷ rule "b" ∷ rule "c" ∷ [] }

move_route-back_example :
    (move_route three_rules (pos 0) (pos 2)
      ≡ edited (record good { rules = rule "b" ∷ rule "c" ∷ rule "a" ∷ [] }))
    × (move_route (record good { rules = rule "b" ∷ rule "c" ∷ rule "a" ∷ [] }) (pos 2) (pos 0)
        ≡ edited three_rules)
move_route-back_example =
    move_route-back three_rules [] (rule "b" ∷ rule "c" ∷ []) [] (rule "a") refl (omega arith)

far_refused :
    move_route three_rules (pos 0) (pos 3) ≡ refused (plain "to_index %d is out of bounds")
unfolding move_route
far_refused = refl
