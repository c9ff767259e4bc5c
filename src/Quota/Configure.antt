-- ===== src/Quota/Configure.antt =====
-- internal/quota/tracker.go: trackers from the configuration of clients and outbounds. A limit that
-- is not positive is 0, which is no limit.
pub mod Limited
use Prim.Native.Char.{code}
use syrogo.Base.{
  ℕ, suc, ◌+◌, String, Bool, true, false, not, ◌&&◌, List, [], ◌∷◌, map, Option, none, some,
  if◌then◌else◌, ◌==◌, nat_eq, text_eq, is_empty, leb,
}
use syrogo.Base.Int.{ℤ, pos, negsuc}
use syrogo.Base.Map.{Map, insert}
use syrogo.Runtime.{codes}
use syrogo.Config.Checks.{same_codes}
use syrogo.Config.Cost.{Cost, micro_usd, no_cost, cost_usd_micro}
use syrogo.Config.Schema.{
  Parsers, QuotaWindowConfig, ClientSpec, OutboundQuotaWindowConfig, QuotaResetAllConfig,
  OutboundConfig,
}
use syrogo.Quota.Schedule.{TimeLib, Schedule, no_schedule, new_schedule}
use syrogo.Quota.Window.{WindowState}
use syrogo.Quota.Tracker.{SubjectState, Tracker}

pub record WindowConfig : Type 0 where
  pub name : String
  pub type_name : String
  pub reset : String
  pub duration : ℕ
  pub fixed_period : String
  pub anchor : ℕ
  pub time : String
  pub timezone : String
  pub weekday : ℕ
  pub max_requests : ℕ
  pub max_tokens : ℕ
  pub max_cost_micro_usd : ℕ

pub record ResetAllConfig : Type 0 where
  pub enabled : Bool
  pub period : String
  pub duration : ℕ
  pub anchor : ℕ
  pub time : String
  pub timezone : String
  pub weekday : ℕ

abbrev pub no_reset_all : ResetAllConfig
no_reset_all = record {
  enabled = false;
  period = "";
  duration = 0;
  anchor = 0;
  time = "";
  timezone = "";
  weekday = 0;
}

-- `OutboundConfig` and `ClientConfig` of the package.
pub record SubjectConfig : Type 0 where
  pub name : String
  pub inbound : String
  pub windows : List WindowConfig
  pub cooldown : ℕ
  pub probe_interval : ℕ
  pub reset_all : ResetAllConfig

abbrev pub limit_of : ℤ → ℕ
limit_of (pos n) = n
limit_of (negsuc n) = 0

-- Unicode's simple folding, as far as letters of the English weekdays fold together.
unfoldable pub fold_code : ℕ → ℕ
fold_code c =
    if leb b'A' c && leb c b'Z'
    then c + 32
    else if c == 0x17F
    then b's'
    else if c == 0x212A
    then b'k'
    else c

unfoldable pub equal_fold : String → String → Bool
unfolding fold_code
equal_fold s t = same_codes (map fold_code (codes s)) (map fold_code (codes t))

unfoldable pub weekday_from : String → ℕ → List String → ℕ
unfolding equal_fold
weekday_from value day [] = 0
weekday_from value day (name ∷ names) =
    if equal_fold value name then day else weekday_from value (suc day) names

unfoldable pub parse_weekday : String → ℕ
unfolding weekday_from
parse_weekday value =
    weekday_from value 0
      ("Sunday" ∷ "Monday" ∷ "Tuesday" ∷ "Wednesday" ∷ "Thursday" ∷ "Friday" ∷ "Saturday" ∷ [])

-- `MaxCostMicroUSD`: 0 where there is an error.
unfoldable pub max_cost_micro_usd : QuotaWindowConfig → ℕ
unfolding cost_usd_micro
max_cost_micro_usd w = elim (cost_usd_micro w.max_cost_usd) [ micro_usd v ↦ v | no_cost m ↦ 0 ]

module _ (go : Parsers) where
  unfoldable pub parse_config_time : String → ℕ
  parse_config_time value = elim (go.parse_rfc3339 value) [ none ↦ 0 | some t ↦ t ]

  unfoldable pub client_window : QuotaWindowConfig → WindowConfig
  unfolding max_cost_micro_usd
  client_window w = record {
    name = w.name;
    type_name = w.window_type;
    reset = "rolling";
    duration = go.duration w.duration;
    fixed_period = "";
    anchor = 0;
    time = "";
    timezone = "";
    weekday = 0;
    max_requests = limit_of w.max_requests;
    max_tokens = limit_of w.max_tokens;
    max_cost_micro_usd = max_cost_micro_usd w;
  }

  unfoldable pub outbound_window : OutboundQuotaWindowConfig → WindowConfig
  unfolding parse_config_time parse_weekday
  outbound_window w = record {
    name = w.name;
    type_name = "";
    reset = if is_empty w.reset then "rolling" else w.reset;
    duration = go.duration w.duration;
    fixed_period = w.fixed.period;
    anchor = parse_config_time w.fixed.anchor;
    time = w.fixed.time;
    timezone = w.fixed.timezone;
    weekday = parse_weekday w.fixed.weekday;
    max_requests = limit_of w.max_requests;
    max_tokens = limit_of w.max_tokens;
    max_cost_micro_usd = 0;
  }

  unfoldable pub reset_all_from_config : QuotaResetAllConfig → ResetAllConfig
  unfolding parse_config_time parse_weekday
  reset_all_from_config r = record {
    enabled = r.enabled;
    period = r.schedule.period;
    duration = go.duration r.schedule.duration;
    anchor = parse_config_time r.schedule.anchor;
    time = r.schedule.time;
    timezone = r.schedule.timezone;
    weekday = parse_weekday r.schedule.weekday;
  }

  unfoldable pub outbound_configs : List OutboundConfig → List SubjectConfig
  unfolding outbound_window reset_all_from_config
  outbound_configs [] = []
  outbound_configs (o ∷ outbounds) =
      if not o.quota.enabled
      then outbound_configs outbounds
      else record {
        name = o.name;
        inbound = "";
        windows = map outbound_window o.quota.windows;
        cooldown = go.duration o.quota.cooldown;
        probe_interval = go.duration o.quota.probe_interval;
        reset_all = reset_all_from_config o.quota.reset_all;
      }
        ∷ outbound_configs outbounds

  unfoldable pub client_configs : List ClientSpec → List SubjectConfig
  unfolding client_window
  client_configs [] = []
  client_configs (c ∷ clients) =
      if c.quota.enabled
      then record {
        name = c.name;
        inbound = "";
        windows = map client_window c.quota.windows;
        cooldown = 0;
        probe_interval = 0;
        reset_all = no_reset_all;
      }
        ∷ client_configs clients
      else client_configs clients

unfoldable pub normalize_client_windows : List WindowConfig → List WindowConfig
normalize_client_windows = map (λ (w : WindowConfig). record w {
  type_name = if is_empty w.type_name then "requests" else w.type_name;
})

module _ (lib : TimeLib) where
  unfoldable pub new_window_state : WindowConfig → WindowState
  unfolding new_schedule
  new_window_state w = record {
    name = w.name;
    type_name = w.type_name;
    reset = if is_empty w.reset then "rolling" else w.reset;
    duration = w.duration;
    fixed = new_schedule lib w.fixed_period w.duration w.anchor w.time w.timezone w.weekday;
    max_requests = w.max_requests;
    max_tokens = w.max_tokens;
    max_cost_micro_usd = w.max_cost_micro_usd;
    events = [];
  }

  unfoldable pub new_reset_schedule : ResetAllConfig → Schedule
  unfolding new_schedule
  new_reset_schedule r =
      if not r.enabled
      then no_schedule
      else new_schedule lib r.period r.duration r.anchor r.time r.timezone r.weekday

  unfoldable pub new_subject_state : SubjectConfig → SubjectState
  unfolding new_window_state new_reset_schedule
  new_subject_state c = record {
    name = c.name;
    inbound = c.inbound;
    windows = map new_window_state c.windows;
    cooldown = c.cooldown;
    probe_interval = c.probe_interval;
    reset_all = new_reset_schedule c.reset_all;
    cooldown_until = 0;
    next_probe_at = 0;
    last_quota_exceeded_at = 0;
    last_success_at = 0;
    probe_in_flight = false;
  }

  -- The state of a client: its windows have a type, and the rest of it is empty.
  unfoldable pub new_client_state : SubjectConfig → SubjectState
  unfolding new_subject_state normalize_client_windows
  new_client_state c = new_subject_state (record c {
    windows = normalize_client_windows c.windows;
    cooldown = 0;
    probe_interval = 0;
    reset_all = no_reset_all;
  })

  unfoldable pub add_subjects :
      (SubjectConfig → SubjectState)
      → List SubjectConfig
      → Map String SubjectState
      → Map String SubjectState
  unfolding insert
  add_subjects make [] m = m
  add_subjects make (c ∷ configs) m = add_subjects make configs (insert c.name (make c) m)

  unfoldable pub new_tracker_from_outbounds : List SubjectConfig → Tracker
  unfolding add_subjects new_subject_state
  new_tracker_from_outbounds configs = record {
    client = false;
    subjects = add_subjects new_subject_state configs [];
  }

  unfoldable pub new_tracker_from_clients : List SubjectConfig → Tracker
  unfolding add_subjects new_client_state
  new_tracker_from_clients configs = record {
    client = true;
    subjects = add_subjects new_client_state configs [];
  }
