-- ===== src/Accounting/Memory.antt =====
-- internal/accounting/memory.go: the store's records and their sums by group and by time. A record
-- has its times as numbers, and `UsageLib` gives their texts. Tool units, which no code sets, are
-- left out.
pub mod Queries
pub mod Totals
pub mod Conserved
pub mod Retained
pub mod Days
use Prim.Native.String.{◌++◌ as text_append}
use syrogo.Base.{
  ℕ, zero, suc, ◌+◌, ◌-◌, String, Bool, true, false, not, ◌&&◌, ◌||◌, List, [], ◌∷◌, ◌++◌, Option,
  none, some, if◌then◌else◌, ◌==◌, nat_eq, text_eq, is_empty, ltb, length, drop,
}
use syrogo.Base.Map.{Map, lookup, insert}
use syrogo.Base.Sort.{text_less}
use syrogo.Runtime.{UsageRecord, UsageStatus}

-- The texts of times, and the sum of two floating-point numbers, each the number of its bits.
pub record UsageLib : Type 0 where
  pub format : ℕ → String
  pub parse : String → Option ℕ
  pub day_text : ℕ → String
  pub week_text : ℕ → String
  pub month_text : ℕ → String
  pub parse_day : String → Option ℕ
  pub add_cost : ℕ → ℕ → ℕ

pub record StatsItem : Type 0 where
  pub value : String
  pub date : String
  pub agent : String
  pub session_id : String
  pub model : String
  pub request_count : ℕ
  pub success_count : ℕ
  pub error_count : ℕ
  pub fallback_count : ℕ
  pub input_tokens : ℕ
  pub output_tokens : ℕ
  pub cached_input_read_tokens : ℕ
  pub cached_input_write_tokens : ℕ
  pub cache_read_tokens : ℕ
  pub cache_create_tokens : ℕ
  pub total_tokens : ℕ
  pub cost_usd : ℕ
  pub provider_usage_count : ℕ
  pub estimated_usage_count : ℕ
  pub last_seen_at : String

-- What a missing key of a Go map gives.
abbrev pub empty_item : StatsItem
empty_item = record {
  value = "";
  date = "";
  agent = "";
  session_id = "";
  model = "";
  request_count = 0;
  success_count = 0;
  error_count = 0;
  fallback_count = 0;
  input_tokens = 0;
  output_tokens = 0;
  cached_input_read_tokens = 0;
  cached_input_write_tokens = 0;
  cache_read_tokens = 0;
  cache_create_tokens = 0;
  total_tokens = 0;
  cost_usd = 0;
  provider_usage_count = 0;
  estimated_usage_count = 0;
  last_seen_at = "";
}

abbrev pub Group : Type 0
Group = Map String StatsItem

pub record MemoryStore : Type 0 where
  pub totals : Map String Group
  pub windows : Map String (Map String Group)
  pub recent : List UsageRecord
  pub tracking_started_at : ℕ
  pub coverage_known : Bool

unfoldable pub new_memory_store : ℕ → Bool → MemoryStore
new_memory_store started known = record {
  totals = [];
  windows = ("day", []) ∷ ("week", []) ∷ ("month", []) ∷ [];
  recent = [];
  tracking_started_at = started;
  coverage_known = known;
}

abbrev pub usage_group_bys : List String
usage_group_bys =
    "key" ∷ "provider" ∷ "model" ∷ "inbound" ∷ "source" ∷ "outbound" ∷ "error_kind" ∷ "date"
    ∷ "agent" ∷ "session" ∷ []

abbrev pub default_recent_records_limit : ℕ
default_recent_records_limit = 10000

abbrev pub non_empty : String → String → String
non_empty value fallback = if not (is_empty value) then value else fallback

abbrev pub bucket_key : String → String → String → String
bucket_key window bucket group_by =
    text_append window (text_append ":" (text_append bucket (text_append ":" group_by)))

-- The group under a key, empty where there is none.
abbrev pub entries_or_none {ℓ} : {A : Type ℓ} → Option (List A) → List A
entries_or_none none = []
entries_or_none (some entries) = entries

abbrev pub group_at : String → Map String Group → Group
group_at key groups = entries_or_none (lookup key groups)

abbrev pub groups_at : String → Map String (Map String Group) → Map String Group
groups_at window windows = entries_or_none (lookup window windows)

abbrev pub item_or_empty : Option StatsItem → StatsItem
item_or_empty none = empty_item
item_or_empty (some i) = i

abbrev pub item_at : String → Group → StatsItem
item_at value group = item_or_empty (lookup value group)

-- How many requests a record stands for.
abbrev pub request_count_of : UsageRecord → ℕ
request_count_of r = if r.breakdown.request_count == 0 then 1 else r.breakdown.request_count

abbrev is_provider_source : String → Bool
is_provider_source source = source == "provider" || source == "provider_count_api"

abbrev pub is_success : UsageStatus → Bool
is_success UsageStatus.success = true
is_success UsageStatus.failed = false

module _ (lib : UsageLib) where
  abbrev text_of : ℕ → String
  text_of t = if t == 0 then "" else lib.format t

  -- The text of the end, or else of the start.
  unfoldable pub timestamp : UsageRecord → String
  timestamp r =
      if is_empty (text_of r.finished_at) then text_of r.started_at else text_of r.finished_at

  -- 0 where there is none.
  unfoldable pub record_time : UsageRecord → ℕ
  unfolding timestamp
  record_time r = elim (lib.parse (timestamp r)) [ none ↦ 0 | some t ↦ t ]

  unfoldable pub time_buckets : UsageRecord → String × String × String
  unfolding timestamp
  time_buckets r = elim (lib.parse (timestamp r)) [
    | none ↦ ("unknown", "unknown", "unknown")
    | some t ↦ (lib.day_text t, lib.week_text t, lib.month_text t)
  ]

  unfoldable pub usage_group_value : UsageRecord → String → String
  unfolding time_buckets
  usage_group_value r group_by =
      if group_by == "key"
      then non_empty r.client_name "unknown"
      else if group_by == "provider"
      then non_empty r.provider_name (non_empty r.outbound_name "unknown")
      else if group_by == "model"
      then non_empty r.executed_model (non_empty r.requested_model "unknown")
      else if group_by == "inbound"
      then non_empty r.inbound_name "unknown"
      else if group_by == "source"
      then non_empty r.usage_source "unknown"
      else if group_by == "outbound"
      then non_empty r.outbound_name "unknown"
      else if group_by == "error_kind"
      then non_empty r.error_kind "none"
      else if group_by == "date"
      then (time_buckets r).0
      else if group_by == "agent"
      then non_empty r.agent "unknown"
      else if group_by == "session"
      then non_empty r.session_id "unknown"
      else "unknown"

  unfoldable pub apply_to_item : String → UsageRecord → StatsItem → StatsItem
  unfolding timestamp usage_group_value
  apply_to_item value r i =
      let count = request_count_of r in
      let read = i.cached_input_read_tokens + r.breakdown.cached_input_read_tokens in
      let written = i.cached_input_write_tokens + r.breakdown.cached_input_write_tokens in
      record {
        value = value;
        date = if is_empty i.date then usage_group_value r "date" else i.date;
        agent = if is_empty i.agent && not (is_empty r.agent) then r.agent else i.agent;
        session_id =
            if is_empty i.session_id && not (is_empty r.session_id)
            then r.session_id
            else i.session_id;
        model = if is_empty i.model then usage_group_value r "model" else i.model;
        request_count = i.request_count + count;
        success_count = if is_success r.status then i.success_count + count else i.success_count;
        error_count = if is_success r.status then i.error_count else i.error_count + count;
        fallback_count = i.fallback_count + r.fallback_count;
        input_tokens = i.input_tokens + r.breakdown.input_tokens;
        output_tokens = i.output_tokens + r.breakdown.output_tokens;
        cached_input_read_tokens = read;
        cached_input_write_tokens = written;
        cache_read_tokens = read;
        cache_create_tokens = written;
        total_tokens = i.total_tokens + r.breakdown.total_tokens;
        cost_usd = lib.add_cost i.cost_usd r.cost_usd;
        provider_usage_count =
            if is_provider_source r.usage_source
            then i.provider_usage_count + count
            else i.provider_usage_count;
        estimated_usage_count =
            if r.usage_source == "estimated"
            then i.estimated_usage_count + count
            else i.estimated_usage_count;
        last_seen_at =
            if text_less i.last_seen_at (timestamp r) then timestamp r else i.last_seen_at;
      }

  unfoldable pub apply_to_group : String → UsageRecord → Group → Group
  unfolding insert lookup apply_to_item
  apply_to_group value r group = insert value (apply_to_item value r (item_at value group)) group

  -- The first loop of `applyRecord`.
  unfoldable pub apply_totals : List String → UsageRecord → Map String Group → Map String Group
  unfolding apply_to_group insert lookup
  apply_totals [] r totals = totals
  apply_totals (g ∷ groups) r totals =
      apply_totals groups r
        (insert g (apply_to_group (usage_group_value r g) r (group_at g totals)) totals)

  -- `ensureWindowGroup` and the change of its group.
  unfoldable pub apply_window :
      String
      → String
      → String
      → UsageRecord
      → Map String (Map String Group)
      → Map String (Map String Group)
  unfolding apply_to_group insert lookup
  apply_window window bucket g r windows =
      let groups = groups_at window windows in
      let key = bucket_key window bucket g in
      insert window
        (insert key (apply_to_group (usage_group_value r g) r (group_at key groups)) groups) windows

  -- The second loop.
  unfoldable pub apply_windows :
      List String → UsageRecord → Map String (Map String Group) → Map String (Map String Group)
  unfolding apply_window time_buckets
  apply_windows [] r windows = windows
  apply_windows (g ∷ groups) r windows =
      let buckets = time_buckets r in
      apply_windows groups r (
        apply_window "month" buckets.2 g r
          (apply_window "week" buckets.1 g r (apply_window "day" buckets.0 g r windows)))

  unfoldable pub apply_record : UsageRecord → MemoryStore → MemoryStore
  unfolding apply_totals apply_windows
  apply_record r s = record s {
    totals = apply_totals usage_group_bys r s.totals;
    windows = apply_windows usage_group_bys r s.windows;
  }

  unfoldable pub record_usage : UsageRecord → MemoryStore → MemoryStore
  unfolding apply_record
  record_usage r s =
      let next = apply_record r s in
      let recent = next.recent ++ r ∷ [] in
      record next { recent = drop (length recent - default_recent_records_limit) recent }
