-- ===== src/Tests/Accounting.antt =====
-- Runs of the price calculator and of the store of usage records.
use syrogo.Base.{
  String, none, true, not, ◌||◌, text_eq, keep_if, ℕ, ◌≡◌, refl, List, [], ◌∷◌, map, some, ◌==◌,
  nat_eq, ◌+◌, ◌*◌, ltb,
}
use syrogo.Runtime.{codes, UsageRecord, UsageStatus}
use syrogo.Accounting.Pricing.{CostLib, AccountingPrice, match_exact, match_price}
use syrogo.Accounting.Pricing.Last.{or_else, last_of, is_exact, is_general, match_exact-last_of}
use syrogo.Quota.Events.Bounded.{last}
use syrogo.Config.Checks.{plain, with_text}
use syrogo.Accounting.Memory.{
  UsageLib, StatsItem, MemoryStore, new_memory_store, group_at, item_at, usage_group_value,
  record_time,
}
use syrogo.Accounting.Memory.Queries.{QueryResult, items, query_error, query, recent_records}
use syrogo.Accounting.Memory.Totals.{record_usages, apply_all, record_usages-item_at}
use syrogo.Accounting.Memory.Conserved.{by_group, AddsUp, query-AddsUp}
use syrogo.Accounting.Memory.Retained.{recent_records-last}

-- Whole numbers in place of floating-point ones.
abbrev lib : CostLib
lib = record {
  is_space = λ c. c == b' ';
  Float = ℕ;
  zero_cost = 0;
  is_positive = λ rate. ltb 0 rate;
  per_million_of = λ tokens rate. tokens * rate;
  plus = λ a b. a + b;
}

abbrev price : List ℕ → ℕ → AccountingPrice lib
price provider rate = record {
  provider = provider;
  model = codes "m";
  input_per_million = rate;
  output_per_million = rate;
  cache_create_per_million = 0;
  cache_read_per_million = 0;
}

abbrev prices : List (AccountingPrice lib)
prices = price (codes "p") 1 ∷ price [] 2 ∷ price [] 3 ∷ []

match_price-run : match_price lib prices (codes "q") (codes " x/m ") ≡ some (price [] 3)
unfolding match_price
match_price-run = refl

match_exact-last_of_example :
    match_exact lib prices (codes "p") (codes "m")
    ≡ or_else
        (last_of (is_exact lib (codes "p") (codes "m")) prices)
        (last_of (is_general lib (codes "p") (codes "m")) prices)
match_exact-last_of_example = match_exact-last_of lib prices (codes "p") (codes "m")

abbrev usage_lib : UsageLib
usage_lib = record {
  format = λ t. "time";
  parse = λ s. some 3;
  day_text = λ t. "2026-01-01";
  week_text = λ t. "2026-W01";
  month_text = λ t. "2026-01";
  parse_day = λ s. none;
  add_cost = λ a b. a + b;
}

abbrev usage : String → UsageStatus → ℕ → UsageRecord
usage client status tokens = record {
  request_id = "1";
  client_name = client;
  inbound_name = "api";
  inbound_protocol = "openai_chat";
  active_tag = "dev";
  matched_rule = "main";
  strategy = "failover";
  outbound_name = "one";
  outbound_protocol = "mock";
  provider_name = "one";
  requested_model = "m";
  executed_model = "";
  usage_source = "provider";
  status = status;
  error_kind = "";
  session_id = "";
  agent = "";
  cost_usd = 0;
  priced = true;
  breakdown = record {
    request_count = 0;
    input_tokens = tokens;
    output_tokens = 1;
    cached_input_read_tokens = 0;
    cached_input_write_tokens = 0;
    total_tokens = tokens + 1;
  };
  started_at = 3;
  finished_at = 4;
  latency_ms = 0;
  fallback_count = 0;
}

abbrev usages : List UsageRecord
usages =
    usage "alice" UsageStatus.success 5
    ∷ usage "bob" UsageStatus.failed 0
    ∷ usage "alice" UsageStatus.success 7
    ∷ []

abbrev recorded : MemoryStore
recorded = record_usages usage_lib usages (new_memory_store 1 true)

abbrev tokens_of : QueryResult → List (String × ℕ)
tokens_of (items l) = map (λ i. (i.value, i.total_tokens)) l
tokens_of (query_error m) = []

tokens-run : tokens_of (query usage_lib recorded (by_group "key")) ≡ ("alice", 14) ∷ ("bob", 1) ∷ []
unfolding query record_usages new_memory_store
tokens-run = refl

unsupported-run :
    query usage_lib recorded (by_group "colour")
    ≡ query_error (with_text (plain "unsupported group_by %q") "colour")
unfolding query
unsupported-run = refl

query-AddsUp_example :
    (l : List StatsItem) × (query usage_lib recorded (by_group "key") ≡ items l) × AddsUp l usages
query-AddsUp_example = query-AddsUp usage_lib 1 true usages "key" refl

record_usages-item_at_example :
    item_at "alice" (group_at "key" recorded.totals)
    ≡ apply_all usage_lib "alice"
        (keep_if (λ r. usage_group_value usage_lib r "key" == "alice") usages)
        (item_at "alice" (group_at "key" (new_memory_store 1 true).totals))
record_usages-item_at_example =
    record_usages-item_at usage_lib usages (new_memory_store 1 true) "key" "alice" refl

abbrev since : ℕ
since = 2

recent_records-last_example :
    recent_records usage_lib recorded since 2
    ≡ last 2
        (keep_if (λ r. since == 0 || not (ltb (record_time usage_lib r) since)) (last 10000 usages))
recent_records-last_example = recent_records-last usage_lib 1 true usages since 2
