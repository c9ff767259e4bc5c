-- ===== src/Router/Plan.antt =====
-- internal/router/router.go: `Plan` and `PlanDryRun`.
pub mod Choice
pub mod Turns
pub mod Targets
pub mod DryRun
use syrogo.Base.{
  ℕ, String, Bool, true, false, not, ◌&&◌, ◌||◌, List, [], ◌∷◌, map, if◌then◌else◌, ◌==◌, text_eq,
  Option, none, some, is_empty, length,
}
use syrogo.Base.Map.{Map, lookup}
use syrogo.Runtime.{
  CompletionProvider, mock, openai_compatible, anthropic_messages, other_type, RouteContext,
  ExecutionStep, ExecutionPlan, codes,
}
use syrogo.Router.Wildcard.{WildcardPattern, Bytes, matches}
use syrogo.Router.Order.{contains, rotate, dedupe_preserve_order, next_round_robin_index}
use syrogo.Router.Compile.{CompiledRule, Router, weighted_round_robin}

-- The first is a retryable provider error, the second a plain error.
pub data PlanError : Type 0 where
  no_enabled_outbounds : String → PlanError
  no_rule_matched : String → PlanError

pub data Planned {ℓ} (A : Type ℓ) : Type ℓ where
  ok : A → Planned A
  err : PlanError → Planned A

abbrev pub match_tag : List String → String → Bool
match_tag tags active = contains tags active

unfoldable pub any_matches : List WildcardPattern → Bytes → Bool
unfolding matches
any_matches [] model = false
any_matches (p ∷ patterns) model = matches p model || any_matches patterns model

unfoldable pub matches_model : CompiledRule → String → Bool
unfolding any_matches
matches_model r model = not r.has_model_match || any_matches r.model_patterns (codes model)

-- `r.modelMap[key]`, which is "" where the key is missing.
unfoldable pub mapped : Map String String → String → String
unfolding lookup
mapped m key = elim (lookup key m) [ none ↦ "" | some v ↦ v ]

unfoldable pub resolve_model : CompiledRule → String → String
unfolding mapped
resolve_model r requested =
    if not (is_empty (mapped r.model_map requested))
    then mapped r.model_map requested
    else if not (is_empty (mapped r.model_map "*"))
    then mapped r.model_map "*"
    else requested

unfoldable pub resolve_outbound_model : Option (Map String String) → String → String × Bool
unfolding lookup
resolve_outbound_model none routed = (routed, false)
resolve_outbound_model (some models) routed = elim (lookup routed models) [
  | none ↦ (routed, true)
  | some model ↦ (model, false)
]

unfoldable pub provider_protocol : Option CompletionProvider → String
provider_protocol none = "unknown"
provider_protocol (some p) = elim p.provider_type [
  | mock ↦ "mock"
  | openai_compatible ↦ "openai"
  | anthropic_messages ↦ "anthropic_messages"
  | other_type ↦ "unknown"
]

-- The switch on the strategy: the order of the outbounds, and the positions afterwards.
unfoldable pub order_outbounds : CompiledRule → Bool → Map String ℕ → List String × Map String ℕ
order_outbounds r mutate positions =
    if r.strategy == "round_robin"
    then (if mutate
        then (let (i, next) = next_round_robin_index positions r.name (length r.resolved_set) in
            (rotate r.resolved_set i, next))
        else (r.resolved_set, positions))
    else if r.strategy == weighted_round_robin
    then (if mutate
        then (let (i, next) =
              next_round_robin_index positions r.name (length r.weighted_resolved) in
            (dedupe_preserve_order (rotate r.weighted_resolved i), next))
        else (dedupe_preserve_order r.weighted_resolved, positions))
    else (r.resolved_set, positions)

-- `r.modelsByTarget[name]`, nil where the name is missing.
unfoldable pub target_models :
    Map String (Option (Map String String)) → String → Option (Map String String)
unfolding lookup
target_models m name = elim (lookup name m) [ none ↦ none | some models ↦ models ]

unfoldable pub plan_step : Router → String → String → ExecutionStep
unfolding lookup provider_protocol resolve_outbound_model target_models
plan_step router routed name = record {
  step_type = "outbound";
  outbound_name = name;
  outbound_protocol = provider_protocol (lookup name router.providers);
  outbound_target = lookup name router.providers;
  model = (resolve_outbound_model (target_models router.models_by_target name) routed).0;
  model_unavailable =
      (resolve_outbound_model (target_models router.models_by_target name) routed).1;
  on_error = "retryable";
}

-- The plan of the rule that matched.
unfoldable pub rule_plan : Router → RouteContext → CompiledRule → List String → ExecutionPlan
unfolding plan_step resolve_model
rule_plan router ctx r ordered = record {
  client_name = ctx.client_name;
  inbound_name = ctx.inbound_name;
  inbound_protocol = ctx.inbound_protocol;
  active_tag = ctx.active_tag;
  requested_model = ctx.request.model;
  matched_rule = r.name;
  strategy = r.strategy;
  resolved_to_tags = r.to_tags;
  steps = map (plan_step router (resolve_model r ctx.request.model)) ordered;
}

abbrev pub applies : CompiledRule → RouteContext → Bool
applies r ctx = match_tag r.from_tags ctx.active_tag && matches_model r ctx.request.model

abbrev pub has_none : List String → Bool
has_none [] = true
has_none (x ∷ xs) = false

-- The loop over the rules.
unfoldable pub plan_rules :
    Router → RouteContext → Bool → List CompiledRule → Planned ExecutionPlan × Router
unfolding matches_model order_outbounds rule_plan
plan_rules router ctx mutate [] = (err (no_rule_matched ctx.active_tag), router)
plan_rules router ctx mutate (r ∷ rules) = elim (applies r ctx) [
  | false ↦ plan_rules router ctx mutate rules
  | true ↦ elim (has_none r.resolved_set) [
    | true ↦ (err (no_enabled_outbounds r.name), router)
    | false ↦
        let (ordered, positions) = order_outbounds r mutate router.round_robin in
        (ok (rule_plan router ctx r ordered), record router { round_robin = positions })
  ]
]

unfoldable pub plan : Router → RouteContext → Planned ExecutionPlan × Router
unfolding plan_rules
plan router ctx = plan_rules router ctx true router.rules

unfoldable pub plan_dry_run : Router → RouteContext → Planned ExecutionPlan × Router
unfolding plan_rules
plan_dry_run router ctx = plan_rules router ctx false router.rules
