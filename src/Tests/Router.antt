-- ===== src/Tests/Router.antt =====
-- Runs of the router on a small configuration.
use mathlib.Core.List.{Perm}
use syrogo.Base.{
  ℕ, ◌%◌, ◌≡◌, ◌≢◌, refl, ◌↔◌, ◌⊎◌, inr, arith, String, true, false, none, some, List, [], ◌∷◌, All,
  text_eq,
}
use syrogo.Base.Map.{Map}
use syrogo.Runtime.{CompletionProvider, mock, Request, RouteContext, ExecutionPlan, codes}
use syrogo.Router.Wildcard.{compile_pattern, matches}
use syrogo.Router.Wildcard.Glob.{Glob, matches_iff}
use syrogo.Router.Order.{rotate, position, dedupe_preserve_order, next_round_robin_index}
use syrogo.Router.Compile.{
  RoutingRule, OutboundSpec, CompiledRule, Router, Compiled, new_router, weighted_round_robin,
}
use syrogo.Router.Plan.{
  PlanError, plan_dry_run, ok, err, no_rule_matched, no_enabled_outbounds, plan, applies,
  matches_model, order_outbounds, rule_plan,
}
use syrogo.Router.Plan.Choice.{IsChosen, plan_cases}
use syrogo.Router.Plan.Turns.{candidates, first_names, first_names_round}
use syrogo.Router.Plan.DryRun.{Foretold, plan_dry_run-plan}
use syrogo.Router.Plan.Targets.{IsWired, IsTargeted, new_router-IsWired, plan-targets}

abbrev provider_of : String → CompletionProvider
provider_of name = record { name = name; provider_type = mock }

abbrev pub providers : Map String CompletionProvider
providers = ("a", provider_of "a") ∷ ("b", provider_of "b") ∷ []

abbrev pub outbounds : List OutboundSpec
outbounds =
    record { name = "a"; tag = "fast"; enabled = none; models = [] }
    ∷ record { name = "b"; tag = "slow"; enabled = some true; models = [] }
    ∷ record { name = "c"; tag = "slow"; enabled = some false; models = [] }
    ∷ []

abbrev pub rules : List RoutingRule
rules =
    record {
      name = "";
      from_tags = "chat" ∷ [];
      to_tags = "fast" ∷ "slow" ∷ [];
      strategy = "weighted_round_robin";
      weights = ("fast", 2) ∷ ("slow", 1) ∷ [];
      target_model = "";
      model_map = [];
      match_models = some ("gpt-*" ∷ []);
    }
    ∷ []

abbrev pub numbered : ℕ → String
numbered i = "rule-0"

abbrev rule : CompiledRule
rule = record {
  name = "rule-0";
  from_tags = "chat" ∷ [];
  model_patterns = compile_pattern (codes "gpt-*") ∷ [];
  has_model_match = true;
  to_tags = "fast" ∷ "slow" ∷ [];
  strategy = weighted_round_robin;
  model_map = [];
  resolved_set = "a" ∷ "b" ∷ [];
  weighted_resolved = "a" ∷ "a" ∷ "b" ∷ [];
}

abbrev pub router : Router
router = record {
  rules = rule ∷ [];
  providers = providers;
  outbound_by_tag = ("fast", "a" ∷ []) ∷ ("slow", "b" ∷ []) ∷ [];
  models_by_target = ("a", none) ∷ ("b", none) ∷ [];
  round_robin = [];
}

abbrev pub request : Request
request = record {
  model = "gpt-4";
  system = "";
  max_tokens = 0;
  messages = [];
  tools = [];
  tool_choice = "";
  stream = false;
  previous_response_id = "";
  metadata = "";
  thinking_type = "";
  context_management = "";
  output_effort = "";
}

abbrev pub ctx : RouteContext
ctx = record {
  request = request;
  client_name = "cli";
  inbound_name = "in";
  inbound_protocol = "openai_chat";
  active_tag = "chat";
}

pub new_router-run : new_router numbered rules providers outbounds ≡ Compiled.ok router
unfolding new_router
new_router-run = refl

abbrev compiled : Compiled Router
compiled = new_router numbered rules providers outbounds

matches_iff_example :
    (matches (compile_pattern (codes "gpt-*")) (codes "gpt-4") ≡ true)
    ↔ Glob (codes "gpt-*") (codes "gpt-4")
matches_iff_example = matches_iff (codes "gpt-*") (codes "gpt-4") (λ e. ground (arith, e))

plan_cases_example :
    (All (λ q. applies q ctx ≡ false) (rule ∷ [])
      × (plan router ctx ≡ (err (no_rule_matched "chat"), router)))
    ⊎ ((r : CompiledRule) × IsChosen (rule ∷ []) ctx r
        × (((r.resolved_set ≡ []) × (plan router ctx ≡ (err (no_enabled_outbounds r.name), router)))
            ⊎ ((r.resolved_set ≢ [])
                × (plan router ctx ≡ (
                  ok (rule_plan router ctx r (order_outbounds r true []).0),
                  record router { round_robin = (order_outbounds r true []).1 },
                )))))
plan_cases_example = plan_cases router ctx

rule-IsChosen : IsChosen (rule ∷ []) ctx rule
unfolding matches matches_model compile_pattern
rule-IsChosen = record { before = []; after = []; splits = refl; passed = tt; fits = refl }

rule-resolved : rule.resolved_set ≢ []
rule-resolved e = ground (arith, e)

abbrev pub planned : ExecutionPlan
planned = rule_plan router ctx rule ("a" ∷ "b" ∷ [])

abbrev pub moved : Router
moved = record router { round_robin = ("rule-0", 1) ∷ [] }

pub plan-run : plan router ctx ≡ (ok planned, moved)
unfolding plan order_outbounds rotate compile_pattern dedupe_preserve_order next_round_robin_index
plan-run = refl

first_names_round_example :
    let position = position rule.name router.round_robin % 3 in
    (first_names 3 router ctx ≡ rotate (candidates rule) position)
    × Perm (first_names 3 router ctx) (candidates rule)
first_names_round_example =
    first_names_round router ctx rule rule-IsChosen rule-resolved (inr refl) (omega arith)

plan-targets_example : All (IsTargeted router) planned.steps × IsWired moved
plan-targets_example = plan-targets router moved ctx planned wired plan-run
  where
    wired : IsWired router
    wired = new_router-IsWired numbered rules providers outbounds router new_router-run

plan_dry_run-plan_example :
    ((e : PlanError) × (plan router ctx ≡ (err e, router))
      × (plan_dry_run router ctx ≡ (err e, router)))
    ⊎ Foretold router ctx
plan_dry_run-plan_example = plan_dry_run-plan router ctx
