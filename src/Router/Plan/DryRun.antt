-- ===== src/Router/Plan/DryRun.antt =====
-- A dry run against the plan that it foretells.
use syrogo.Base.{
  ℕ, ◌≡◌, ◌≢◌, refl, sym, ap, ◌∙◌, ◌⊎◌, inl, inr, String, Bool, true, false, List, [], arith,
  Bool-cases, text_eq,
}
use syrogo.Base.Map.{Map}
use syrogo.Runtime.{RouteContext, ExecutionPlan}
use syrogo.Router.Order.{contains}
use syrogo.Router.Compile.{CompiledRule, Router}
use syrogo.Router.Plan.{
  PlanError, no_rule_matched, no_enabled_outbounds, ok, err, has_none, order_outbounds, rule_plan,
  plan_rules, plan, plan_dry_run,
}
use syrogo.Router.Plan.Choice.{
  IsChosen, first_rule, chosen_result, plan_rules-none, plan_rules-chosen,
}
use syrogo.Router.Plan.Turns.{
  step_names, contains-order, chosen_plan, rule_plan-names, strategy_cases, order-round_robin,
  order-weighted, order-failover,
}

-- The positions stand still in a dry run.
order-still : (r : CompiledRule) (m : Map String ℕ) → (order_outbounds r false m).1 ≡ m
order-still r m = elim (strategy_cases r m) [
  | inl e ↦ ap (λ o. o.1) (order-round_robin r m e).2
  | inr (inl e) ↦ ap (λ o. o.1) (order-weighted r m e).2
  | inr (inr (n, k)) ↦ ap (λ o. o.1) (order-failover r m n k).2
]

-- The plan and the dry run of one request context agree.
pub record Foretold (router : Router) (ctx : RouteContext) : Type 0 where
  pub planned : ExecutionPlan
  pub foretold : ExecutionPlan
  pub plan_is : (plan router ctx).0 ≡ ok planned
  pub dry_run_is : plan_dry_run router ctx ≡ (ok foretold, router)
  pub rule_is : planned.matched_rule ≡ foretold.matched_rule
  pub names_are : (x : String) → contains (step_names planned) x ≡ contains (step_names foretold) x

chosen-Foretold :
    (router : Router) (ctx : RouteContext) (r : CompiledRule)
    → IsChosen router.rules ctx r
    → r.resolved_set ≢ []
    → Foretold router ctx
unfolding plan plan_dry_run
chosen-Foretold router ctx r c n =
    let m = router.round_robin in
    let p = rule_plan router ctx r (order_outbounds r true m).0 in
    let q = rule_plan router ctx r (order_outbounds r false m).0 in
    record {
      planned = p;
      foretold = q;
      plan_is = ap (λ x. x.0) (chosen_plan router ctx r true c n);
      dry_run_is =
          chosen_plan router ctx r false c n
          ∙ ap (λ k. (ok q, record router { round_robin = k })) (order-still r m);
      rule_is = unfold rule_plan in refl;
      names_are = λ x.
          ap (λ l. contains l x) (rule_plan-names router ctx r (order_outbounds r true m).0)
          ∙ (contains-order r m x).0
          ∙ sym (contains-order r m x).1
          ∙ sym
              (ap (λ l. contains l x) (rule_plan-names router ctx r (order_outbounds r false m).0));
    }

no_outbounds :
    (router : Router) (ctx : RouteContext) (r : CompiledRule) (mutate : Bool)
    → IsChosen router.rules ctx r
    → has_none r.resolved_set ≡ true
    → plan_rules router ctx mutate router.rules ≡ (err (no_enabled_outbounds r.name), router)
no_outbounds router ctx r mutate c h =
    plan_rules-chosen router ctx mutate router.rules r c ∙ rw (chosen_result, h) refl

has_none-false : (names : List String) → has_none names ≡ false → names ≢ []
has_none-false names h e = ground (arith, rw e at h)

-- A dry run changes nothing in the router. It ends with the same error as the plan, if one of the
-- two does; otherwise both follow the same rule and try the same outbounds.
pub plan_dry_run-plan :
    (router : Router) (ctx : RouteContext)
    → ((e : PlanError) × (plan router ctx ≡ (err e, router))
        × (plan_dry_run router ctx ≡ (err e, router)))
      ⊎ Foretold router ctx
unfolding plan plan_dry_run
plan_dry_run-plan router ctx = elim (first_rule router.rules ctx) [
  | inl h ↦ inl (
    no_rule_matched ctx.active_tag,
    plan_rules-none router ctx true router.rules h,
    plan_rules-none router ctx false router.rules h,
  )
  | inr (r, c) ↦ elim (Bool-cases (has_none r.resolved_set)) [
    | inl h ↦ inl (
      no_enabled_outbounds r.name,
      no_outbounds router ctx r true c h,
      no_outbounds router ctx r false c h,
    )
    | inr h ↦ inr (chosen-Foretold router ctx r c (has_none-false r.resolved_set h))
  ]
]
