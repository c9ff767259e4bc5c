-- ===== src/Router/Plan/Choice.antt =====
-- Which rule decides, and what a dry run shares with a plan.
use syrogo.Base.{
  ◌≡◌, ◌≢◌, refl, ap, ◌⊎◌, inl, inr, Bool, true, false, List, [], ◌∷◌, ◌++◌, All, arith, Bool-cases,
  text_eq,
}
use syrogo.Runtime.{RouteContext, ExecutionPlan}
use syrogo.Router.Compile.{CompiledRule, Router}
use syrogo.Router.Plan.{
  Planned, ok, err, no_enabled_outbounds, no_rule_matched, applies, has_none, order_outbounds,
  rule_plan, plan_rules, plan,
}

-- `r` is the first rule of the list that applies.
pub record IsChosen (rules : List CompiledRule) (ctx : RouteContext) (r : CompiledRule)
    : Type 0 where
  pub before : List CompiledRule
  pub after : List CompiledRule
  pub splits : rules ≡ before ++ r ∷ after
  pub passed : All (λ q. applies q ctx ≡ false) before
  pub fits : applies r ctx ≡ true

module _ (router : Router) (ctx : RouteContext) (mutate : Bool) where
  plan_rules-skip :
      (before rest : List CompiledRule)
      → All (λ q. applies q ctx ≡ false) before
      → plan_rules router ctx mutate (before ++ rest) ≡ plan_rules router ctx mutate rest
  unfolding plan_rules
  plan_rules-skip [] rest h = refl
  plan_rules-skip (q ∷ before) rest h = rw (h.0, plan_rules) (plan_rules-skip before rest h.1)

  -- What the chosen rule gives.
  abbrev pub chosen_result : CompiledRule → Planned ExecutionPlan × Router
  chosen_result r = elim (has_none r.resolved_set) [
    | true ↦ (err (no_enabled_outbounds r.name), router)
    | false ↦ (
      ok (rule_plan router ctx r (order_outbounds r mutate router.round_robin).0),
      record router { round_robin = (order_outbounds r mutate router.round_robin).1 },
    )
  ]

  pub plan_rules-chosen :
      (rules : List CompiledRule) (r : CompiledRule)
      → IsChosen rules ctx r
      → plan_rules router ctx mutate rules ≡ chosen_result r
  plan_rules-chosen rules r c =
      rw (c.splits, plan_rules-skip c.before (r ∷ c.after) c.passed)
        (unfold plan_rules in rw (c.fits, plan_rules) refl)

  pub plan_rules-none :
      (rules : List CompiledRule)
      → All (λ q. applies q ctx ≡ false) rules
      → plan_rules router ctx mutate rules ≡ (err (no_rule_matched ctx.active_tag), router)
  unfolding plan_rules
  plan_rules-none [] h = refl
  plan_rules-none (q ∷ rules) h = rw (h.0, plan_rules) (plan_rules-none rules h.1)

pub first_rule :
    (rules : List CompiledRule) (ctx : RouteContext)
    → All (λ q. applies q ctx ≡ false) rules ⊎ ((r : CompiledRule) × IsChosen rules ctx r)
first_rule [] ctx = inl tt
first_rule (q ∷ rules) ctx = elim (Bool-cases (applies q ctx)) [
  | inl h ↦ inr (q, record { before = []; after = rules; splits = refl; passed = tt; fits = h })
  | inr h ↦ elim (first_rule rules ctx) [
    | inl none_fit ↦ inl (h, none_fit)
    | inr (r, c) ↦ inr (
      r,
      record {
        before = q ∷ c.before;
        after = c.after;
        splits = ap (◌∷◌ q) c.splits;
        passed = (h, c.passed);
        fits = c.fits;
      },
    )
  ]
]

chosen_result_cases :
    (router : Router) (ctx : RouteContext) (r : CompiledRule)
    → ((r.resolved_set ≡ [])
        × (chosen_result router ctx true r ≡ (err (no_enabled_outbounds r.name), router)))
      ⊎ ((r.resolved_set ≢ [])
          × (chosen_result router ctx true r ≡ (
            ok (rule_plan router ctx r (order_outbounds r true router.round_robin).0),
            record router { round_robin = (order_outbounds r true router.round_robin).1 },
          )))
chosen_result_cases router ctx r = ground arith

-- A plan is decided by the first rule whose tags hold the active tag and whose patterns, if it
-- has any, match the model: it is that rule's plan, or the retryable error if the rule has no
-- enabled outbound; if no rule applies it is the other error. Errors leave the positions alone.
pub plan_cases :
    (router : Router) (ctx : RouteContext)
    → (All (λ q. applies q ctx ≡ false) router.rules
        × (plan router ctx ≡ (err (no_rule_matched ctx.active_tag), router)))
      ⊎ ((r : CompiledRule) × IsChosen router.rules ctx r
          × (((r.resolved_set ≡ [])
                × (plan router ctx ≡ (err (no_enabled_outbounds r.name), router)))
              ⊎ ((r.resolved_set ≢ [])
                  × (plan router ctx ≡ (
                    ok (rule_plan router ctx r (order_outbounds r true router.round_robin).0),
                    record router { round_robin = (order_outbounds r true router.round_robin).1 },
                  )))))
unfolding plan
plan_cases router ctx = elim (first_rule router.rules ctx) [
  | inl h ↦ inl (h, plan_rules-none router ctx true router.rules h)
  | inr (r, c) ↦ inr (
    r,
    c,
    rw (plan_rules-chosen router ctx true router.rules r c) (chosen_result_cases router ctx r),
  )
]
