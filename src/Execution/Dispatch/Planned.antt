-- ===== src/Execution/Dispatch/Planned.antt =====
-- From the router to the store: what becomes of the plans of a router that `New` built.
use syrogo.Base.{ℕ, ◌≡◌, ◌≢◌, refl, inl, inr, String, true, List, [], ◌∷◌, All, map}
use syrogo.Runtime.{ExecutionPlan, Request, Response, RouteContext}
use syrogo.Router.Compile.{CompiledRule, Router}
use syrogo.Router.Plan.{ok, plan, plan_step, rule_plan, order_outbounds}
use syrogo.Router.Plan.Choice.{plan_cases}
use syrogo.Router.Plan.Targets.{IsWired, IsTargeted, plan-targets}
use syrogo.Execution.{Env, Context, Dispatcher}
use syrogo.Execution.Dispatch.{Turn, dispatch}
use syrogo.Execution.Dispatch.Steps.{IsReady}
use syrogo.Execution.Dispatch.Once.{Once, dispatch-Once}

plan_step-IsReady :
    (router : Router) (model name : String)
    → IsTargeted router (plan_step router model name)
    → IsReady (plan_step router model name)
unfolding plan_step
plan_step-IsReady router model name h = record {
  type_is = refl;
  condition = inr (inr (inl refl));
  target = rw h.2 refl;
}

steps-IsReady :
    (router : Router) (model : String) (names : List String)
    → All (IsTargeted router) (map (plan_step router model) names)
    → All IsReady (map (plan_step router model) names)
steps-IsReady router model [] h = tt
steps-IsReady router model (n ∷ names) h =
    (plan_step-IsReady router model n h.0, steps-IsReady router model names h.1)

rule_plan-IsReady :
    (router : Router) (ctx : RouteContext) (r : CompiledRule) (names : List String)
    → All (IsTargeted router) (rule_plan router ctx r names).steps
    → All IsReady (rule_plan router ctx r names).steps
unfolding rule_plan
rule_plan-IsReady router ctx r names h = steps-IsReady router _ names h

pub plan-IsReady :
    (router after : Router) (ctx : RouteContext) (p : ExecutionPlan)
    → IsWired router
    → plan router ctx ≡ (ok p, after)
    → All IsReady p.steps
plan-IsReady router after ctx p w e = elim (plan_cases router ctx) [
  | inl (h, f) ↦ cc
  | inr (r, c, inl (n, f)) ↦ cc
  | inr (r, c, inr (n, f)) ↦
      let made : p ≡ rule_plan router ctx r (order_outbounds r true router.round_robin).0 = cc in
      rw made
        (rule_plan-IsReady router ctx r _ (rw made at (plan-targets router after ctx p w e).0))
]

-- In a gateway whose router `New` built, every request that the router gives a plan with steps is
-- dispatched to an end, and exactly one usage record is stored for it, a success exactly when no
-- error is returned.
pub plan-dispatch-Once :
    (router after : Router) (route : RouteContext) (p : ExecutionPlan) (env : Env) (ctx : Context)
    (req : Request) (started : ℕ) (turns : ℕ → Turn Response) (finished : ℕ) (d : Dispatcher)
    → IsWired router
    → plan router route ≡ (ok p, after)
    → p.steps ≢ []
    → Once d (dispatch env ctx req p started turns finished d)
plan-dispatch-Once router after route p env ctx req started turns finished d w e some_step =
    dispatch-Once env ctx req p started turns finished d some_step
      (plan-IsReady router after route p w e)
