-- ===== src/Router/Plan/Turns.antt =====
-- The order of a plan's steps: what they are under each strategy, and who comes first in turn.
use mathlib.Core.List.{Perm}
use syrogo.Base.{
  ℕ, zero, suc, ◌%◌, ◌<◌, ◌≡◌, ◌≢◌, refl, sym, ap, ◌∙◌, ◌⊎◌, inl, inr, String, Bool, true, false,
  ◌||◌, List, [], ◌∷◌, ◌++◌, map, take, drop, length, take-append-drop, if◌then◌else◌, arith,
  Bool-cases, ◌==◌, text_eq, nat_eq, eq_iff,
}
use syrogo.Base.Map.{Map}
use syrogo.Runtime.{RouteContext, ExecutionPlan}
use syrogo.Router.Order.{contains, rotate, dedupe_preserve_order, position, next_round_robin_index}
use syrogo.Router.Order.Distinct.{
  Distinct, dedupe-Distinct, contains-dedupe, contains-append, take_one-dedupe,
}
use syrogo.Router.Order.Fairness.{firsts, firsts_round, rotate-perm}
use syrogo.Router.Compile.{CompiledRule, Router, weighted_round_robin}
use syrogo.Router.Plan.Choice.{IsChosen, plan_rules-chosen}
use syrogo.Router.Plan.{Planned, ok, err, order_outbounds, plan_step, rule_plan, plan, plan_rules}

abbrev pub step_names : ExecutionPlan → List String
step_names p = map (λ s. s.outbound_name) p.steps

-- The outbounds that the strategy of a rule draws from.
abbrev pub candidates : CompiledRule → List String
candidates r = if r.strategy == weighted_round_robin then r.weighted_resolved else r.resolved_set

or_comm : (a b : Bool) → (a || b) ≡ (b || a)
or_comm a b = ground arith

contains-rotate : (xs : List String) (i : ℕ) (x : String) → contains (rotate xs i) x ≡ contains xs x
unfolding rotate
contains-rotate [] i x = refl
contains-rotate (y ∷ xs) i x = elim (Bool-cases ((i % length (y ∷ xs)) == 0)) [
  | inl h ↦ rw h refl
  | inr h ↦ rw h (
      let j : ℕ = i % length (y ∷ xs) in
      contains-append (drop j (y ∷ xs)) (take j (y ∷ xs)) x
      ∙ or_comm (contains (drop j (y ∷ xs)) x) (contains (take j (y ∷ xs)) x)
      ∙ sym (contains-append (take j (y ∷ xs)) (drop j (y ∷ xs)) x)
      ∙ ap (λ l. contains l x) (take-append-drop j (y ∷ xs)))
]

-- The three branches of the switch, with the position that is taken.
module _ (r : CompiledRule) (m : Map String ℕ) where
  pub order-round_robin :
      r.strategy ≡ "round_robin"
      → (candidates r ≡ r.resolved_set)
        × (order_outbounds r true m ≡ (
          rotate r.resolved_set (next_round_robin_index m r.name (length r.resolved_set)).0,
          (next_round_robin_index m r.name (length r.resolved_set)).1,
        ))
        × (order_outbounds r false m ≡ (r.resolved_set, m))
  unfolding order_outbounds
  order-round_robin e =
      let hit : (r.strategy == "round_robin") ≡ true = rw e refl in
      let miss : (r.strategy == weighted_round_robin) ≡ false = rw e refl in
      ground (arith, hit, miss)

  pub order-weighted :
      r.strategy ≡ weighted_round_robin
      → (candidates r ≡ r.weighted_resolved)
        × (order_outbounds r true m ≡ (
          dedupe_preserve_order (
              rotate r.weighted_resolved
                (next_round_robin_index m r.name (length r.weighted_resolved)).0),
          (next_round_robin_index m r.name (length r.weighted_resolved)).1,
        ))
        × (order_outbounds r false m ≡ (dedupe_preserve_order r.weighted_resolved, m))
  unfolding order_outbounds
  order-weighted e =
      let hit : (r.strategy == weighted_round_robin) ≡ true = rw e refl in
      let miss : (r.strategy == "round_robin") ≡ false = rw e refl in ground (arith, hit, miss)

  pub order-failover :
      r.strategy ≢ "round_robin"
      → r.strategy ≢ weighted_round_robin
      → (candidates r ≡ r.resolved_set)
        × (order_outbounds r true m ≡ (r.resolved_set, m))
        × (order_outbounds r false m ≡ (r.resolved_set, m))
  unfolding order_outbounds
  order-failover n k =
      ground (arith, eq_iff r.strategy "round_robin", eq_iff r.strategy weighted_round_robin)

  pub strategy_cases :
      (r.strategy ≡ "round_robin")
      ⊎ (r.strategy ≡ weighted_round_robin)
      ⊎ ((r.strategy ≢ "round_robin") × (r.strategy ≢ weighted_round_robin))
  strategy_cases =
      ground (arith, eq_iff r.strategy "round_robin", eq_iff r.strategy weighted_round_robin)

names-steps :
    (router : Router) (routed : String) (xs : List String)
    → map (λ s. s.outbound_name) (map (plan_step router routed) xs) ≡ xs
unfolding plan_step
names-steps router routed [] = refl
names-steps router routed (x ∷ xs) = ap (◌∷◌ x) (names-steps router routed xs)

-- Whatever the strategy, the steps of a plan and of a dry run are the rule's candidates, and the
-- weighted order holds none twice.
pub contains-order :
    (r : CompiledRule) (m : Map String ℕ) (x : String)
    → (contains (order_outbounds r true m).0 x ≡ contains (candidates r) x)
      × (contains (order_outbounds r false m).0 x ≡ contains (candidates r) x)
contains-order r m x = elim (strategy_cases r m) [
  | inl e ↦
      let (c, t, f) = order-round_robin r m e in
      rw (c, t, f) (contains-rotate r.resolved_set _ x, refl)
  | inr (inl e) ↦
      let (c, t, f) = order-weighted r m e in
      rw (c, t, f)
        (
          contains-dedupe (rotate r.weighted_resolved _) x
              ∙ contains-rotate r.weighted_resolved _ x,
          contains-dedupe r.weighted_resolved x,
        )
  | inr (inr (n, k)) ↦ let (c, t, f) = order-failover r m n k in rw (c, t, f) (refl, refl)
]

weighted-Distinct :
    (r : CompiledRule) (m : Map String ℕ)
    → r.strategy ≡ weighted_round_robin
    → Distinct (order_outbounds r true m).0
weighted-Distinct r m e =
    let (c, t, f) = order-weighted r m e in rw t (dedupe-Distinct (rotate r.weighted_resolved _))

pub chosen_plan :
    (router : Router) (ctx : RouteContext) (r : CompiledRule) (mutate : Bool)
    → IsChosen router.rules ctx r
    → r.resolved_set ≢ []
    → plan_rules router ctx mutate router.rules ≡ (
      ok (rule_plan router ctx r (order_outbounds r mutate router.round_robin).0),
      record router { round_robin = (order_outbounds r mutate router.round_robin).1 },
    )
chosen_plan router ctx r mutate c n =
    plan_rules-chosen router ctx mutate router.rules r c ∙ ground arith

pub rule_plan-names :
    (router : Router) (ctx : RouteContext) (r : CompiledRule) (ordered : List String)
    → step_names (rule_plan router ctx r ordered) ≡ ordered
unfolding rule_plan
rule_plan-names router ctx r ordered = names-steps router _ ordered

-- The steps of a plan are the outbounds that the strategy of the deciding rule draws from, and
-- no others; under weighted round robin each of them is tried once.
pub plan-step_names :
    (router : Router) (ctx : RouteContext) (r : CompiledRule) (p : ExecutionPlan) (after : Router)
    → IsChosen router.rules ctx r
    → r.resolved_set ≢ []
    → plan router ctx ≡ (ok p, after)
    → ((x : String) → contains (step_names p) x ≡ contains (candidates r) x)
      × (r.strategy ≡ weighted_round_robin → Distinct (step_names p))
unfolding plan
plan-step_names router ctx r p after c n e =
    let made : p ≡ rule_plan router ctx r (order_outbounds r true router.round_robin).0 =
      cc (chosen_plan router ctx r true c n) in
    let names : step_names p ≡ (order_outbounds r true router.round_robin).0 =
      ap step_names made ∙ rule_plan-names router ctx r _ in
    (
      λ x. rw names (contains-order r router.round_robin x).0,
      λ w. rw names (weighted-Distinct r router.round_robin w),
    )

abbrev first_name : Planned ExecutionPlan → List String
first_name (ok p) = take 1 (step_names p)
first_name (err e) = []

-- The outbounds that come first in `k` consecutive plans for one request context.
unfoldable pub first_names : ℕ → Router → RouteContext → List String
unfolding plan
first_names zero router ctx = []
first_names (suc k) router ctx =
    first_name (plan router ctx).0 ++ first_names k (plan router ctx).1 ctx

abbrev pub TakesTurns : CompiledRule → Type 0
TakesTurns r = (r.strategy ≡ "round_robin") ⊎ (r.strategy ≡ weighted_round_robin)

order-turn :
    (r : CompiledRule) (m : Map String ℕ)
    → TakesTurns r
    → let next = next_round_robin_index m r.name (length (candidates r)) in
      (take 1 (order_outbounds r true m).0 ≡ take 1 (rotate (candidates r) next.0))
      × ((order_outbounds r true m).1 ≡ next.1)
order-turn r m (inl e) = let (c, t, f) = order-round_robin r m e in rw (c, t) (refl, refl)
order-turn r m (inr e) =
    let (c, t, f) = order-weighted r m e in
    rw (c, t) (take_one-dedupe (rotate r.weighted_resolved _), refl)

first_names-firsts :
    (k : ℕ) (router : Router) (ctx : RouteContext) (r : CompiledRule)
    → IsChosen router.rules ctx r
    → r.resolved_set ≢ []
    → TakesTurns r
    → first_names k router ctx ≡ firsts k (candidates r) r.name router.round_robin
unfolding first_names firsts
first_names-firsts zero router ctx r c n s = refl
first_names-firsts (suc k) router ctx r c n s =
    let m : Map String ℕ = router.round_robin in
    let (first, next) = order-turn r m s in
    let router' : Router = record router { round_robin = (order_outbounds r true m).1 } in
    let ih = first_names-firsts k router' ctx r c n s in
    rw
      (chosen_plan router ctx r true c n, rule_plan-names router ctx r (order_outbounds r true m).0)
      (rw (first, ih, next) refl)

-- Over as many consecutive plans as a round-robin rule has candidates, a weighted one counted
-- with their weights, the outbounds that come first are the candidates in their order, from the
-- kept position on: each comes first exactly as often as it stands in the list.
pub first_names_round :
    (router : Router) (ctx : RouteContext) (r : CompiledRule)
    → IsChosen router.rules ctx r
    → r.resolved_set ≢ []
    → TakesTurns r
    → 0 < length (candidates r)
    → let position = position r.name router.round_robin % length (candidates r) in
      (first_names (length (candidates r)) router ctx ≡ rotate (candidates r) position)
      × Perm (first_names (length (candidates r)) router ctx) (candidates r)
first_names_round router ctx r c n s h =
    let turns =
      first_names-firsts (length (candidates r)) router ctx r c n s
      ∙ firsts_round (candidates r) r.name router.round_robin h in
    (turns, rw turns (rotate-perm (candidates r) _))
