-- ===== src/Router/Plan/Targets.antt =====
-- Every outbound that a plan names has a provider.
use syrogo.Base.{
  ℕ, zero, suc, ◌≡◌, refl, sym, subst, ◌∙◌, ◌⊎◌, inl, inr, String, Bool, true, false, List, [], ◌∷◌,
  ◌++◌, All, map, none, some, if◌then◌else◌, arith, Bool-cases, Option-cases, ◌==◌, text_eq, eq_iff,
  is_some,
}
use syrogo.Base.Map.{Map, lookup, insert, lookup-insert}
use syrogo.Runtime.{RouteContext, ExecutionPlan, ExecutionStep, CompletionProvider}
use syrogo.Router.Order.{contains}
use syrogo.Router.Order.Distinct.{contains-append}
use syrogo.Router.Compile.{
  RoutingRule, OutboundSpec, CompiledRule, Router, Index, Compiled, RouterError, outbound_not_found,
  index_outbounds, outbound_enabled, declare_tag, register, names_of, resolve_tags, repeat,
  weight_of, expand_weighted, compile_rule, compile_rules, empty_index, unknown_tag, new_router,
  weighted_round_robin,
}
use syrogo.Router.Plan.Choice.{plan_cases}
use syrogo.Router.Plan.Turns.{candidates, contains-order}
use syrogo.Router.Plan.{ok, order_outbounds, plan_step, rule_plan, plan}

module _ (providers : Map String CompletionProvider) where
  -- Each name of the list has a provider.
  abbrev pub Known : List String → Type 0
  Known xs = (x : String) → contains xs x ≡ true → is_some (lookup x providers) ≡ true

  Known-nil : Known []
  Known-nil x h = cc

  Known-append : (xs ys : List String) → Known xs → Known ys → Known (xs ++ ys)
  Known-append xs ys h k x c = elim (Bool-cases (contains xs x)) [
    | inl e ↦ h x e
    | inr e ↦ k x (ground (arith, contains-append xs ys x))
  ]

  Known-one : (name : String) → is_some (lookup name providers) ≡ true → Known (name ∷ [])
  Known-one name h x c = ground (arith, eq_iff name x)

  abbrev IndexKnown : Index → Type 0
  IndexKnown ix = (tag : String) → Known (names_of tag ix.by_tag)

  names_of-insert :
      (tag t : String) (names : List String) (m : Map String (List String))
      → names_of t (insert tag names m) ≡ (if tag == t then names else names_of t m)
  unfolding names_of
  names_of-insert tag t names m = ground (arith, lookup-insert tag t names m)

  register-Known :
      (o : OutboundSpec) (ix : Index)
      → is_some (lookup o.name providers) ≡ true
      → IndexKnown ix
      → IndexKnown (register o ix)
  register-Known o ix h k tag = elim (Bool-cases (o.tag == tag)) [
    | inl e ↦
        rw (names_of-insert o.tag tag (names_of o.tag ix.by_tag ++ o.name ∷ []) ix.by_tag, e)
          (Known-append (names_of o.tag ix.by_tag) (o.name ∷ []) (k o.tag) (Known-one o.name h))
    | inr e ↦
        rw (names_of-insert o.tag tag (names_of o.tag ix.by_tag ++ o.name ∷ []) ix.by_tag, e)
          (k tag)
  ]

  index-nil : (ix : Index) → index_outbounds providers [] ix ≡ Compiled.ok ix
  unfolding index_outbounds
  index-nil ix = refl

  module _ (o : OutboundSpec) (outbounds : List OutboundSpec) (ix : Index) where
    index-off :
        outbound_enabled o ≡ false
        → index_outbounds providers (o ∷ outbounds) ix
          ≡ index_outbounds providers outbounds (declare_tag o ix)
    unfolding index_outbounds
    index-off e = rw (e, index_outbounds) refl

    index-on :
        outbound_enabled o ≡ true
        → is_some (lookup o.name providers) ≡ true
        → index_outbounds providers (o ∷ outbounds) ix
          ≡ index_outbounds providers outbounds (register o (declare_tag o ix))
    unfolding index_outbounds
    index-on e f = ground arith

    index-missing :
        outbound_enabled o ≡ true
        → lookup o.name providers ≡ none
        → index_outbounds providers (o ∷ outbounds) ix ≡ Compiled.err (outbound_not_found o.name)
    unfolding index_outbounds
    index-missing e f = ground arith

  index_outbounds-Known :
      (outbounds : List OutboundSpec) (ix ix' : Index)
      → IndexKnown ix
      → index_outbounds providers outbounds ix ≡ Compiled.ok ix'
      → IndexKnown ix'
  index_outbounds-Known [] ix ix' k e =
      let same : ix ≡ ix' = cc (index-nil ix) in subst IndexKnown same k
  index_outbounds-Known (o ∷ outbounds) ix ix' k e = elim (Bool-cases (outbound_enabled o)) [
    | inl on ↦ elim (Option-cases (lookup o.name providers)) [
      | inl missing ↦ cc (index-missing o outbounds ix on missing)
      | inr (p, found) ↦
          index_outbounds-Known outbounds (register o (declare_tag o ix)) ix'
            (register-Known o (declare_tag o ix) (rw found refl) k)
            (sym (index-on o outbounds ix on (rw found refl)) ∙ e)
    ]
    | inr off ↦
        index_outbounds-Known outbounds (declare_tag o ix) ix' k
          (sym (index-off o outbounds ix off) ∙ e)
  ]

  resolve_tags-Known :
      (by_tag : Map String (List String)) (tags : List String)
      → ((tag : String) → Known (names_of tag by_tag))
      → Known (resolve_tags by_tag tags)
  unfolding resolve_tags
  resolve_tags-Known by_tag [] k = Known-nil
  resolve_tags-Known by_tag (tag ∷ tags) k =
      Known-append (names_of tag by_tag) _ (k tag) (resolve_tags-Known by_tag tags k)

  repeat-Known : (n : ℕ) (names : List String) → Known names → Known (repeat n names)
  unfolding repeat
  repeat-Known zero names k = Known-nil
  repeat-Known (suc n) names k = Known-append names _ k (repeat-Known n names k)

  expand_weighted-Known :
      (weights : Map String ℕ) (by_tag : Map String (List String)) (tags : List String)
      → ((tag : String) → Known (names_of tag by_tag))
      → Known (expand_weighted weights by_tag tags)
  unfolding expand_weighted
  expand_weighted-Known weights by_tag [] k = Known-nil
  expand_weighted-Known weights by_tag (tag ∷ tags) k =
      Known-append (repeat (weight_of weights tag) (names_of tag by_tag)) _
        (repeat-Known (weight_of weights tag) (names_of tag by_tag) (k tag))
        (expand_weighted-Known weights by_tag tags k)

  abbrev pub RuleKnown : CompiledRule → Type 0
  RuleKnown r = Known (candidates r)

  if-Known : (b : Bool) (xs ys : List String) → Known xs → Known ys → Known (if b then xs else ys)
  if-Known true xs ys h k = h
  if-Known false xs ys h k = k

  compile_rule-Known :
      (numbered : ℕ → String) (by_tag : Map String (List String)) (i : ℕ) (r : RoutingRule)
      → ((tag : String) → Known (names_of tag by_tag))
      → RuleKnown (compile_rule numbered by_tag i r)
  unfolding compile_rule
  compile_rule-Known numbered by_tag i r k =
      let plain = resolve_tags-Known by_tag r.to_tags k in
      if-Known (r.strategy == weighted_round_robin) _ _
        (if-Known (r.strategy == weighted_round_robin) _ _
          (expand_weighted-Known r.weights by_tag r.to_tags k) plain)
        plain

  compile_rules-Known :
      (numbered : ℕ → String) (by_tag : Map String (List String)) (i : ℕ) (rules : List RoutingRule)
      → ((tag : String) → Known (names_of tag by_tag))
      → All RuleKnown (compile_rules numbered by_tag i rules)
  unfolding compile_rules
  compile_rules-Known numbered by_tag i [] k = tt
  compile_rules-Known numbered by_tag i (r ∷ rules) k = (
    compile_rule-Known numbered by_tag i r k,
    compile_rules-Known numbered by_tag (suc i) rules k,
  )

Compiled-cases {ℓ} :
    {A : Type ℓ} (m : Compiled A)
    → ((x : RouterError) × (m ≡ Compiled.err x)) ⊎ ((a : A) × (m ≡ Compiled.ok a))
Compiled-cases (Compiled.ok a) = inr (a, refl)
Compiled-cases (Compiled.err x) = inl (x, refl)

-- What `New` gives, and every plan keeps.
abbrev pub IsWired : Router → Type 0
IsWired router = All (RuleKnown router.providers) router.rules

-- Where `New` succeeds, every outbound that a rule of the router may choose has a provider.
pub new_router-IsWired :
    (numbered : ℕ → String) (rules : List RoutingRule) (providers : Map String CompletionProvider)
    (outbounds : List OutboundSpec) (router : Router)
    → new_router numbered rules providers outbounds ≡ Compiled.ok router
    → IsWired router
unfolding new_router
new_router-IsWired numbered rules providers outbounds router e =
    elim (Compiled-cases (index_outbounds providers outbounds empty_index)) [
      | inl (x, bad) ↦ ground arith
      | inr (ix, good) ↦ elim (Option-cases (unknown_tag ix.declared rules)) [
        | inr (x, bad) ↦ ground arith
        | inl all_declared ↦
            let made : (router.providers ≡ providers)
                × (router.rules ≡ compile_rules numbered ix.by_tag 0 rules) =
              ground arith in
            let start : IndexKnown providers empty_index =
              (λ tag. unfold names_of lookup in Known-nil providers) in
            let known = index_outbounds-Known providers outbounds empty_index ix start good in
            rw (made.0, made.1) (compile_rules-Known providers numbered ix.by_tag 0 rules known)
      ]
    ]

plan-IsWired : (router : Router) (ctx : RouteContext) → IsWired router → IsWired (plan router ctx).1
plan-IsWired router ctx w = elim (plan_cases router ctx) [
  | inl (h, e) ↦ rw e w
  | inr (r, c, inl (n, e)) ↦ rw e w
  | inr (r, c, inr (n, e)) ↦ rw e w
]

-- A step whose target is the provider that is registered under the name of its outbound.
abbrev pub IsTargeted : Router → ExecutionStep → Type 0
IsTargeted router s =
    (p : CompletionProvider) × (lookup s.outbound_name router.providers ≡ some p)
    × (s.outbound_target ≡ some p)

plan_step-IsTargeted :
    (router : Router) (routed x : String)
    → is_some (lookup x router.providers) ≡ true
    → IsTargeted router (plan_step router routed x)
unfolding plan_step
plan_step-IsTargeted router routed x h = elim (Option-cases (lookup x router.providers)) [
  | inl missing ↦ let bad : false ≡ true = rw missing at h in ground arith
  | inr (p, found) ↦ (p, found, found)
]

plan_steps-IsTargeted :
    (router : Router) (routed : String) (names : List String)
    → Known router.providers names
    → All (IsTargeted router) (map (plan_step router routed) names)
plan_steps-IsTargeted router routed [] k = tt
plan_steps-IsTargeted router routed (x ∷ names) k = (
  plan_step-IsTargeted router routed x (k x (ground (arith, eq_iff x x))),
  plan_steps-IsTargeted router routed names (λ y c. k y (ground arith)),
)

All-middle {ℓ κ} :
    {A : Type ℓ} (P : A → Type κ) (xs ys : List A) (a : A) → All P (xs ++ a ∷ ys) → P a
All-middle P [] ys a h = h.0
All-middle P (x ∷ xs) ys a h = All-middle P xs ys a h.1

-- In a router that `New` built, after any plans, there is a provider registered under the name of
-- the outbound of each step of a plan, and it is the target of the step.
pub plan-targets :
    (router after : Router) (ctx : RouteContext) (p : ExecutionPlan)
    → IsWired router
    → plan router ctx ≡ (ok p, after)
    → All (IsTargeted router) p.steps × IsWired after
plan-targets router after ctx p w e = elim (plan_cases router ctx) [
  | inl (h, f) ↦ cc
  | inr (r, c, inl (n, f)) ↦ cc
  | inr (r, c, inr (n, f)) ↦
      let known : Known router.providers (order_outbounds r true router.round_robin).0 = λ x h.
        All-middle (RuleKnown router.providers) c.before c.after r (rw (c.splits) at w) x
          (sym (contains-order r router.round_robin x).0 ∙ h) in
      let made : p ≡ rule_plan router ctx r (order_outbounds r true router.round_robin).0 = cc in
      let kept : after ≡ (plan router ctx).1 = cc in
      (
        rw made (unfold rule_plan in plan_steps-IsTargeted router _ _ known),
        rw kept (plan-IsWired router ctx w),
      )
]
