-- ===== src/Config/Validate/Routable.antt =====
-- A validated configuration gives a router.
use syrogo.Base.{
  subst, ℕ, String, ◌≡◌, refl, ap, inl, inr, true, ◌||◌, List, [], ◌∷◌, All, map, Option, none,
  arith, Bool-cases, Option-cases, text_eq, is_some,
}
use syrogo.Base.Map.{Map, lookup}
use syrogo.Runtime.{CompletionProvider}
use syrogo.Router.Order.{contains}
use syrogo.Router.Compile.{
  RoutingRule, OutboundSpec, Router, Index, Compiled, declare_tag, register, outbound_enabled,
  index_outbounds, undeclared, unknown_tag, compile_rules, empty_index, new_router,
}
use syrogo.Router.Plan.Targets.{IsWired, new_router-IsWired}
use syrogo.Config.Checks.{Validity, valid, ◌>>◌, >>-valid}
use syrogo.Config.Schema.{Parsers, Config, OutboundConfig}
use syrogo.Config.Routing.{outbound_tags, validate_rules}
use syrogo.Config.Routing.Declared.{IsDeclared, validate_rules-IsDeclared}
use syrogo.Config.Validate.{
  outbound_defaults, apply_defaults, validate_defaulted, validate, validate_entrances,
  validate_services,
}
use syrogo.Config.Outbounds.{validate_outbounds}

-- What the router is given of the outbounds.
abbrev pub specs : List OutboundConfig → List OutboundSpec
specs [] = []
specs (o ∷ outbounds) = o.spec ∷ specs outbounds

-- Each outbound that is switched on has a provider.
abbrev pub HasProvider : Map String CompletionProvider → OutboundSpec → Type 0
HasProvider providers o = outbound_enabled o ≡ true → is_some (lookup o.name providers) ≡ true

module _ (providers : Map String CompletionProvider) where
  -- The first loop of `New` ends, and has declared the tags of all outbounds.
  index_outbounds-ok :
      (outbounds : List OutboundConfig) (ix : Index)
      → All (HasProvider providers) (specs outbounds)
      → (ix' : Index) × (index_outbounds providers (specs outbounds) ix ≡ Compiled.ok ix')
        × ((tag : String)
            → contains (outbound_tags outbounds) tag || contains ix.declared tag ≡ true
            → contains ix'.declared tag ≡ true)
  unfolding index_outbounds outbound_tags
  index_outbounds-ok [] ix h = (ix, refl, λ tag c. c)
  index_outbounds-ok (o ∷ outbounds) ix h = elim (Bool-cases (outbound_enabled o.spec)) [
    | inl on ↦ elim (Option-cases (lookup o.name providers)) [
      | inl missing ↦ absurd (lost missing (h.0 on))
      | inr (p, found) ↦
          let (ix', e, all) =
            index_outbounds-ok outbounds (register o.spec (declare_tag o.spec ix)) h.1 in
          (ix', rw (on, found, index_outbounds) e, λ tag c. all tag (ground (arith, c)))
    ]
    | inr off ↦
        let (ix', e, all) = index_outbounds-ok outbounds (declare_tag o.spec ix) h.1 in
        (ix', rw (off, index_outbounds) e, λ tag c. all tag (ground (arith, c)))
  ]
    where
      lost : {v : Option CompletionProvider} → v ≡ none → is_some v ≡ true → ⊥
      lost e k = cc (e, k)

undeclared-none :
    (declared tags : List String)
    → All (λ tag. contains declared tag ≡ true) tags
    → undeclared declared tags ≡ none
undeclared-none declared [] h = refl
undeclared-none declared (tag ∷ tags) h = ground (arith, h.0, undeclared-none declared tags h.1)

unknown_tag-none :
    (declared : List String) (rules : List RoutingRule)
    → All (IsDeclared declared) rules
    → unknown_tag declared rules ≡ none
unfolding unknown_tag
unknown_tag-none declared [] h = refl
unknown_tag-none declared (rule ∷ rules) h =
    rw (undeclared-none declared rule.to_tags h.0, unknown_tag)
      (unknown_tag-none declared rules h.1)

All-map {ℓ κ} :
    {A : Type ℓ} (P Q : A → Type κ) (xs : List A) → ((x : A) → P x → Q x) → All P xs → All Q xs
All-map P Q [] f h = tt
All-map P Q (x ∷ xs) f h = (f x h.0, All-map P Q xs f h.1)

outbound_tags-defaults :
    (outbounds : List OutboundConfig)
    → outbound_tags (map outbound_defaults outbounds) ≡ outbound_tags outbounds
unfolding outbound_tags outbound_defaults
outbound_tags-defaults [] = refl
outbound_tags-defaults (o ∷ outbounds) = ap (◌∷◌ o.tag) (outbound_tags-defaults outbounds)

validate_defaulted-rules :
    (go : Parsers) (c : Config)
    → validate_defaulted go c ≡ valid
    → validate_rules (outbound_tags c.outbounds) 0 c.rules ≡ valid
unfolding validate_defaulted
validate_defaulted-rules go c h =
    let rules : Validity = validate_rules (outbound_tags c.outbounds) 0 c.rules in
    let outbounds : Validity = validate_outbounds go c.outbounds in
    let services : Validity = validate_services go c in
    let behind_entrances =
      >>-valid (validate_entrances go c) (services >> (outbounds >> rules)) h in
    let behind_services = >>-valid services (outbounds >> rules) behind_entrances.1 in
    (>>-valid outbounds rules behind_services.1).1

abbrev router_of : (ℕ → String) → List RoutingRule → Map String CompletionProvider → Index → Router
router_of numbered rules providers ix = record {
  rules = compile_rules numbered ix.by_tag 0 rules;
  providers = providers;
  outbound_by_tag = ix.by_tag;
  models_by_target = ix.by_target;
  round_robin = [];
}

new_router-made :
    (numbered : ℕ → String) (rules : List RoutingRule) (providers : Map String CompletionProvider)
    (outbounds : List OutboundSpec) (ix : Index)
    → index_outbounds providers outbounds empty_index ≡ Compiled.ok ix
    → unknown_tag ix.declared rules ≡ none
    → new_router numbered rules providers outbounds
      ≡ Compiled.ok (router_of numbered rules providers ix)
unfolding new_router
new_router-made numbered rules providers outbounds ix e k = rw (e, k, new_router) refl

-- Where `Validate` accepts a configuration and every outbound that is switched on has a provider,
-- `New` makes a router of its rules and outbounds, and in this router every outbound that a rule
-- may choose has a provider.
pub validate-new_router :
    (go : Parsers) (c : Config) (numbered : ℕ → String) (providers : Map String CompletionProvider)
    → validate go c ≡ valid
    → All (HasProvider providers) (specs c.outbounds)
    → (r : Router) × (new_router numbered c.rules providers (specs c.outbounds) ≡ Compiled.ok r)
      × IsWired r
unfolding validate
validate-new_router go c numbered providers accepted provided =
    let (ix, indexed, declares) = index_outbounds-ok providers c.outbounds empty_index provided in
    let checked : validate_rules (outbound_tags c.outbounds) 0 c.rules ≡ valid =
      subst (λ tags. validate_rules tags 0 c.rules ≡ valid) (outbound_tags-defaults c.outbounds)
        (validate_defaulted-rules go (apply_defaults c) accepted) in
    let all_declared : unknown_tag ix.declared c.rules ≡ none =
      unknown_tag-none ix.declared c.rules (
        All-map _ _ c.rules
          (λ rule. All-map _ _ rule.to_tags (λ tag k. declares tag (ground (arith, k))))
          (validate_rules-IsDeclared (outbound_tags c.outbounds) 0 c.rules checked)) in
    let made : new_router numbered c.rules providers (specs c.outbounds)
        ≡ Compiled.ok (router_of numbered c.rules providers ix) =
      new_router-made numbered c.rules providers (specs c.outbounds) ix indexed all_declared in
    (
      router_of numbered c.rules providers ix,
      made,
      new_router-IsWired numbered c.rules providers (specs c.outbounds) _ made,
    )
