-- ===== src/Config/Routing/Declared.antt =====
-- The tags that the rules of a validated configuration lead to.
use syrogo.Base.{
  ℕ, suc, String, ◌≡◌, refl, Bool, true, false, not, List, [], ◌∷◌, All, arith, text_eq,
}
use syrogo.Router.Order.{contains}
use syrogo.Router.Compile.{RoutingRule}
use syrogo.Config.Checks.{valid, >>-valid, refuse-valid}
use syrogo.Config.Routing.{validate_to_tags, validate_rule, validate_rules}

-- Each tag that the rule leads to is in the list.
abbrev pub IsDeclared : List String → RoutingRule → Type 0
IsDeclared declared rule = All (λ tag. contains declared tag ≡ true) rule.to_tags

validate_to_tags-declared :
    (i : ℕ) (declared tags : List String)
    → validate_to_tags i declared tags ≡ valid
    → All (λ tag. contains declared tag ≡ true) tags
unfolding validate_to_tags
validate_to_tags-declared i declared [] h = tt
validate_to_tags-declared i declared (tag ∷ tags) h =
    let both = >>-valid _ _ h in
    (
      not-false (contains declared tag) (refuse-valid _ _ both.0),
      validate_to_tags-declared i declared tags both.1,
    )
  where
    not-false : (b : Bool) → not b ≡ false → b ≡ true
    not-false true e = refl
    not-false false e = cc (e)

validate_rule-IsDeclared :
    (declared : List String) (i : ℕ) (rule : RoutingRule)
    → validate_rule declared i rule ≡ valid
    → IsDeclared declared rule
unfolding validate_rule
validate_rule-IsDeclared declared i rule h =
    validate_to_tags-declared i declared rule.to_tags (ground (arith, h))

pub validate_rules-IsDeclared :
    (declared : List String) (i : ℕ) (rules : List RoutingRule)
    → validate_rules declared i rules ≡ valid
    → All (IsDeclared declared) rules
unfolding validate_rules
validate_rules-IsDeclared declared i [] h = tt
validate_rules-IsDeclared declared i (rule ∷ rules) h =
    let both = >>-valid (validate_rule declared i rule) (validate_rules declared (suc i) rules) h in
    (
      validate_rule-IsDeclared declared i rule both.0,
      validate_rules-IsDeclared declared (suc i) rules both.1,
    )
