-- ===== src/Config/Routing.antt =====
-- The checks of the routing rules in internal/config/config.go. A weight is a natural number, where
-- 0 stands for what is not positive.
pub mod Declared
use syrogo.Base.{
  ℕ, suc, String, Bool, true, false, not, ◌&&◌, ◌||◌, List, [], ◌∷◌, Option, none, some,
  if◌then◌else◌, ◌==◌, nat_eq, text_eq, is_empty, is_nil,
}
use syrogo.Base.Map.{Map, lookup}
use syrogo.Router.Order.{contains}
use syrogo.Router.Compile.{RoutingRule, weighted_round_robin}
use syrogo.Config.Checks.{
  Message, plain, with_text, with_number, with_part, Validity, valid, invalid, ◌>>◌, refuse, unless,
  is_trimmed, has_control,
}
use syrogo.Config.Windows.{at}
use syrogo.Config.Schema.{OutboundConfig}

abbrev pub is_none {ℓ} : {A : Type ℓ} → List A → Bool
is_none [] = true
is_none (x ∷ xs) = false

-- A format about the rule at `i`.
abbrev pub rule_message : ℕ → String → Message
rule_message i format = with_number (plain format) i

unfoldable pub validate_pattern : Message → List String → String → Validity
unfolding is_trimmed has_control
validate_pattern field seen pattern = do
  refuse (is_empty pattern) (at field "%s must not be empty")
  refuse (not (is_trimmed pattern)) (at field "%s must not have leading or trailing whitespace")
  refuse (has_control pattern) (at field "%s must not contain control characters")
  refuse (contains seen pattern) (with_text (at field "%s duplicates pattern %q") pattern)

unfoldable pub validate_patterns : ℕ → ℕ → List String → List String → Validity
unfolding validate_pattern
validate_patterns i j seen [] = valid
validate_patterns i j seen (pattern ∷ patterns) =
    validate_pattern (with_number (rule_message i "routing.rules[%d].match.models[%d]") j) seen
      pattern
    >> validate_patterns i (suc j) (pattern ∷ seen) patterns

unfoldable pub validate_match : ℕ → Option (List String) → Validity
unfolding validate_patterns
validate_match i none = valid
validate_match i (some models) =
    refuse (is_none models)
      (rule_message i "routing.rules[%d].match.models must contain at least one pattern")
    >> validate_patterns i 0 [] models

unfoldable pub validate_to_tags : ℕ → List String → List String → Validity
validate_to_tags i declared [] = valid
validate_to_tags i declared (tag ∷ tags) =
    refuse (not (contains declared tag))
      (with_text (rule_message i "routing.rules[%d].to_tags %q not found in outbounds") tag)
    >> validate_to_tags i declared tags

unfoldable pub validate_model_map : ℕ → Map String String → Validity
validate_model_map i [] = valid
validate_model_map i ((from, to) ∷ entries) = do
  refuse (is_empty from) (rule_message i "routing.rules[%d].model_map contains empty source model")
  refuse (is_empty to)
      (with_text (rule_message i "routing.rules[%d].model_map.%s must not be empty") from)
  validate_model_map i entries

unfoldable pub validate_tag_weights : ℕ → Map String ℕ → List String → Validity
unfolding lookup
validate_tag_weights i weights [] = valid
validate_tag_weights i weights (tag ∷ tags) =
    (elim (lookup tag weights) [
      | none ↦ invalid (with_text (rule_message i "routing.rules[%d].weights.%s is required") tag)
      | some w ↦
          refuse (w == 0)
            (with_text (rule_message i "routing.rules[%d].weights.%s must be greater than 0") tag)
    ])
    >> validate_tag_weights i weights tags

unfoldable pub validate_declared_weights : ℕ → List String → Map String ℕ → Validity
validate_declared_weights i declared [] = valid
validate_declared_weights i declared ((tag, w) ∷ weights) =
    refuse (not (contains declared tag)) (
      with_text (rule_message i "routing.rules[%d].weights.%s does not match any to_tags entry")
        tag)
    >> validate_declared_weights i declared weights

unfoldable pub validate_weights : ℕ → RoutingRule → Validity
unfolding validate_tag_weights validate_declared_weights
validate_weights i rule =
    if rule.strategy == weighted_round_robin
    then (do
      refuse (is_none rule.weights) (
          rule_message i "routing.rules[%d].weights is required when strategy=weighted_round_robin")
      validate_tag_weights i rule.weights rule.to_tags
      validate_declared_weights i rule.to_tags rule.weights)
    else refuse (not (is_none rule.weights)) (
        rule_message i
          "routing.rules[%d].weights is only supported when strategy=weighted_round_robin")

abbrev is_strategy : String → Bool
is_strategy s = s == "failover" || s == "round_robin" || s == weighted_round_robin

unfoldable pub validate_rule : List String → ℕ → RoutingRule → Validity
unfolding validate_match validate_to_tags validate_model_map validate_weights
validate_rule declared i rule = do
  refuse (is_none rule.from_tags) (rule_message i "routing.rules[%d].from_tags is required")
  validate_match i rule.match_models
  refuse (is_none rule.to_tags) (rule_message i "routing.rules[%d].to_tags is required")
  refuse (is_empty rule.strategy) (rule_message i "routing.rules[%d].strategy is required")
  refuse (not (is_strategy rule.strategy))
      (with_text (rule_message i "routing.rules[%d].strategy %q is unsupported") rule.strategy)
  validate_to_tags i declared rule.to_tags
  refuse (not (is_empty rule.target_model) && not (is_none rule.model_map))
      (rule_message i "routing.rules[%d].model_map cannot be used with target_model")
  validate_model_map i rule.model_map
  validate_weights i rule

unfoldable pub validate_rules : List String → ℕ → List RoutingRule → Validity
unfolding validate_rule
validate_rules declared i [] = valid
validate_rules declared i (rule ∷ rules) =
    validate_rule declared i rule >> validate_rules declared (suc i) rules

-- The tags of all outbounds, those that are switched off included.
unfoldable pub outbound_tags : List OutboundConfig → List String
outbound_tags [] = []
outbound_tags (o ∷ outbounds) = o.tag ∷ outbound_tags outbounds
