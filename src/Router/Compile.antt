-- ===== src/Router/Compile.antt =====
-- internal/router/router.go: `New` and the functions that compile the routing rules, over the
-- parts of internal/config/config.go that they read.
use syrogo.Base.{
  ℕ, suc, String, Bool, true, false, not, List, [], ◌∷◌, ◌++◌, map, if◌then◌else◌, ◌==◌, text_eq,
  Option, none, some, is_empty, is_some,
}
use syrogo.Base.Map.{Map, lookup, insert}
use syrogo.Runtime.{CompletionProvider, codes}
use syrogo.Router.Wildcard.{WildcardPattern, compile_model_patterns}
use syrogo.Router.Order.{contains}

pub record RoutingRule : Type 0 where
  pub name : String
  pub from_tags : List String
  pub to_tags : List String
  pub strategy : String
  pub weights : Map String ℕ
  pub target_model : String
  pub model_map : Map String String
  pub match_models : Option (List String)

pub record OutboundModelSpec : Type 0 where
  pub name : String
  pub aliases : List String

pub record OutboundSpec : Type 0 where
  pub name : String
  pub tag : String
  pub enabled : Option Bool
  pub models : List OutboundModelSpec

pub record CompiledRule : Type 0 where
  pub name : String
  pub from_tags : List String
  pub model_patterns : List WildcardPattern
  pub has_model_match : Bool
  pub to_tags : List String
  pub strategy : String
  pub model_map : Map String String
  pub resolved_set : List String
  pub weighted_resolved : List String

-- The providers never change; the round-robin positions do.
pub record Router : Type 0 where
  pub rules : List CompiledRule
  pub providers : Map String CompletionProvider
  pub outbound_by_tag : Map String (List String)
  pub models_by_target : Map String (Option (Map String String))
  pub round_robin : Map String ℕ

pub data RouterError : Type 0 where
  outbound_not_found : String → RouterError
  unknown_outbound_tag : String → String → RouterError

pub data Compiled {ℓ} (A : Type ℓ) : Type ℓ where
  ok : A → Compiled A
  err : RouterError → Compiled A

abbrev pub weighted_round_robin : String
weighted_round_robin = "weighted_round_robin"

-- `config.OutboundEnabled`.
unfoldable pub outbound_enabled : OutboundSpec → Bool
outbound_enabled o = elim o.enabled [ none ↦ true | some b ↦ b ]

unfoldable pub add_aliases : String → List String → Map String String → Map String String
unfolding insert
add_aliases name [] m = m
add_aliases name (a ∷ aliases) m = add_aliases name aliases (insert a name m)

unfoldable pub add_models : List OutboundModelSpec → Map String String → Map String String
unfolding add_aliases insert
add_models [] m = m
add_models (s ∷ models) m =
    add_models models (add_aliases s.name s.aliases (insert s.name s.name m))

-- The nil map is `none`.
unfoldable pub compile_outbound_models : List OutboundModelSpec → Option (Map String String)
unfolding add_models
compile_outbound_models [] = none
compile_outbound_models (s ∷ models) = some (add_models (s ∷ models) [])

-- The names under a tag, none where it is missing.
unfoldable pub names_of : String → Map String (List String) → List String
unfolding lookup
names_of tag m = elim (lookup tag m) [ none ↦ [] | some names ↦ names ]

pub record Index : Type 0 where
  pub declared : List String
  pub by_tag : Map String (List String)
  pub by_target : Map String (Option (Map String String))

abbrev pub declare_tag : OutboundSpec → Index → Index
declare_tag o ix = record ix { declared = o.tag ∷ ix.declared }

abbrev pub register : OutboundSpec → Index → Index
register o ix = record ix {
  by_tag = insert o.tag (names_of o.tag ix.by_tag ++ o.name ∷ []) ix.by_tag;
  by_target = insert o.name (compile_outbound_models o.models) ix.by_target;
}

-- The first loop of `New`.
unfoldable pub index_outbounds :
    Map String CompletionProvider → List OutboundSpec → Index → Compiled Index
unfolding outbound_enabled lookup insert names_of compile_outbound_models
index_outbounds providers [] ix = ok ix
index_outbounds providers (o ∷ outbounds) ix = elim (outbound_enabled o) [
  | false ↦ index_outbounds providers outbounds (declare_tag o ix)
  | true ↦ elim (lookup o.name providers) [
    | none ↦ err (outbound_not_found o.name)
    | some p ↦ index_outbounds providers outbounds (register o (declare_tag o ix))
  ]
]

abbrev pub undeclared : List String → List String → Option String
undeclared declared [] = none
undeclared declared (tag ∷ tags) =
    if contains declared tag then undeclared declared tags else some tag

-- The second loop of `New`: the first error, if there is one.
unfoldable pub unknown_tag : List String → List RoutingRule → Option RouterError
unknown_tag declared [] = none
unknown_tag declared (r ∷ rules) = elim (undeclared declared r.to_tags) [
  | some tag ↦ some (unknown_outbound_tag r.name tag)
  | none ↦ unknown_tag declared rules
]

unfoldable pub compile_model_map : RoutingRule → Map String String
compile_model_map r =
    if not (is_empty r.target_model) then ("*", r.target_model) ∷ [] else r.model_map

unfoldable pub resolve_tags : Map String (List String) → List String → List String
unfolding names_of
resolve_tags by_tag [] = []
resolve_tags by_tag (tag ∷ tags) = names_of tag by_tag ++ resolve_tags by_tag tags

unfoldable pub repeat : ℕ → List String → List String
repeat ℕ.zero names = []
repeat (suc n) names = names ++ repeat n names

-- A missing weight is 0, and a negative one runs no round, like 0.
unfoldable pub weight_of : Map String ℕ → String → ℕ
unfolding lookup
weight_of weights tag = elim (lookup tag weights) [ none ↦ 0 | some w ↦ w ]

unfoldable pub expand_weighted : Map String ℕ → Map String (List String) → List String → List String
unfolding names_of repeat weight_of
expand_weighted weights by_tag [] = []
expand_weighted weights by_tag (tag ∷ tags) =
    repeat (weight_of weights tag) (names_of tag by_tag) ++ expand_weighted weights by_tag tags

-- `numbered i` is the text of `fmt.Sprintf("rule-%d", i)`.
unfoldable pub compile_rule :
    (ℕ → String) → Map String (List String) → ℕ → RoutingRule → CompiledRule
unfolding resolve_tags expand_weighted compile_model_map compile_model_patterns
compile_rule numbered by_tag i r = record {
  name = if is_empty r.name then numbered i else r.name;
  from_tags = r.from_tags;
  model_patterns =
      compile_model_patterns (elim r.match_models [ none ↦ none | some ms ↦ some (map codes ms) ]);
  has_model_match = is_some r.match_models;
  to_tags = r.to_tags;
  strategy = r.strategy;
  model_map = compile_model_map r;
  resolved_set = resolve_tags by_tag r.to_tags;
  weighted_resolved =
      if r.strategy == weighted_round_robin
      then expand_weighted r.weights by_tag r.to_tags
      else resolve_tags by_tag r.to_tags;
}

unfoldable pub compile_rules :
    (ℕ → String) → Map String (List String) → ℕ → List RoutingRule → List CompiledRule
unfolding compile_rule
compile_rules numbered by_tag i [] = []
compile_rules numbered by_tag i (r ∷ rules) =
    compile_rule numbered by_tag i r ∷ compile_rules numbered by_tag (suc i) rules

abbrev pub empty_index : Index
empty_index = record { declared = []; by_tag = []; by_target = [] }

unfoldable pub new_router :
    (ℕ → String)
    → List RoutingRule
    → Map String CompletionProvider
    → List OutboundSpec
    → Compiled Router
unfolding index_outbounds unknown_tag compile_rules
new_router numbered rules providers outbounds =
    elim (index_outbounds providers outbounds empty_index) [
      | err e ↦ err e
      | ok ix ↦ elim (unknown_tag ix.declared rules) [
        | some e ↦ err e
        | none ↦ ok (record {
          rules = compile_rules numbered ix.by_tag 0 rules;
          providers = providers;
          outbound_by_tag = ix.by_tag;
          models_by_target = ix.by_target;
          round_robin = [];
        })
      ]
    ]
