-- ===== src/Config/Validate/Separate.antt =====
-- Who can be told apart by their names and tokens.
use syrogo.Base.{
  subst, String, ◌≡◌, refl, ap, inl, inr, false, not, ◌&&◌, List, [], ◌∷◌, map, arith, Bool-cases,
  Option-cases, if◌then◌else◌, ◌==◌, text_eq, is_empty,
}
use syrogo.Base.Map.{lookup}
use syrogo.Router.Order.Distinct.{Distinct}
use syrogo.Config.Checks.{Validity, valid, ◌>>◌, >>-valid}
use syrogo.Config.Schema.{Parsers, Config, ClientSpec, AdminConfig, AccountingConfig}
use syrogo.Config.Entrances.{validate_clients, client_names, token_owners, validate_admin}
use syrogo.Config.Entrances.Distinct.{
  client_tokens, validate_clients-AreSeparate, token_owners-none,
}
use syrogo.Config.Outbounds.{validate_outbounds}
use syrogo.Config.Routing.{outbound_tags, validate_rules}
use syrogo.Config.Validate.{
  client_defaults, apply_defaults, validate_entrances, validate_services, validate_defaulted,
  validate,
}

pub validate_entrances-clients :
    (go : Parsers) (c : Config)
    → validate_entrances go c ≡ valid
    → validate_clients go 0 [] [] c.clients ≡ valid
unfolding validate_entrances
validate_entrances-clients go c h = ground (arith, h)

validate_services-admin :
    (go : Parsers) (c : Config)
    → validate_services go c ≡ valid
    → validate_admin c.admin (token_owners [] c.clients) c.accounting ≡ valid
unfolding validate_services
validate_services-admin go c h = ground (arith, h)

-- All tokens that open something: the administrators', where they are enabled, and the clients'.
abbrev pub credentials : AdminConfig → List String → List String
credentials admin tokens = if admin.enabled then admin.token ∷ tokens else tokens

-- The administrators' token is set and differs from that of the accounting, if the latter is set.
abbrev pub IsOwnToken : AdminConfig → AccountingConfig → Type 0
IsOwnToken admin accounting =
    (admin.enabled && is_empty admin.token ≡ false)
    × (admin.enabled
          && not (is_empty accounting.admin_token)
          && admin.token == accounting.admin_token
        ≡ false)

validate_admin-credentials :
    (admin : AdminConfig) (clients : List ClientSpec) (accounting : AccountingConfig)
    → validate_admin admin (token_owners [] clients) accounting ≡ valid
    → Distinct (client_tokens clients)
    → Distinct (credentials admin (client_tokens clients)) × IsOwnToken admin accounting
unfolding validate_admin
validate_admin-credentials admin clients accounting h distinct = elim (Bool-cases admin.enabled) [
  | inl on ↦ elim (Option-cases (lookup admin.token (token_owners [] clients))) [
    | inl free ↦ (
      rw on ((token_owners-none admin.token [] clients free).1, distinct),
      (ground (arith, h, on, free), ground (arith, h, on, free)),
    )
    | inr (owner, taken) ↦ ground (arith, h, on, taken)
  ]
  | inr off ↦ (rw off distinct, (ground (arith, off), ground (arith, off)))
]

client_names-defaults :
    (clients : List ClientSpec) → client_names (map client_defaults clients) ≡ client_names clients
unfolding client_names client_defaults
client_names-defaults [] = refl
client_names-defaults (c ∷ clients) = ap (◌∷◌ c.name) (client_names-defaults clients)

client_tokens-defaults :
    (clients : List ClientSpec)
    → client_tokens (map client_defaults clients) ≡ client_tokens clients
unfolding client_tokens client_defaults
client_tokens-defaults [] = refl
client_tokens-defaults (c ∷ clients) = ap (◌∷◌ c.token) (client_tokens-defaults clients)

-- Where `Validate` accepts a configuration, no two clients have the same name; no two of its
-- credentials are the same, which are the clients' tokens and, where the administration is enabled,
-- its token; and the latter, where it is enabled, is not empty and not that of the accounting,
-- unless the accounting has none.
pub validate-separate :
    (go : Parsers) (c : Config)
    → validate go c ≡ valid
    → Distinct (client_names c.clients)
      × Distinct (credentials c.admin (client_tokens c.clients))
      × IsOwnToken c.admin c.accounting
unfolding validate validate_defaulted apply_defaults
validate-separate go c h =
    let d : Config = apply_defaults c in
    let rest : Validity =
      validate_outbounds go d.outbounds >> validate_rules (outbound_tags d.outbounds) 0 d.rules in
    let both = >>-valid (validate_entrances go d) (validate_services go d >> rest) h in
    let services = (>>-valid (validate_services go d) rest both.1).0 in
    let clients =
      validate_clients-AreSeparate go 0 [] [] d.clients (validate_entrances-clients go d both.0) in
    let admin =
      validate_admin-credentials d.admin d.clients d.accounting
        (validate_services-admin go d services) clients.distinct_tokens in
    (
      subst Distinct (client_names-defaults c.clients) clients.distinct_names,
      subst (λ tokens. Distinct (credentials c.admin tokens)) (client_tokens-defaults c.clients)
          admin.0,
      admin.1,
    )
