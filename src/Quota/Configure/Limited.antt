-- ===== src/Quota/Configure/Limited.antt =====
-- The windows of the clients of a validated configuration.
use syrogo.Base.{
  ℕ, suc, ◌<◌, ◌≡◌, refl, inl, inr, String, true, List, [], ◌∷◌, All, map, arith, Bool-cases,
  if◌then◌else◌, ◌==◌, text_eq, nat_eq, is_empty,
}
use syrogo.Base.Int.{ℤ, pos, negsuc}
use syrogo.Base.Map.{Map, insert}
use syrogo.Config.Checks.{Validity, valid, ◌>>◌, >>-valid}
use syrogo.Config.Cost.Bounds.{cost_usd_micro_bounds}
use syrogo.Config.Schema.{Parsers, Config, QuotaWindowConfig, ClientSpec}
use syrogo.Config.Windows.Sound.{
  IsPositive, IsCost, Limits, requests, tokens, cost, IsSound, validate_quota_windows-IsSound,
}
use syrogo.Config.Entrances.{
  client_message, validate_client_quota, validate_client, validate_clients,
}
use syrogo.Config.Validate.{
  apply_defaults, validate_entrances, validate_services, validate_defaulted, validate,
}
use syrogo.Config.Validate.Separate.{validate_entrances-clients}
use syrogo.Config.Outbounds.{validate_outbounds}
use syrogo.Config.Routing.{outbound_tags, validate_rules}
use syrogo.Quota.Schedule.{TimeLib}
use syrogo.Quota.Window.{WindowState}
use syrogo.Quota.Configure.{
  limit_of, max_cost_micro_usd, client_window, client_configs, normalize_client_windows,
  new_window_state, new_client_state,
}

-- The limit on what the type of the window counts.
abbrev pub limit_for : WindowState → ℕ
limit_for w =
    if w.type_name == "requests"
    then w.max_requests
    else if w.type_name == "tokens"
    then w.max_tokens
    else if w.type_name == "cost"
    then w.max_cost_micro_usd
    else 0

-- A rolling window that has a length and a limit.
abbrev pub IsLimiting : WindowState → Type 0
IsLimiting w = (w.reset ≡ "rolling") × (0 < w.duration) × (0 < limit_for w)

limit_of-pos : (n : ℤ) → IsPositive n → 0 < limit_of n
limit_of-pos (pos n) h = ground (arith, h)
limit_of-pos (negsuc n) h = cc (h)

max_cost-pos : (w : QuotaWindowConfig) → IsCost w.max_cost_usd → 0 < max_cost_micro_usd w
unfolding max_cost_micro_usd
max_cost-pos w (v, e) = rw (e, max_cost_micro_usd) (cost_usd_micro_bounds w.max_cost_usd v e).0

checked :
    (go : Parsers) (i : ℕ) (names : List String) (owners : Map String String) (c : ClientSpec)
    → validate_client go i names owners c ≡ valid
    → c.quota.enabled ≡ true
    → All (IsSound go) c.quota.windows
unfolding validate_client validate_client_quota
checked go i names owners c h on =
    validate_quota_windows-IsSound go (client_message i "clients[%d].quota") c.quota.windows
      (ground (arith, h, on))

module _ (lib : TimeLib) (go : Parsers) where
  -- The window of a tracker for one of the configuration.
  abbrev made : QuotaWindowConfig → WindowState
  made w = new_window_state lib (record (client_window go w) {
    type_name = if is_empty w.window_type then "requests" else w.window_type;
  })

  made-IsLimiting :
      (w : QuotaWindowConfig) → Limits w → 0 < go.duration w.duration → IsLimiting (made w)
  unfolding new_window_state client_window
  made-IsLimiting w (requests e p) long = rw e ((refl, long, limit_of-pos w.max_requests p))
  made-IsLimiting w (tokens e p) long = rw e ((refl, long, limit_of-pos w.max_tokens p))
  made-IsLimiting w (cost e p) long = rw e ((refl, long, max_cost-pos w p))

  windows-IsLimiting :
      (windows : List QuotaWindowConfig)
      → All (IsSound go) windows
      → All IsLimiting
          (map (new_window_state lib) (normalize_client_windows (map (client_window go) windows)))
  unfolding normalize_client_windows client_window
  windows-IsLimiting [] h = tt
  windows-IsLimiting (w ∷ windows) h =
      (made-IsLimiting w h.0.limits h.0.long, windows-IsLimiting windows h.1)

  -- The clients whose quota is enabled.
  clients-IsLimiting :
      (i : ℕ) (names : List String) (owners : Map String String) (clients : List ClientSpec)
      → validate_clients go i names owners clients ≡ valid
      → All (λ c. All IsLimiting (new_client_state lib c).windows) (client_configs go clients)
  unfolding validate_clients client_configs new_client_state
  clients-IsLimiting i names owners [] h = tt
  clients-IsLimiting i names owners (c ∷ clients) h =
      let both =
        >>-valid (validate_client go i names owners c)
          (validate_clients go (suc i) (c.name ∷ names) (insert c.token c.name owners) clients) h in
      let rest =
        clients-IsLimiting (suc i) (c.name ∷ names) (insert c.token c.name owners) clients both.1 in
      elim (Bool-cases c.quota.enabled) [
        | inl on ↦
            rw (on, client_configs)
              (windows-IsLimiting c.quota.windows (checked go i names owners c both.0 on), rest)
        | inr off ↦ rw (off, client_configs) rest
      ]

-- Where `Validate` accepts a configuration, every window that the tracker has for a client whose
-- quota is enabled is a rolling one with a duration above zero and with a limit above zero on what
-- its type counts: requests, tokens or costs.
pub validate-IsLimiting :
    (lib : TimeLib) (go : Parsers) (c : Config)
    → validate go c ≡ valid
    → All
        (λ s. All IsLimiting (new_client_state lib s).windows)
        (client_configs go (apply_defaults c).clients)
unfolding validate validate_defaulted
validate-IsLimiting lib go c h =
    let d : Config = apply_defaults c in
    let rest : Validity =
      validate_outbounds go d.outbounds >> validate_rules (outbound_tags d.outbounds) 0 d.rules in
    let both = >>-valid (validate_entrances go d) (validate_services go d >> rest) h in
    clients-IsLimiting lib go 0 [] [] d.clients (validate_entrances-clients go d both.0)
