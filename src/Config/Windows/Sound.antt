-- ===== src/Config/Windows/Sound.antt =====
-- What the checks of a client's windows establish.
use syrogo.Base.{
  ℕ, suc, ◌<◌, ◌≡◌, refl, inl, inr, String, true, List, [], ◌∷◌, All, arith, Bool-cases, ◌==◌, ◌⊎◌,
  eq_iff, text_eq, nat_eq,
}
use syrogo.Base.Int.{ℤ, is_positive}
use syrogo.Config.Checks.{Message, valid, >>-valid}
use syrogo.Config.Schema.{Parsers, QuotaWindowConfig}
use syrogo.Config.Cost.{Cost, micro_usd, no_cost, cost_usd_micro}
use syrogo.Config.Windows.{
  window_prefix, validate_cost, validate_limits, validate_window, validate_windows_from,
  validate_quota_windows,
}

-- A number above zero.
abbrev pub IsPositive : ℤ → Type 0
IsPositive n = is_positive n ≡ true

-- An amount of money that can be read.
abbrev pub IsCost : List ℕ → Type 0
IsCost text = (v : ℕ) × (cost_usd_micro text ≡ micro_usd v)

-- The type of the window is known, and what it limits is limited.
pub data Limits (w : QuotaWindowConfig) : Type 0 where
  requests : w.window_type ≡ "requests" → IsPositive w.max_requests → Limits w
  tokens : w.window_type ≡ "tokens" → IsPositive w.max_tokens → Limits w
  cost : w.window_type ≡ "cost" → IsCost w.max_cost_usd → Limits w

pub record IsSound (go : Parsers) (w : QuotaWindowConfig) : Type 0 where
  pub long : 0 < go.duration w.duration
  pub limits : Limits w

validate_cost-IsCost :
    (prefix : Message) (text : List ℕ) → validate_cost prefix text ≡ valid → IsCost text
unfolding validate_cost
validate_cost-IsCost prefix text h = elim (cost_cases (cost_usd_micro text)) [
  | inl (v, e) ↦ (v, e)
  | inr (m, e) ↦ absurd (refused e)
]
  where
    cost_cases : (c : Cost) → ((v : ℕ) × (c ≡ micro_usd v)) ⊎ ((m : Message) × (c ≡ no_cost m))
    cost_cases (micro_usd v) = inl (v, refl)
    cost_cases (no_cost m) = inr (m, refl)

    refused : {m : Message} → cost_usd_micro text ≡ no_cost m → ⊥
    refused e = ground (arith, e, h)

validate_limits-Limits :
    (prefix : Message) (w : QuotaWindowConfig) → validate_limits prefix w ≡ valid → Limits w
unfolding validate_limits
validate_limits-Limits prefix w h = elim (Bool-cases (w.window_type == "requests")) [
  | inl a ↦ requests ((eq_iff w.window_type "requests").0 a) (ground (arith, h, a))
  | inr a ↦ elim (Bool-cases (w.window_type == "tokens")) [
    | inl b ↦ tokens ((eq_iff w.window_type "tokens").0 b) (ground (arith, h, a, b))
    | inr b ↦ elim (Bool-cases (w.window_type == "cost")) [
      | inl c ↦
          cost ((eq_iff w.window_type "cost").0 c)
            (validate_cost-IsCost prefix w.max_cost_usd (ground (arith, h, a, b, c)))
      | inr c ↦ absurd (ground (arith, h, a, b, c))
    ]
  ]
]

validate_window-IsSound :
    (go : Parsers) (prefix : Message) (seen : List String) (w : QuotaWindowConfig)
    → validate_window go prefix seen w ≡ valid
    → IsSound go w
unfolding validate_window
validate_window-IsSound go prefix seen w h = record {
  long = ground (arith, h);
  limits = validate_limits-Limits prefix w (ground (arith, h));
}

validate_windows_from-IsSound :
    (go : Parsers) (prefix : Message) (i : ℕ) (seen : List String)
    (windows : List QuotaWindowConfig)
    → validate_windows_from go prefix i seen windows ≡ valid
    → All (IsSound go) windows
unfolding validate_windows_from
validate_windows_from-IsSound go prefix i seen [] h = tt
validate_windows_from-IsSound go prefix i seen (w ∷ windows) h =
    let both =
      >>-valid (validate_window go (window_prefix prefix i) seen w)
        (validate_windows_from go prefix (suc i) (w.name ∷ seen) windows) h in
    (
      validate_window-IsSound go (window_prefix prefix i) seen w both.0,
      validate_windows_from-IsSound go prefix (suc i) (w.name ∷ seen) windows both.1,
    )

pub validate_quota_windows-IsSound :
    (go : Parsers) (prefix : Message) (windows : List QuotaWindowConfig)
    → validate_quota_windows go prefix windows ≡ valid
    → All (IsSound go) windows
unfolding validate_quota_windows
validate_quota_windows-IsSound go prefix [] h = tt
validate_quota_windows-IsSound go prefix (w ∷ windows) h =
    validate_windows_from-IsSound go prefix 0 [] (w ∷ windows) h
