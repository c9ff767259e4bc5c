-- ===== src/Accounting/Pricing.antt =====
-- internal/accounting/pricing.go: which price applies, and what a breakdown costs by it. A text is
-- the list of its code points, and floating-point numbers and their operations are given.
pub mod Last
use syrogo.Base.{
  ℕ, Bool, true, false, not, ◌&&◌, ◌||◌, List, [], ◌∷◌, ◌++◌, Option, none, some, if◌then◌else◌,
  ltb, ◌==◌, nat_eq, is_nil,
}
use syrogo.Runtime.{UsageBreakdown}
use syrogo.Router.Wildcard.{Bytes, bytes_eq}

-- `unicode.IsSpace`, and the floating-point numbers that the costs are computed with.
pub record CostLib : Type 1 where
  pub is_space : ℕ → Bool
  pub Float : Type 0
  pub zero_cost : Float
  pub is_positive : Float → Bool
  -- `float64(tokens) * rate / 1_000_000`.
  pub per_million_of : ℕ → Float → Float
  pub plus : Float → Float → Float

module _ (lib : CostLib) where
  pub record AccountingPrice : Type 0 where
    pub provider : Bytes
    pub model : Bytes
    pub input_per_million : lib.Float
    pub output_per_million : lib.Float
    pub cache_create_per_million : lib.Float
    pub cache_read_per_million : lib.Float

abbrev trim_left : (ℕ → Bool) → Bytes → Bytes
trim_left is_space [] = []
trim_left is_space (c ∷ s) = if is_space c then trim_left is_space s else c ∷ s

abbrev only_space : (ℕ → Bool) → Bytes → Bool
only_space is_space [] = true
only_space is_space (c ∷ s) = is_space c && only_space is_space s

abbrev trim_right : (ℕ → Bool) → Bytes → Bytes
trim_right is_space [] = []
trim_right is_space (c ∷ s) =
    let rest = trim_right is_space s in if only_space is_space (c ∷ s) then [] else c ∷ rest

-- `strings.TrimSpace`.
unfoldable pub trim_space : (ℕ → Bool) → Bytes → Bytes
trim_space is_space s = trim_right is_space (trim_left is_space s)

-- What follows the last `/`, where there is one.
unfoldable pub after_last_slash : Bytes → Option Bytes
after_last_slash [] = none
after_last_slash (c ∷ s) = elim (after_last_slash s) [
  | some rest ↦ some rest
  | none ↦ if c == b'/' then some s else none
]

abbrev pub backwards {ℓ} : {A : Type ℓ} → List A → List A
backwards [] = []
backwards (x ∷ xs) = backwards xs ++ x ∷ []

abbrev pub is_blank : Bytes → Bool
is_blank [] = true
is_blank (c ∷ s) = false

module _ (lib : CostLib) where
  -- The loop of `matchExact`, over the items from the last one on.
  unfoldable pub match_scan :
      Bytes
      → Bytes
      → Option (AccountingPrice lib)
      → List (AccountingPrice lib)
      → Option (AccountingPrice lib)
  unfolding bytes_eq
  match_scan provider model model_only [] = model_only
  match_scan provider model model_only (item ∷ items) =
      let found : Option (AccountingPrice lib) =
        if is_blank item.provider && is_nil model_only then some item else model_only in
      let skipped = match_scan provider model model_only items in
      let going_on = match_scan provider model found items in
      if not (bytes_eq item.model model)
      then skipped
      else if bytes_eq item.provider provider
      then some item
      else going_on

  unfoldable pub match_exact :
      List (AccountingPrice lib) → Bytes → Bytes → Option (AccountingPrice lib)
  unfolding match_scan
  match_exact items provider model = match_scan provider model none (backwards items)

  unfoldable pub match_price :
      List (AccountingPrice lib) → Bytes → Bytes → Option (AccountingPrice lib)
  unfolding match_exact trim_space after_last_slash
  match_price items provider model =
      elim (match_exact items (trim_space lib.is_space provider) (trim_space lib.is_space model)) [
        | some price ↦ some price
        | none ↦ elim (after_last_slash (trim_space lib.is_space model)) [
          | none ↦ none
          | some rest ↦ match_exact items [] (trim_space lib.is_space rest)
        ]
      ]

  unfoldable pub per_million : ℕ → lib.Float → lib.Float
  per_million tokens rate =
      if tokens == 0 || not (lib.is_positive rate)
      then lib.zero_cost
      else lib.per_million_of tokens rate

  unfoldable pub cost_usd_with_match :
      List (AccountingPrice lib) → Bytes → Bytes → UsageBreakdown → lib.Float × Bool
  unfolding match_price per_million
  cost_usd_with_match items provider model u = elim (match_price items provider model) [
    | none ↦ (lib.zero_cost, false)
    | some p ↦ (
      lib.plus
          (lib.plus
            (lib.plus (per_million u.input_tokens p.input_per_million)
              (per_million u.output_tokens p.output_per_million))
            (per_million u.cached_input_write_tokens p.cache_create_per_million))
          (per_million u.cached_input_read_tokens p.cache_read_per_million),
      true,
    )
  ]

  -- The built-in prices come first, so that the configured ones are found before them.
  unfoldable pub new_price_calculator :
      List (AccountingPrice lib) → List (AccountingPrice lib) → List (AccountingPrice lib)
  new_price_calculator built_in items = built_in ++ items
