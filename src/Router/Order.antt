-- ===== src/Router/Order.antt =====
-- internal/router/router.go: the order of the outbounds under each strategy. The mutex makes each
-- reading of the round-robin position one step.
pub mod Fairness
pub mod Distinct
use syrogo.Base.{
  ℕ, suc, ◌+◌, ◌%◌, String, Bool, true, false, ◌||◌, List, [], ◌∷◌, ◌++◌, length, take, drop,
  if◌then◌else◌, ◌==◌, nat_eq, text_eq, Comparable, Option, none, some,
}
use syrogo.Base.Map.{Map, lookup, insert}

unfoldable pub rotate {ℓ} : {A : Type ℓ} → List A → ℕ → List A
rotate [] i = []
rotate (x ∷ xs) i =
    let values = x ∷ xs in
    let j = i % length values in if j == 0 then values else drop j values ++ take j values

abbrev pub contains {ℓ} : {A : Type ℓ} ⦃e : Comparable A⦄ → List A → A → Bool
contains [] a = false
contains (x ∷ xs) a = x == a || contains xs a

-- The loop of `dedupePreserveOrder`, with the values seen so far.
unfoldable pub dedupe_seen : List String → List String → List String
dedupe_seen seen [] = []
dedupe_seen seen (v ∷ values) = elim (contains seen v) [
  | true ↦ dedupe_seen seen values
  | false ↦ v ∷ dedupe_seen (v ∷ seen) values
]

unfoldable pub dedupe_preserve_order : List String → List String
unfolding dedupe_seen
dedupe_preserve_order values = dedupe_seen [] values

-- `r.roundRobin[key]`, which is 0 where the key is missing.
unfoldable pub position : String → Map String ℕ → ℕ
unfolding lookup
position key m = elim (lookup key m) [ none ↦ 0 | some i ↦ i ]

unfoldable pub next_round_robin_index : Map String ℕ → String → ℕ → ℕ × Map String ℕ
unfolding position insert
next_round_robin_index m key size =
    if size == 0
    then (0, m)
    else (position key m % size, insert key ((position key m % size + 1) % size) m)
