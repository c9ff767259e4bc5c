-- ===== src/Config/Entrances/Distinct.antt =====
-- What the checks of the clients establish.
use syrogo.Base.{
  ℕ, suc, String, ◌≡◌, refl, inl, inr, false, List, [], ◌∷◌, All, none, arith, Option-cases,
  text_eq, eq_iff, is_empty,
}
use syrogo.Base.Map.{Map, lookup, insert, lookup-insert}
use syrogo.Router.Order.{contains}
use syrogo.Router.Order.Distinct.{Distinct}
use syrogo.Config.Checks.{valid, >>-valid}
use syrogo.Config.Schema.{Parsers, ClientSpec}
use syrogo.Config.Entrances.{validate_client, validate_clients, client_names, token_owners}

unfoldable pub client_tokens : List ClientSpec → List String
client_tokens [] = []
client_tokens (c ∷ clients) = c.token ∷ client_tokens clients

-- None of them is in the list.
abbrev Fresh : List String → List String → Type 0
Fresh old xs = All (λ x. contains old x ≡ false) xs

Fresh-cons :
    (a : String) (old xs : List String)
    → Fresh (a ∷ old) xs
    → Fresh old xs × (contains xs a ≡ false)
Fresh-cons a old [] h = (tt, refl)
Fresh-cons a old (x ∷ xs) h =
    let rest = Fresh-cons a old xs h.1 in
    ((ground (arith, h.0), rest.0), ground (arith, h.0, rest.1, eq_iff a x, eq_iff x a))

-- None of them has an owner.
abbrev Free : Map String String → List String → Type 0
Free owners xs = All (λ x. lookup x owners ≡ none) xs

Free-insert :
    (a owner : String) (owners : Map String String) (xs : List String)
    → Free (insert a owner owners) xs
    → Free owners xs × (contains xs a ≡ false)
Free-insert a owner owners [] h = (tt, refl)
Free-insert a owner owners (x ∷ xs) h =
    let rest = Free-insert a owner owners xs h.1 in
    let found = lookup-insert a x owner owners in
    (
      (ground (arith, h.0, found), rest.0),
      ground (arith, h.0, found, rest.1, eq_iff a x, eq_iff x a),
    )

-- What a client that passes has.
record IsGood (names : List String) (tokens : Map String String) (c : ClientSpec) : Type 0 where
  pub named : is_empty c.name ≡ false
  pub has_token : is_empty c.token ≡ false
  pub new_name : contains names c.name ≡ false
  pub new_token : lookup c.token tokens ≡ none

validate_client-IsGood :
    (go : Parsers) (i : ℕ) (names : List String) (tokens : Map String String) (c : ClientSpec)
    → validate_client go i names tokens c ≡ valid
    → IsGood names tokens c
unfolding validate_client
validate_client-IsGood go i names tokens c h = elim (Option-cases (lookup c.token tokens)) [
  | inl free ↦ record {
    named = ground (arith, h);
    has_token = ground (arith, h);
    new_name = ground (arith, h);
    new_token = free;
  }
  | inr (owner, taken) ↦ ground (arith, h, taken)
]

-- The clients after those whose names and tokens are given.
pub record AreSeparate (names : List String) (tokens : Map String String)
    (clients : List ClientSpec) : Type 0 where
  pub fresh : Fresh names (client_names clients)
  pub free : Free tokens (client_tokens clients)
  pub distinct_names : Distinct (client_names clients)
  pub distinct_tokens : Distinct (client_tokens clients)
  pub not_empty : All (λ c. (is_empty c.name ≡ false) × (is_empty c.token ≡ false)) clients

pub validate_clients-AreSeparate :
    (go : Parsers) (i : ℕ) (names : List String) (tokens : Map String String)
    (clients : List ClientSpec)
    → validate_clients go i names tokens clients ≡ valid
    → AreSeparate names tokens clients
unfolding validate_clients client_names client_tokens
validate_clients-AreSeparate go i names tokens [] h = record {
  fresh = tt;
  free = tt;
  distinct_names = tt;
  distinct_tokens = tt;
  not_empty = tt;
}
validate_clients-AreSeparate go i names tokens (c ∷ clients) h =
    let both =
      >>-valid (validate_client go i names tokens c)
        (validate_clients go (suc i) (c.name ∷ names) (insert c.token c.name tokens) clients) h in
    let good = validate_client-IsGood go i names tokens c both.0 in
    let rest =
      validate_clients-AreSeparate go (suc i) (c.name ∷ names) (insert c.token c.name tokens)
        clients both.1 in
    let by_name = Fresh-cons c.name names (client_names clients) rest.fresh in
    let by_token = Free-insert c.token c.name tokens (client_tokens clients) rest.free in
    record {
      fresh = (good.new_name, by_name.0);
      free = (good.new_token, by_token.0);
      distinct_names = (by_name.1, rest.distinct_names);
      distinct_tokens = (by_token.1, rest.distinct_tokens);
      not_empty = ((good.named, good.has_token), rest.not_empty);
    }

-- A token without an owner is no client's.
pub token_owners-none :
    (token : String) (owners : Map String String) (clients : List ClientSpec)
    → lookup token (token_owners owners clients) ≡ none
    → (lookup token owners ≡ none) × (contains (client_tokens clients) token ≡ false)
unfolding token_owners client_tokens
token_owners-none token owners [] h = (h, refl)
token_owners-none token owners (c ∷ clients) h =
    let rest = token_owners-none token (insert c.token c.name owners) clients h in
    let found = lookup-insert c.token token c.name owners in
    (ground (arith, found, rest.0), ground (arith, found, rest.0, rest.1))
