-- ===== src/Config/Resources.antt =====
-- internal/config/resources.go: edits of single entries of a configuration. The slices are values:
-- that an edit writes into the array of its argument is left out, and so is the digest of the rules.
pub mod Move
use syrogo.Base.{
  ℕ, suc, ◌+◌, ◌-◌, String, Bool, true, false, not, ◌&&◌, ◌||◌, List, [], ◌∷◌, ◌++◌, Option, none,
  some, map, if◌then◌else◌, ◌==◌, nat_eq, text_eq, is_empty, ltb, leb, length, take, drop,
}
use syrogo.Base.Int.{ℤ, pos, negsuc}
use syrogo.Router.Compile.{RoutingRule, OutboundSpec}
use syrogo.Config.Checks.{Message, plain, with_text, with_number}
use syrogo.Config.Schema.{Config, ClientSpec, ClientBindingSpec, InboundSpec, OutboundConfig}

abbrev pub redacted_value : String
redacted_value = "<redacted>"

-- The configuration of an edit, or its error; the configuration that comes with an error is the old one.
pub data Edited : Type 0 where
  edited : Config → Edited
  refused : Message → Edited

pub record ResolvedClientBinding : Type 0 where
  pub client : ClientSpec
  pub binding : ClientBindingSpec

pub record InboundClientBinding : Type 0 where
  pub inbound : InboundSpec
  pub binding : ClientBindingSpec

-- The loops that the edits of clients, bindings, outbounds and rules share, by the name of an entry.
module _ {A : Type 0} (name_of : A → String) where
  unfoldable pub find_by : String → List A → Option A
  find_by name [] = none
  find_by name (x ∷ xs) = if name_of x == name then some x else find_by name xs

  unfoldable pub upsert_by : A → List A → List A
  upsert_by next [] = next ∷ []
  upsert_by next (x ∷ xs) = if name_of x == name_of next then next ∷ xs else x ∷ upsert_by next xs

  unfoldable pub delete_by : String → List A → List A
  delete_by name [] = []
  delete_by name (x ∷ xs) =
      if not (name_of x == name) then x ∷ delete_by name xs else delete_by name xs

abbrev redact_value : String → String
redact_value value = if is_empty value then "" else redacted_value

unfoldable pub redacted_config : Config → Config
redacted_config c = record c {
  admin = record c.admin { token = redact_value c.admin.token };
  accounting = record c.accounting { admin_token = redact_value c.accounting.admin_token };
  clients = map (λ (x : ClientSpec). record x { token = redact_value x.token }) c.clients;
  outbounds =
      map (λ (x : OutboundConfig). record x { auth_token = redact_value x.auth_token }) c.outbounds;
}

abbrev pub preserve_secret : String → String → String
preserve_secret next current = if is_empty next || next == redacted_value then current else next

unfoldable pub find_client : Config → String → Option ClientSpec
unfolding find_by
find_client c name = find_by (λ (x : ClientSpec). x.name) name c.clients

unfoldable pub upsert_client : Config → ClientSpec → Config
unfolding upsert_by
upsert_client c next = record c { clients = upsert_by (λ (x : ClientSpec). x.name) next c.clients }

unfoldable pub delete_client : Config → String → Config
unfolding delete_by
delete_client c name = record c { clients = delete_by (λ (x : ClientSpec). x.name) name c.clients }

abbrev inbound_missing : String → Message
inbound_missing name = with_text (plain "inbound %q not found") name

-- The binding, `false`, or the error that there is no such inbound.
pub data FoundBinding : Type 0 where
  binding_found : ClientBindingSpec → FoundBinding
  binding_absent : FoundBinding
  inbound_absent : Message → FoundBinding

unfoldable pub find_binding : String → String → List InboundSpec → FoundBinding
unfolding find_by
find_binding name ref [] = inbound_absent (inbound_missing name)
find_binding name ref (i ∷ inbounds) =
    let rest = find_binding name ref inbounds in
    if i.name == name
    then elim (find_by (λ (b : ClientBindingSpec). b.ref) ref i.clients) [
      | none ↦ binding_absent
      | some b ↦ binding_found b
    ]
    else rest

-- The change of the bindings of the first inbound of a name, where there is one.
unfoldable pub edit_inbound :
    String
    → (List ClientBindingSpec → List ClientBindingSpec)
    → List InboundSpec
    → Option (List InboundSpec)
edit_inbound name change [] = none
edit_inbound name change (i ∷ inbounds) =
    let rest = edit_inbound name change inbounds in
    if i.name == name
    then some (record i { clients = change i.clients } ∷ inbounds)
    else elim rest [ none ↦ none | some later ↦ some (i ∷ later) ]

abbrev with_inbounds : Config → String → Option (List InboundSpec) → Edited
with_inbounds c name none = refused (inbound_missing name)
with_inbounds c name (some inbounds) = edited (record c { inbounds = inbounds })

unfoldable pub upsert_binding : Config → String → ClientBindingSpec → Edited
unfolding edit_inbound upsert_by
upsert_binding c name next =
    with_inbounds c name
      (edit_inbound name (upsert_by (λ (b : ClientBindingSpec). b.ref) next) c.inbounds)

unfoldable pub delete_binding : Config → String → String → Edited
unfolding edit_inbound delete_by
delete_binding c name ref =
    with_inbounds c name
      (edit_inbound name (delete_by (λ (b : ClientBindingSpec). b.ref) ref) c.inbounds)

unfoldable pub upsert_outbound : Config → OutboundConfig → Config
unfolding upsert_by
upsert_outbound c next = record c {
  outbounds = upsert_by (λ (o : OutboundConfig). o.name) next c.outbounds;
}

unfoldable pub delete_outbound : Config → String → Config
unfolding delete_by
delete_outbound c name = record c {
  outbounds = delete_by (λ (o : OutboundConfig). o.name) name c.outbounds;
}

unfoldable pub upsert_route : Config → RoutingRule → Config
unfolding upsert_by
upsert_route c next = record c { rules = upsert_by (λ (r : RoutingRule). r.name) next c.rules }

unfoldable pub delete_route : Config → String → Config
unfolding delete_by
delete_route c name = record c { rules = delete_by (λ (r : RoutingRule). r.name) name c.rules }

unfoldable pub set_outbound_enabled : Config → String → Bool → Edited
set_outbound_enabled c name enabled = elim (change c.outbounds) [
  | none ↦ refused (with_text (plain "outbound %q not found") name)
  | some outbounds ↦ edited (record c { outbounds = outbounds })
]
  where
    change : List OutboundConfig → Option (List OutboundConfig)
    change [] = none
    change (o ∷ outbounds) =
        let rest = change outbounds in
        if o.name == name
        then some (record o { spec = record o.spec { enabled = some enabled } } ∷ outbounds)
        else elim rest [ none ↦ none | some later ↦ some (o ∷ later) ]

abbrev pub outbound_enabled : OutboundConfig → Bool
outbound_enabled o = elim o.enabled [ none ↦ true | some b ↦ b ]

unfoldable pub client_bindings : List InboundSpec → String → List InboundClientBinding
client_bindings [] name = []
client_bindings (i ∷ inbounds) name = bound i.clients ++ client_bindings inbounds name
  where
    bound : List ClientBindingSpec → List InboundClientBinding
    bound [] = []
    bound (b ∷ bindings) =
        if b.ref == name
        then record { inbound = i; binding = b } ∷ bound bindings
        else bound bindings

unfoldable pub resolve_inbound_clients :
    Config → List ClientBindingSpec → List ResolvedClientBinding
unfolding find_client
resolve_inbound_clients c [] = []
resolve_inbound_clients c (b ∷ bindings) = elim (find_client c b.ref) [
  | none ↦ resolve_inbound_clients c bindings
  | some x ↦ record { client = x; binding = b } ∷ resolve_inbound_clients c bindings
]

module _ {A : Type 0} where
  -- `xs[start:end]`, and `copy` of the entries `ys` to `xs[at:]`.
  abbrev pub slice : ℕ → ℕ → List A → List A
  slice start end xs = take (end - start) (drop start xs)

  abbrev pub copy_to : ℕ → List A → List A → List A
  copy_to at ys xs = take at xs ++ (ys ++ drop (at + length ys) xs)

  -- The entry at `from` moves to `to`: the entries between make room, and it is written to its place.
  unfoldable pub move_entry : ℕ → ℕ → List A → List A
  move_entry from to rules = copy_to to (slice from (from + 1) rules) (
      if ltb from to
      then copy_to from (slice (from + 1) (to + 1) rules) rules
      else copy_to (to + 1) (slice to from rules) rules)

abbrev pub in_bounds : ℤ → ℕ → Bool
in_bounds (pos i) n = ltb i n
in_bounds (negsuc i) n = false

abbrev index_of : ℤ → ℕ
index_of (pos i) = i
index_of (negsuc i) = 0

abbrev same_index : ℤ → ℤ → Bool
same_index (pos i) (pos j) = i == j
same_index (negsuc i) (negsuc j) = i == j
same_index i j = false

-- The texts of the errors without their numbers.
unfoldable pub move_route : Config → ℤ → ℤ → Edited
unfolding move_entry
move_route c from_index to_index =
    if not (in_bounds from_index (length c.rules))
    then refused (plain "from_index %d is out of bounds")
    else if not (in_bounds to_index (length c.rules))
    then refused (plain "to_index %d is out of bounds")
    else if same_index from_index to_index
    then refused (plain "from_index and to_index must differ")
    else edited (record c { rules = move_entry (index_of from_index) (index_of to_index) c.rules })
