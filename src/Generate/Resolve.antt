-- ===== src/Generate/Resolve.antt =====
-- The Go type of a property: `resolveGoType` of tools/generate_types/main.go with its tables.
use gokalshi.Base.{
  Bool, true, false, ◌&&◌, ◌||◌, not, Option, none, some, List, [], ◌∷◌, ◌++◌, if◌then◌else◌,
  is_empty, ◌==◌, Text, codes, text_eq, has_prefix, Map, lookup,
}
use gokalshi.Generate.Schema.{
  Info, Schema, schema, Pointer, nil, to, Schemas, no_schemas, and_schema, ref_to_name,
}
use gokalshi.Generate.Naming.{should_skip}

abbrev pub type_aliases : Map Text Text
type_aliases =
    (codes "FixedPointDollars", codes "string") ∷ (codes "FixedPointCount", codes "string") ∷ []

-- A table whose keys are a schema and a field.
abbrev pub FieldTable : Type 0
FieldTable = List (Text × Text × Text)

unfoldable pub lookup_field : Text → Text → FieldTable → Option Text
lookup_field schema_name field_name [] = none
lookup_field schema_name field_name ((s, f, value) ∷ table) =
    let rest = lookup_field schema_name field_name table in
    if s == schema_name && f == field_name then some value else rest

abbrev pub is_listed : Text → Text → FieldTable → Bool
is_listed schema_name field_name table = elim (lookup_field schema_name field_name table) [
  | none ↦ false
  | some t ↦ true
]

abbrev pub meaningful_zero_overrides : FieldTable
meaningful_zero_overrides =
    (codes "CreateOrderV2Request", codes "exchange_index", [])
    ∷ (codes "AmendOrderV2Request", codes "exchange_index", [])
    ∷ (codes "DecreaseOrderV2Request", codes "exchange_index", [])
    ∷ []

abbrev pub nullable_overrides : FieldTable
nullable_overrides =
    (codes "Series", codes "contract_url", [])
    ∷ (codes "Series", codes "contract_terms_url", [])
    ∷ []

abbrev pub field_type_overrides : FieldTable
field_type_overrides =
    (codes "CreateOrderRequest", codes "side", codes "Side")
    ∷ (codes "AmendOrderRequest", codes "side", codes "Side")
    ∷ (codes "Order", codes "side", codes "Side")
    ∷ (codes "Trade", codes "taker_side", codes "Side")
    ∷ (codes "Fill", codes "side", codes "Side")
    ∷ (codes "MveSelectedLeg", codes "side", codes "Side")
    ∷ (codes "CreateOrderRequest", codes "action", codes "Action")
    ∷ (codes "AmendOrderRequest", codes "action", codes "Action")
    ∷ (codes "Order", codes "action", codes "Action")
    ∷ (codes "Fill", codes "action", codes "Action")
    ∷ (codes "Order", codes "type", codes "OrderType")
    ∷ (codes "CreateOrderV2Request", codes "time_in_force", codes "TimeInForce")
    ∷ (codes "Market", codes "status", codes "MarketStatus")
    ∷ (codes "Market", codes "result", codes "MarketResult")
    ∷ (codes "Market", codes "market_type", codes "MarketType")
    ∷ (codes "Series", codes "fee_type", codes "FeeType")
    ∷ (codes "SeriesFeeChange", codes "fee_type", codes "FeeType")
    ∷ (codes "EventData", codes "collateral_return_type", codes "CollateralReturnType")
    ∷ (codes "AcceptQuoteRequest", codes "accepted_side", codes "Side")
    ∷ (codes "Quote", codes "accepted_side", codes "Side")
    ∷ []

unfoldable pub ref_type : Text → Text
unfolding lookup
ref_type name = elim (lookup name type_aliases) [
  | some alias ↦ alias
  | none ↦ if should_skip name then codes "any" else name
]

abbrev type_or_any : Option Text → Text
type_or_any none = codes "any"
type_or_any (some t) = t

-- Of a schema that is no wrapper, with the types of its items and of its additional properties.
unfoldable pub plain_type : Info → Option Text → Option Text → Text
unfolding ref_type
plain_type info item additional =
    if not (is_empty info.ref)
    then ref_type (ref_to_name info.ref)
    else if info.kind == codes "string"
    then codes "string"
    else if info.kind == codes "integer"
    then (if info.format == codes "int64" then codes "int64" else codes "int")
    else if info.kind == codes "number"
    then codes "float64"
    else if info.kind == codes "boolean"
    then codes "bool"
    else if info.kind == codes "array"
    then codes "[]" ++ type_or_any item
    else if info.kind == codes "object"
    then codes "map[string]" ++ type_or_any additional
    else codes "any"

-- The first type if no schema is left, else the second.
abbrev if_single : Schemas → Text → Text → Text
if_single no_schemas inner own = inner
if_single (and_schema s rest) inner own = own

unfoldable mutual
  unfolding plain_type

  pub resolve_go_type_inner : Schema → Text
  resolve_go_type_inner (schema info props items all_of additional) =
      unwrapped all_of (plain_type info (pointer_type items) (pointer_type additional))

  pub unwrapped : Schemas → Text → Text
  unwrapped no_schemas own = own
  unwrapped (and_schema inner rest) own = if_single rest (resolve_go_type_inner inner) own

  pub pointer_type : Pointer → Option Text
  pointer_type nil = none
  pointer_type (to s) = some (resolve_go_type_inner s)

abbrev pub info_of : Schema → Info
info_of (schema info props items all_of additional) = info

-- Whether a property is nullable by itself or by one of the tables.
unfoldable pub wants_pointer : Text → Text → Schema → Bool
unfolding lookup_field
wants_pointer schema_name field_name prop =
    (info_of prop).nullable
    || is_listed schema_name field_name nullable_overrides
    || is_listed schema_name field_name meaningful_zero_overrides

unfoldable pub resolve_go_type : Text → Text → Schema → Text
unfolding wants_pointer lookup_field resolve_go_type_inner
resolve_go_type schema_name field_name prop =
    let go_type = resolve_go_type_inner prop in
    let pointer = wants_pointer schema_name field_name prop in
    elim (lookup_field schema_name field_name field_type_overrides) [
      | some override ↦ if pointer then b'*' ∷ override else override
      | none ↦
          if pointer
            && not (has_prefix (codes "[]") go_type)
            && not (has_prefix (codes "map[") go_type)
          then b'*' ∷ go_type
          else go_type
    ]
