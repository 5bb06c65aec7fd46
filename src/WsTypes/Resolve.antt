-- ===== src/WsTypes/Resolve.antt =====
-- `resolveGoType` of tools/generate_ws_types/main.go. References are followed through the schemas, so the calls are
-- bounded by fuel; `none` says that it was spent.
use gokalshi.Base.{
  ℕ, zero, suc, Bool, ◌&&◌, not, Option, none, some, ◌∷◌, ◌++◌, if◌then◌else◌, is_empty, ◌==◌, Text,
  codes, text_eq, Map, lookup,
}
use gokalshi.Generate.Schema.{Schema, schema, nil, to, Schemas, no_schemas, and_schema, ref_to_name}
use gokalshi.Generate.Resolve.{info_of, lookup_field}
use gokalshi.WsTypes.Tables.{
  ref_type_overrides, ws_field_type_overrides, inline_sub_object_names, shared_schema_names,
}
use gokalshi.WsTypes.Collect.{properties_of, items_of}

-- The only schema of `allOf`, if it is one.
abbrev pub single : Schemas → Option Schema
single no_schemas = none
single (and_schema s no_schemas) = some s
single (and_schema s (and_schema t rest)) = none

abbrev pub wrapped : Schema → Option Schema
wrapped (schema info props items all_of additional) = single all_of

abbrev pub additional_of : Schema → Option Schema
additional_of (schema info props items all_of nil) = none
additional_of (schema info props items all_of (to s)) = some s

abbrev pub prefixed : Text → Option Text → Option Text
prefixed p none = none
prefixed p (some t) = some (p ++ t)

-- The steps of `resolveGoTypeInner`, with `via` for its own call on another schema.
module _ (via : Schema → Option Text) (schemas : Map Text Schema) (inline_name : Option Text) where
  unfoldable pub ref_type : Text → Option Text
  unfolding lookup
  ref_type ref_name = elim (lookup ref_name ref_type_overrides) [
    | some override ↦ some override
    | none ↦ elim (lookup ref_name shared_schema_names) [
      | some go_name ↦ some go_name
      | none ↦ elim (lookup ref_name schemas) [
        | some resolved ↦ via resolved
        | none ↦ some (codes "any")
      ]
    ]
  ]

  abbrev pub has_object : Schema → Bool
  has_object s = (info_of s).kind == codes "object" && not (is_empty (properties_of s))

  unfoldable pub other_item_type : Schema → Option Text
  other_item_type item =
      if (info_of item).kind == codes "array"
      then (elim (items_of item) [
        | some inner ↦ prefixed (codes "[][]") (via inner)
        | none ↦ some (codes "[][]any")
      ])
      else prefixed (codes "[]") (via item)

  unfoldable pub item_type : Schema → Option Text
  unfolding other_item_type
  item_type item =
      if has_object item
      then (elim inline_name [
        | some go_name ↦ some (codes "[]" ++ go_name)
        | none ↦ other_item_type item
      ])
      else other_item_type item

  unfoldable pub kind_type : Schema → Option Text
  unfolding item_type
  kind_type prop =
      if (info_of prop).kind == codes "string"
      then some (codes "string")
      else if (info_of prop).kind == codes "integer"
      then some (if (info_of prop).format == codes "int64" then codes "int64" else codes "int")
      else if (info_of prop).kind == codes "number"
      then some (codes "float64")
      else if (info_of prop).kind == codes "boolean"
      then some (codes "bool")
      else if (info_of prop).kind == codes "array"
      then (elim (items_of prop) [ some item ↦ item_type item | none ↦ some (codes "[]any") ])
      else if (info_of prop).kind == codes "object"
      then (elim (additional_of prop) [
        | some s ↦ prefixed (codes "map[string]") (via s)
        | none ↦ some (codes "map[string]any")
      ])
      else some (codes "any")

  unfoldable pub step_type : Schema → Option Text
  unfolding ref_type kind_type
  step_type prop = elim (wrapped prop) [
    | some inner ↦ via inner
    | none ↦
        if not (is_empty (info_of prop).ref)
        then ref_type (ref_to_name (info_of prop).ref)
        else if has_object prop
        then (elim inline_name [
          | some go_name ↦ some (b'*' ∷ go_name)
          | none ↦ some (codes "map[string]any")
        ])
        else kind_type prop
  ]

unfoldable pub resolve_inner : Map Text Schema → Option Text → ℕ → Schema → Option Text
unfolding step_type
resolve_inner schemas inline_name zero prop = none
resolve_inner schemas inline_name (suc fuel) prop =
    step_type (resolve_inner schemas inline_name fuel) schemas inline_name prop

unfoldable pub resolve_type : Map Text Schema → ℕ → Text → Text → Schema → Option Text
unfolding resolve_inner lookup_field
resolve_type schemas fuel struct_name field_name prop =
    elim (lookup_field struct_name field_name ws_field_type_overrides) [
      | some override ↦ some override
      | none ↦
          resolve_inner schemas (lookup_field struct_name field_name inline_sub_object_names) fuel
            prop
    ]
