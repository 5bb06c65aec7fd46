-- ===== src/Generate/Tests.antt =====
-- Runs of tools/generate_types/main.go on a small specification.
use mathlib.Core.List.{Permᴰ}
use gokalshi.Base.{
  ◌≡◌, refl, false, some, List, [], ◌∷◌, Text, codes, text_eqb, contains, text_eq, Map, lookup,
  split, push_front, has_prefix, to_upper,
}
use gokalshi.Generate.Schema.{Info, Schema, schema, no_properties, property, nil, to, no_schemas}
use gokalshi.Generate.Naming.{
  concat_map, go_word, to_go_field_name, enum_const_name, clean_description, trim_space, drop_while,
  first_line, collapse,
}
use gokalshi.Generate.Resolve.{
  resolve_go_type, resolve_go_type_inner, lookup_field, wants_pointer, plain_type,
}
use gokalshi.Generate.Emit.{Snapshot, generate_types}
use gokalshi.Generate.Determined.{generate_types-Permᴰ}
use gokalshi.Generate.Groups.{keys, group_name_from_path, section_name, join_words}
use gokalshi.Generate.Topological.{topological_sort}
use gokalshi.Generate.Order.{Distinct}
use gokalshi.Generate.Sorted.{topological_sort-ends}

abbrev info : Text → Text → Info
info kind ref = record {
  kind = kind;
  format = [];
  description = [];
  enum = [];
  required = [];
  ref = ref;
  nullable = false;
  deprecated = false;
}

abbrev string_schema : Schema
string_schema = schema (info (codes "string") []) no_properties nil no_schemas nil

abbrev ref_schema : Text → Schema
ref_schema ref = schema (info [] ref) no_properties nil no_schemas nil

-- An order with a list of fills, and a fill.
abbrev order_schema : Schema
order_schema =
    schema (info (codes "object") [])
      (property (codes "fills")
        (schema (info (codes "array") []) no_properties
          (to (ref_schema (codes "#/components/schemas/Fill"))) no_schemas nil)
        no_properties)
      nil no_schemas nil

abbrev schemas : Map Text Schema
schemas = (codes "AOrder", order_schema) ∷ (codes "Fill", string_schema) ∷ []

abbrev names : List Text
names = codes "AOrder" ∷ codes "Fill" ∷ []

naming_tests :
    (to_go_field_name (codes "order_id") ≡ codes "OrderID")
    × (enum_const_name (codes "Status") (codes "in-review") ≡ codes "StatusInReview")
    × (clean_description (codes " # A  title ") ≡ codes "A title")
    × (group_name_from_path (codes "/portfolio/events/orders") ≡ codes "Event Orders")
    × (group_name_from_path (codes "/new_part") ≡ codes "New Part")
unfolding to_go_field_name enum_const_name concat_map go_word split push_front to_upper text_eqb
    clean_description trim_space drop_while first_line collapse group_name_from_path section_name
    join_words lookup
naming_tests = (refl, refl, refl, refl, refl)

resolve_tests :
    (resolve_go_type_inner order_schema ≡ codes "map[string]any")
    × (resolve_go_type
          (codes "CreateOrderV2Request")
          (codes "exchange_index")
          (schema (info (codes "integer") []) no_properties nil no_schemas nil)
        ≡ codes "*int")
    × (resolve_go_type (codes "Order") (codes "side") string_schema ≡ codes "Side")
unfolding resolve_go_type resolve_go_type_inner lookup_field wants_pointer plain_type text_eqb
    has_prefix
resolve_tests = (refl, refl, refl)

topological_sort-ends_example :
    (sorted : List Text) × (topological_sort names schemas ≡ some sorted)
    × Distinct sorted
    × ((x : Text) → contains x sorted ≡ contains x names)
topological_sort-ends_example = topological_sort-ends names schemas

abbrev snapshot : Snapshot
snapshot = record {
  fetched_at = codes "2026-01-01";
  openapi_url = codes "u";
  openapi_version = codes "3";
  openapi_sha256 = codes "h";
  asyncapi_url = [];
  asyncapi_info_version = [];
  asyncapi_sha256 = [];
}

generate_types-Permᴰ_example :
    generate_types (record { schemas = schemas; paths = [] }) snapshot
    ≡ generate_types
        (record {
          schemas = (codes "Fill", string_schema) ∷ (codes "AOrder", order_schema) ∷ [];
          paths = [];
        })
        snapshot
unfolding keys text_eqb
generate_types-Permᴰ_example =
    generate_types-Permᴰ schemas
      ((codes "Fill", string_schema) ∷ (codes "AOrder", order_schema) ∷ []) [] snapshot
      (refl, (refl, tt)) (Permᴰ.swap refl refl)
