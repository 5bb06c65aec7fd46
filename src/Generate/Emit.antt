-- ===== src/Generate/Emit.antt =====
-- The file of Go types: `generateObjects` of tools/generate_types/main.go, and `generateEnums`,
-- which is kept there though it is not called. The header takes a snapshot of specsrc.go.
-- `go/format` is not applied.
use gokalshi.Base.{
  ℕ, Bool, true, false, ◌&&◌, not, Option, none, some, List, [], ◌∷◌, ◌++◌, if◌then◌else◌, is_empty,
  ltb, ◌==◌, Text, codes, text_eq, contains, length, Map, lookup,
}
use gokalshi.Generate.Schema.{
  Schema, schema, Info, Properties, no_properties, property, Pointer, nil, to,
}
use gokalshi.Generate.Naming.{text_ltb, clean_description, to_go_field_name, enum_const_name}
use gokalshi.Generate.Resolve.{info_of, resolve_go_type, resolve_go_type_inner}
use gokalshi.Generate.Topological.{topological_sort}
use gokalshi.Generate.Groups.{Spec, sorted_keys, categorize, build_schema_groups}

pub data Kind : Type 0 where
  openapi asyncapi : Kind

pub record Snapshot : Type 0 where
  pub fetched_at : Text
  pub openapi_url : Text
  pub openapi_version : Text
  pub openapi_sha256 : Text
  pub asyncapi_url : Text
  pub asyncapi_info_version : Text
  pub asyncapi_sha256 : Text

unfoldable pub provenance : Snapshot → Kind → Text × Text × Text
provenance snap asyncapi = (snap.asyncapi_url, snap.asyncapi_info_version, snap.asyncapi_sha256)
provenance snap openapi = (snap.openapi_url, snap.openapi_version, snap.openapi_sha256)

abbrev pub newline : Text
newline = 10 ∷ []

abbrev pub tab : Text
tab = 9 ∷ []

-- The dash of the first line is a UTF-8 em dash.
unfoldable pub file_header : Snapshot → Text
unfolding provenance
file_header snap =
    let (url, version, sha) = provenance snap openapi in
    codes "// Code generated by tools/generate_types "
    ++ (226 ∷ 128 ∷ 148 ∷ [])
    ++ codes " DO NOT EDIT."
    ++ newline
    ++ codes "// Spec: "
    ++ url
    ++ codes " (version "
    ++ version
    ++ codes ", fetched "
    ++ snap.fetched_at
    ++ codes ")"
    ++ newline
    ++ codes "// sha256: "
    ++ sha
    ++ newline
    ++ newline

-- A comment of one line, if there is a description.
unfoldable pub described : Text → Text → Text
unfolding clean_description
described name description =
    if is_empty description
    then []
    else codes "// " ++ name ++ codes " " ++ clean_description description ++ newline

abbrev take : ℕ → Text → Text
take ℕ.zero s = []
take (ℕ.suc n) [] = []
take (ℕ.suc n) (c ∷ s) = c ∷ take n s

abbrev pub shortened : Text → Text
shortened desc = if ltb 100 (length desc) then take 97 desc ++ codes "..." else desc

unfoldable pub emit_field : Text → List Text → Text → Schema → Text
unfolding clean_description resolve_go_type to_go_field_name
emit_field name required prop_name prop =
    let info = info_of prop in
    let tag = if contains prop_name required then prop_name else prop_name ++ codes ",omitempty" in
    (if is_empty info.description
      then []
      else tab ++ codes "// " ++ shortened (clean_description info.description) ++ newline)
    ++ (if info.deprecated then tab ++ codes "// Deprecated." ++ newline else [])
    ++ tab
    ++ to_go_field_name prop_name
    ++ codes " "
    ++ resolve_go_type name prop_name prop
    ++ codes " `json:\""
    ++ tag
    ++ codes "\"`"
    ++ newline

-- The properties as a map.
unfoldable pub property_map : Properties → Map Text Schema
property_map no_properties = []
property_map (property name prop rest) = (name, prop) ∷ property_map rest

unfoldable pub emit_fields : Text → List Text → Map Text Schema → List Text → Text
unfolding emit_field lookup
emit_fields name required props [] = []
emit_fields name required props (p ∷ ps) =
    (elim (lookup p props) [ none ↦ [] | some prop ↦ emit_field name required p prop ])
    ++ emit_fields name required props ps

unfoldable pub emit_struct : Text → Info → Map Text Schema → Text
unfolding clean_description emit_fields sorted_keys
emit_struct name info props =
    (if is_empty info.description
      then codes "// "
        ++ name
        ++ codes " is a generated type from the Kalshi OpenAPI spec."
        ++ newline
      else codes "// " ++ name ++ codes " " ++ clean_description info.description ++ newline)
    ++ codes "type "
    ++ name
    ++ codes " struct {"
    ++ newline
    ++ emit_fields name info.required props (sorted_keys props)
    ++ codes "}"
    ++ newline
    ++ newline

abbrev pub is_to : Pointer → Bool
is_to nil = false
is_to (to s) = true

unfoldable pub emit_alias : Text → Info → Text → Text
unfolding described
emit_alias name info go_type =
    described name info.description
    ++ codes "type "
    ++ name
    ++ codes " = "
    ++ go_type
    ++ newline
    ++ newline

-- `resolve_go_type_inner` of the items; there are some where it is used.
unfoldable pub item_type : Pointer → Text
unfolding resolve_go_type_inner
item_type nil = []
item_type (to s) = resolve_go_type_inner s

unfoldable pub emit_type : Text → Schema → Text
unfolding emit_alias emit_struct property_map resolve_go_type_inner item_type
emit_type name (schema info props items all_of additional) =
    if info.kind == codes "array" && is_to items
    then emit_alias name info (codes "[]" ++ item_type items)
    else if is_empty (property_map props)
        && not (is_empty info.kind)
        && not (info.kind == codes "object")
    then emit_alias name info (resolve_go_type_inner (schema info props items all_of additional))
    else emit_struct name info (property_map props)

unfoldable pub group_of : Map Text Text → Text → Text
unfolding lookup
group_of groups name = elim (lookup name groups) [ some g ↦ g | none ↦ codes "Core" ]

unfoldable pub insert_by : (Text → Text) → Text → List Text → List Text
unfolding text_ltb
insert_by group s [] = s ∷ []
insert_by group s (t ∷ ts) =
    let rest = insert_by group s ts in if text_ltb (group t) (group s) then t ∷ rest else s ∷ t ∷ ts

-- `sort.SliceStable` by the group.
unfoldable pub sort_by : (Text → Text) → List Text → List Text
unfolding insert_by
sort_by group [] = []
sort_by group (s ∷ ss) = insert_by group s (sort_by group ss)

abbrev pub rule : Text
rule =
    codes "// ---------------------------------------------------------------------------"
    ++ newline

unfoldable pub group_header : Text → Text → Text
group_header group current =
    if group == current then [] else rule ++ codes "// " ++ group ++ newline ++ rule ++ newline

unfoldable pub emit_types : (Text → Text) → Map Text Schema → Text → List Text → Text
unfolding emit_type group_header lookup
emit_types group schemas current [] = []
emit_types group schemas current (name ∷ names) =
    group_header (group name) current
    ++ (elim (lookup name schemas) [ none ↦ [] | some s ↦ emit_type name s ])
    ++ emit_types group schemas (group name) names

unfoldable pub generate_objects :
    List Text → Map Text Schema → Map Text Text → Snapshot → Option Text
unfolding topological_sort sort_by group_of emit_types file_header
generate_objects names schemas groups snap = elim (topological_sort names schemas) [
  | none ↦ none
  | some sorted ↦ some (
      file_header snap
      ++ codes "package gokalshi"
      ++ newline
      ++ newline
      ++ emit_types (group_of groups) schemas [] (sort_by (group_of groups) sorted))
]

-- From the parsed specification to the text of the file.
unfoldable pub generate_types : Spec → Snapshot → Option Text
unfolding generate_objects categorize build_schema_groups
generate_types spec snap =
    let (enums, objects) = categorize spec.schemas in
    generate_objects objects spec.schemas (build_schema_groups spec) snap

-- `quote` is the verb %q.
module _ (quote : Text → Text) where
  unfoldable pub emit_values : Text → List Text → Text
  unfolding enum_const_name
  emit_values name [] = []
  emit_values name (val ∷ vals) =
      tab
      ++ enum_const_name name val
      ++ codes " "
      ++ name
      ++ codes " = "
      ++ quote val
      ++ newline
      ++ emit_values name vals

  unfoldable pub emit_enum : Text → Info → Text
  unfolding described emit_values
  emit_enum name info =
      described name info.description
      ++ codes "type "
      ++ name
      ++ codes " string"
      ++ newline
      ++ newline
      ++ codes "const ("
      ++ newline
      ++ emit_values name info.enum
      ++ codes ")"
      ++ newline
      ++ newline

  unfoldable pub emit_enums : Map Text Schema → List Text → Text
  unfolding emit_enum lookup
  emit_enums schemas [] = []
  emit_enums schemas (name ∷ names) =
      (elim (lookup name schemas) [ none ↦ [] | some s ↦ emit_enum name (info_of s) ])
      ++ emit_enums schemas names

  unfoldable pub generate_enums : List Text → Map Text Schema → Snapshot → Text
  unfolding emit_enums file_header
  generate_enums names schemas snap =
      file_header snap ++ codes "package gokalshi" ++ newline ++ newline ++ emit_enums schemas names
