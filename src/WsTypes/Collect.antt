-- ===== src/WsTypes/Collect.antt =====
-- The parsed specification of tools/generate_ws_types/main.go, its names, and the schemas of the
-- commands and responses.
use gokalshi.Base.{
  ℕ, Bool, true, false, ◌&&◌, ◌||◌, Option, none, some, List, [], ◌∷◌, ◌++◌, if◌then◌else◌,
  is_empty, leb, Text, codes, text_eq, contains, to_upper, split, Map, lookup, insert,
}
use gokalshi.Generate.Schema.{
  Schema, schema, Properties, no_properties, property, nil, to, no_schemas, and_schema, ref_to_name,
  union,
}
use gokalshi.Generate.Naming.{sort_texts, capitalized, abbreviations, concat_map}
use gokalshi.Generate.Resolve.{info_of}
use gokalshi.Generate.Groups.{is_present}
use gokalshi.Generate.Emit.{property_map}
use gokalshi.WsTypes.Tables.{go_field_name_overrides}

-- A channel has the references of its messages, in the order of the range.
pub record Channel : Type 0 where
  pub address : Text
  pub message_refs : List Text

pub record Message : Type 0 where
  pub message_name : Text
  pub payload : Option Schema

pub record ErrorCode : Type 0 where
  pub error_code : ℕ
  pub error_name : Text

pub record AsyncApiSpec : Type 0 where
  pub channels : Map Text Channel
  pub messages : Map Text Message
  pub schemas : Map Text Schema
  pub error_codes : List ErrorCode

pub record DataMsg : Type 0 where
  pub name : Text
  pub struct_name : Text
  pub msg_schema : Option Schema
  pub on_channels : List Text

unfoldable pub ws_word : Text → Text
ws_word part =
    if contains (to_upper part) (codes "SID" ∷ abbreviations)
    then to_upper part
    else capitalized part

-- `toGoFieldName` of this tool.
unfoldable pub ws_field_name : Text → Text
unfolding ws_word concat_map lookup
ws_field_name s = elim (lookup s go_field_name_overrides) [
  | some override ↦ override
  | none ↦ concat_map ws_word (split b'_' s)
]

abbrev pub is_alphanumeric : ℕ → Bool
is_alphanumeric c =
    (leb b'a' c && leb c b'z') || (leb b'A' c && leb c b'Z') || (leb b'0' c && leb c b'9')

-- `up` tells whether the next letter goes to upper case.
unfoldable pub identifier_from : Bool → Text → Text
identifier_from up [] = []
identifier_from up (c ∷ s) =
    let inside = identifier_from false s in
    let outside = identifier_from true s in
    if is_alphanumeric c then (if up then to_upper (c ∷ []) ++ inside else c ∷ inside) else outside

unfoldable pub to_go_identifier : Text → Text
unfolding identifier_from
to_go_identifier s = identifier_from true s

abbrev pub properties_of : Schema → Map Text Schema
properties_of (schema info props items all_of additional) = property_map props

abbrev pub items_of : Schema → Option Schema
items_of (schema info props nil all_of additional) = none
items_of (schema info props (to item) all_of additional) = some item

abbrev pub all_of_is_empty : Schema → Bool
all_of_is_empty (schema info props items no_schemas additional) = true
all_of_is_empty (schema info props items (and_schema s rest) additional) = false

unfoldable pub resolve_payload_schema : Message → Map Text Schema → Option Schema
unfolding lookup ref_to_name
resolve_payload_schema msg schemas = elim msg.payload [
  | none ↦ none
  | some p ↦
      if is_empty (info_of p).ref then some p else lookup (ref_to_name (info_of p).ref) schemas
]

-- A schema, or the one that it refers to if there is one.
unfoldable pub dereferenced : Map Text Schema → Schema → Schema
unfolding lookup ref_to_name
dereferenced schemas s =
    if is_empty (info_of s).ref
    then s
    else (elim (lookup (ref_to_name (info_of s).ref) schemas) [ none ↦ s | some found ↦ found ])

-- A property of a schema.
unfoldable pub field_schema : Text → Schema → Map Text Schema → Option Schema
unfolding lookup dereferenced
field_schema field payload schemas = elim (lookup field (properties_of payload)) [
  | none ↦ none
  | some s ↦ some (dereferenced schemas s)
]

unfoldable pub extract_msg_from_payload : Schema → Map Text Schema → Option Schema
unfolding field_schema
extract_msg_from_payload payload schemas =
    if all_of_is_empty payload then field_schema (codes "msg") payload schemas else none

unfoldable pub extract_field : Text → Map Text Schema → Text → Option Schema
unfolding field_schema lookup
extract_field field schemas payload_name = elim (lookup payload_name schemas) [
  | none ↦ none
  | some payload ↦ field_schema field payload schemas
]

unfoldable pub extract_params_schema : Map Text Schema → Text → Option Schema
unfolding extract_field
extract_params_schema schemas payload_name = extract_field (codes "params") schemas payload_name

unfoldable pub extract_msg_schema : Map Text Schema → Text → Option Schema
unfolding extract_field
extract_msg_schema schemas payload_name = extract_field (codes "msg") schemas payload_name

abbrev pub from_map : Map Text Schema → Properties
from_map [] = no_properties
from_map ((name, s) ∷ m) = property name s (from_map m)

-- The entries of the second map whose keys the first does not have are added to it.
unfoldable pub add_missing : Map Text Schema → Map Text Schema → Map Text Schema
unfolding lookup insert
add_missing m [] = m
add_missing m ((k, v) ∷ more) =
    add_missing (if is_present (lookup k m) then m else insert k v m) more

unfoldable pub merged_params : Schema → Schema → Schema
unfolding add_missing union sort_texts
merged_params regular cfb =
    schema
      (record {
        kind = (info_of regular).kind;
        format = [];
        description = [];
        enum = [];
        required = sort_texts (union (info_of cfb).required (union (info_of regular).required []));
        ref = [];
        nullable = false;
        deprecated = false;
      })
      (from_map (add_missing (properties_of regular) (properties_of cfb))) nil no_schemas nil

abbrev pub merge_params : Option Schema → Option Schema → Option Schema
merge_params none cfb = cfb
merge_params (some regular) none = some regular
merge_params (some regular) (some cfb) = some (merged_params regular cfb)

unfoldable pub merge_update_sub_params : Map Text Schema → Option Schema
unfolding extract_params_schema merged_params
merge_update_sub_params schemas =
    merge_params (extract_params_schema schemas (codes "updateSubscriptionCommandPayload"))
      (extract_params_schema schemas (codes "cfbenchmarksUpdateSubscriptionCommandPayload"))
