-- ===== src/WsTypes/Tests.antt =====
-- Runs of tools/generate_ws_types/main.go on small inputs.
use gokalshi.Base.{
  ◌≡◌, refl, true, false, arith, none, some, List, [], ◌∷◌, Text, codes, text_eq, text_eqb,
  contains, lookup, insert, put, split, push_front, to_upper,
}
use gokalshi.Generate.Schema.{
  Info, Schema, schema, no_properties, property, nil, to, no_schemas, ref_to_name,
}
use gokalshi.Generate.Naming.{sort_texts, insert_text, text_ltb, concat_map}
use gokalshi.Generate.Resolve.{info_of, lookup_field}
use gokalshi.Generate.Emit.{property_map}
use gokalshi.WsTypes.Collect.{
  AsyncApiSpec, to_go_identifier, identifier_from, ws_field_name, ws_word, properties_of,
  merged_params, resolve_payload_schema,
}
use gokalshi.WsTypes.Messages.{
  collect_data_messages, note_channels, note_refs, note_message, note_schema_of, data_msgs,
  struct_name_of,
}
use gokalshi.WsTypes.Resolve.{
  resolve_type, resolve_inner, step_type, ref_type, kind_type, item_type, other_item_type,
}
use gokalshi.WsTypes.Fuel.{resolve_type-ends}
use gokalshi.WsTypes.Depth.{depth, depth-IsRanked}
use gokalshi.WsTypes.Merge.{merged_params-fields}

abbrev info : Text → Text → List Text → Info
info kind ref required = record {
  kind = kind;
  format = [];
  description = [];
  enum = [];
  required = required;
  ref = ref;
  nullable = false;
  deprecated = false;
}

abbrev text_schema : Schema
text_schema = schema (info (codes "string") [] []) no_properties nil no_schemas nil

abbrev int_schema : Schema
int_schema = schema (info (codes "integer") [] []) no_properties nil no_schemas nil

-- Levels of an order book: a list of lists of texts.
abbrev levels : Schema
levels =
    schema (info (codes "array") [] []) no_properties
      (to (schema (info (codes "array") [] []) no_properties (to text_schema) no_schemas nil))
      no_schemas nil

abbrev regular : Schema
regular =
    schema (info (codes "object") [] (codes "sid" ∷ []))
      (property (codes "sid") int_schema no_properties) nil no_schemas nil

abbrev cfb : Schema
cfb =
    schema (info (codes "object") [] (codes "index" ∷ []))
      (property (codes "sid") text_schema (property (codes "index") text_schema no_properties)) nil
      no_schemas nil

naming_tests :
    (ws_field_name (codes "sids") ≡ codes "SIDs")
    × (ws_field_name (codes "sid") ≡ codes "SID")
    × (to_go_identifier (codes "Too many requests") ≡ codes "TooManyRequests")
unfolding ws_field_name ws_word concat_map split push_front to_upper text_eqb to_go_identifier
    identifier_from lookup
naming_tests = (refl, refl, refl)

resolve_type_test :
    resolve_type [] 3 (codes "OrderbookSnapshotData") (codes "yes") levels
    ≡ some (codes "[][]string")
unfolding resolve_type resolve_inner step_type ref_type kind_type item_type other_item_type
    lookup_field text_eqb property_map
resolve_type_test = refl

-- One message on two channels.
abbrev spec : AsyncApiSpec
spec = record {
  channels =
      (codes "trades", record { address = codes "z"; message_refs = codes "#/trade" ∷ [] })
      ∷ (codes "root", record { address = []; message_refs = codes "#/trade" ∷ [] })
      ∷ (codes "a", record { address = []; message_refs = codes "#/trade" ∷ [] })
      ∷ [];
  messages = (codes "trade", record { message_name = codes "trade"; payload = none }) ∷ [];
  schemas = [];
  error_codes = [];
}

collect_data_messages_test :
    collect_data_messages spec
    ≡ record {
      name = codes "trade";
      struct_name = codes "TradeData";
      msg_schema = none;
      on_channels = codes "a" ∷ codes "z" ∷ [];
    }
      ∷ []
unfolding collect_data_messages note_channels note_refs note_message note_schema_of
    resolve_payload_schema data_msgs struct_name_of insert lookup put text_eqb ref_to_name split
    push_front sort_texts insert_text text_ltb
collect_data_messages_test = refl

merged_params-fields_example :
    (lookup (codes "sid") (properties_of (merged_params regular cfb)) ≡ some int_schema)
    × (contains (codes "sid") (info_of (merged_params regular cfb)).required ≡ true)
unfolding lookup text_eqb property_map
merged_params-fields_example = merged_params-fields regular cfb (codes "sid")

resolve_type-ends_test :
    (t : Text) × (resolve_type [] 4 (codes "OrderbookSnapshotData") (codes "yes") levels ≡ some t)
unfolding depth
resolve_type-ends_test =
    resolve_type-ends [] depth 4 (codes "OrderbookSnapshotData") (codes "yes") levels depth-IsRanked
      (omega arith)
