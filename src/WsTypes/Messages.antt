-- ===== src/WsTypes/Messages.antt =====
-- What tools/generate_ws_types/main.go gathers: the data messages with their channels, and the
-- shared and nested types.
use gokalshi.Base.{
  ◌&&◌, not, Option, none, some, List, [], ◌∷◌, ◌++◌, if◌then◌else◌, is_empty, ◌==◌, Text, codes,
  text_eq, contains, put, Map, lookup, insert,
}
use gokalshi.Generate.Schema.{Schema, ref_to_name}
use gokalshi.Generate.Naming.{sort_texts}
use gokalshi.Generate.Resolve.{info_of, lookup_field}
use gokalshi.Generate.Groups.{is_present, flattened}
use gokalshi.WsTypes.Tables.{
  msg_type_to_struct_name, inline_sub_object_names, shared_schema_names, skip_channels,
}
use gokalshi.WsTypes.Collect.{
  Channel, Message, AsyncApiSpec, DataMsg, ws_field_name, properties_of, items_of,
  resolve_payload_schema, extract_msg_from_payload,
}

-- The two maps of `collectDataMessages`.
pub record Collected : Type 0 where
  pub msg_to_channels : Map Text (List Text)
  pub msg_schemas : Map Text (Option Schema)

abbrev pub channels_for : Text → Map Text (List Text) → List Text
channels_for ws_type m = elim (lookup ws_type m) [ none ↦ [] | some cs ↦ cs ]

unfoldable pub note_schema_of : Map Text Schema → Message → Collected → Collected
unfolding lookup insert resolve_payload_schema extract_msg_from_payload
note_schema_of schemas msg st =
    if is_present (lookup msg.message_name st.msg_schemas)
    then st
    else (elim (resolve_payload_schema msg schemas) [
      | none ↦ st
      | some payload ↦ record st {
        msg_schemas =
            insert msg.message_name (extract_msg_from_payload payload schemas) st.msg_schemas;
      }
    ])

unfoldable pub note_message : AsyncApiSpec → Text → Message → Collected → Collected
unfolding note_schema_of insert put lookup
note_message spec address msg st =
    if is_empty msg.message_name
    then st
    else note_schema_of spec.schemas msg (record st {
      msg_to_channels =
          insert msg.message_name (put address (channels_for msg.message_name st.msg_to_channels))
            st.msg_to_channels;
    })

unfoldable pub note_refs : AsyncApiSpec → Text → List Text → Collected → Collected
unfolding note_message lookup ref_to_name
note_refs spec address [] st = st
note_refs spec address (ref ∷ refs) st = note_refs spec address refs (
    if is_empty ref then st else (elim (lookup (ref_to_name ref) spec.messages) [
      | none ↦ st
      | some msg ↦ note_message spec address msg st
    ]))

unfoldable pub note_channels : AsyncApiSpec → Map Text Channel → Collected → Collected
unfolding note_refs
note_channels spec [] st = st
note_channels spec ((channel_key, def) ∷ rest) st = note_channels spec rest (
    if contains channel_key skip_channels
    then st
    else note_refs spec (if is_empty def.address then channel_key else def.address) def.message_refs
        st)

unfoldable pub struct_name_of : Text → Text
unfolding lookup ws_field_name
struct_name_of ws_type = elim (lookup ws_type msg_type_to_struct_name) [
  | some struct_name ↦ struct_name
  | none ↦ ws_field_name ws_type ++ codes "Data"
]

unfoldable pub data_msgs : Map Text (Option Schema) → Map Text (List Text) → List DataMsg
unfolding struct_name_of sort_texts lookup
data_msgs msg_schemas [] = []
data_msgs msg_schemas ((ws_type, cs) ∷ rest) =
    record {
      name = ws_type;
      struct_name = struct_name_of ws_type;
      msg_schema = flattened (lookup ws_type msg_schemas);
      on_channels = sort_texts cs;
    }
    ∷ data_msgs msg_schemas rest

-- The data messages; each has its channels sorted, as they are then in the second result of the tool.
unfoldable pub collect_data_messages : AsyncApiSpec → List DataMsg
unfolding note_channels data_msgs
collect_data_messages spec =
    let found =
      note_channels spec spec.channels (record { msg_to_channels = []; msg_schemas = [] }) in
    data_msgs found.msg_schemas found.msg_to_channels

unfoldable pub collect_shared : Map Text Text → Map Text Schema → Map Text Schema
unfolding lookup
collect_shared [] schemas = []
collect_shared ((name, go_name) ∷ names) schemas =
    let rest = collect_shared names schemas in
    elim (lookup name schemas) [ none ↦ rest | some s ↦ (name, s) ∷ rest ]

unfoldable pub collect_shared_schemas : Map Text Schema → Map Text Schema
unfolding collect_shared
collect_shared_schemas schemas = collect_shared shared_schema_names schemas

-- The nested object of a property, if it has one that is not a reference.
unfoldable pub inline_schema : Schema → Option Schema
inline_schema prop = elim (if (info_of prop).kind == codes "array" then items_of prop else none) [
  | some item ↦ if is_empty (info_of item).ref then some item else none
  | none ↦
      if (info_of prop).kind == codes "object" && not (is_empty (properties_of prop))
      then some prop
      else none
]

-- The nested types that were found, with the names that were seen.
unfoldable pub inline_subs :
    Text → Map Text Schema → List Text × Map Text Schema → List Text × Map Text Schema
unfolding inline_schema lookup_field
inline_subs struct_name [] st = st
inline_subs struct_name ((field, prop) ∷ props) (seen, found) =
    elim (lookup_field struct_name field inline_sub_object_names) [
      | none ↦ inline_subs struct_name props (seen, found)
      | some go_name ↦ inline_subs struct_name props (
          if contains go_name seen then (seen, found) else (elim (inline_schema prop) [
            | none ↦ (go_name ∷ seen, found)
            | some s ↦ (go_name ∷ seen, found ++ (go_name, s) ∷ [])
          ]))
    ]

unfoldable pub inline_subs_of :
    List DataMsg → List Text × Map Text Schema → List Text × Map Text Schema
unfolding inline_subs
inline_subs_of [] st = st
inline_subs_of (dm ∷ dms) st =
    inline_subs_of dms
      (elim dm.msg_schema [ none ↦ st | some s ↦ inline_subs dm.struct_name (properties_of s) st ])

unfoldable pub collect_inline_sub_objects : List DataMsg → Map Text Schema
unfolding inline_subs_of
collect_inline_sub_objects dms = (inline_subs_of dms ([], [])).1
