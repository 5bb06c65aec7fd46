-- ===== src/WsTypes/Write.antt =====
-- The structs of the file that tools/generate_ws_types/main.go writes, and the whole file.
-- `go/format` is not applied. `none` says that the fuel for the references was spent.
use gokalshi.Base.{
  ℕ, Option, none, some, List, [], ◌∷◌, ◌++◌, if◌then◌else◌, is_empty, nat_eq, Text, codes, text_eq,
  Map, lookup,
}
use gokalshi.Generate.Schema.{Schema}
use gokalshi.Generate.Naming.{clean_description}
use gokalshi.Generate.Resolve.{info_of}
use gokalshi.Generate.Groups.{sorted_keys}
use gokalshi.Generate.Emit.{Snapshot, newline}
use gokalshi.WsTypes.Tables.{shared_schema_names}
use gokalshi.WsTypes.Collect.{
  AsyncApiSpec, DataMsg, properties_of, extract_params_schema, extract_msg_schema,
  merge_update_sub_params,
}
use gokalshi.WsTypes.Messages.{
  collect_data_messages, collect_shared_schemas, collect_inline_sub_objects,
}
use gokalshi.WsTypes.Resolve.{resolve_type}
use gokalshi.WsTypes.Emit.{
  ws_file_header, section, field_line, write_error_codes, sort_msgs, alias_text, generated_subs,
  command_envelope, write_msg_type_to_channel,
}

-- Two texts of which either may be missing.
infixr 60 ◌+++◌
abbrev pub ◌+++◌ : Option Text → Option Text → Option Text
none +++ t = none
some s +++ none = none
some s +++ some t = some (s ++ t)

abbrev pub shared_name : Text → Text
shared_name name = elim (lookup name shared_schema_names) [ none ↦ [] | some g ↦ g ]

module _ (schemas : Map Text Schema) (fuel : ℕ) where
  unfoldable pub field_lines : Text → List Text → Map Text Schema → List Text → Option Text
  unfolding lookup resolve_type field_line
  field_lines struct_name required props [] = some []
  field_lines struct_name required props (p ∷ ps) =
      (elim (lookup p props) [
        | none ↦ some []
        | some prop ↦ elim (resolve_type schemas fuel struct_name p prop) [
          | none ↦ none
          | some go_type ↦ some (field_line struct_name required p prop go_type)
        ]
      ])
      +++ field_lines struct_name required props ps

  unfoldable pub write_struct : Text → Text → Option Schema → Option Text
  unfolding field_lines sorted_keys
  write_struct struct_name comment none = some []
  write_struct struct_name comment (some s) =
      some (
        codes "// "
        ++ comment
        ++ newline
        ++ codes "type "
        ++ struct_name
        ++ codes " struct {"
        ++ newline)
      +++ field_lines struct_name (info_of s).required (properties_of s)
          (sorted_keys (properties_of s))
      +++ some (codes "}" ++ newline ++ newline)

  unfoldable pub write_shared : Map Text Schema → List Text → Option Text
  unfolding write_struct lookup clean_description
  write_shared shared [] = some []
  write_shared shared (name ∷ names) =
      let go_name = shared_name name in
      (elim (lookup name shared) [
        | none ↦ some []
        | some s ↦
            write_struct go_name
              (if is_empty (info_of s).description
                then go_name ++ codes " is a shared sub-type used by multiple WS messages."
                else go_name ++ codes " " ++ clean_description (info_of s).description)
              (some s)
      ])
      +++ write_shared shared names

  unfoldable pub write_subs : Map Text Schema → List Text → Option Text
  unfolding write_struct lookup
  write_subs subs [] = some []
  write_subs subs (name ∷ names) =
      write_struct name (name ++ codes " is a nested object type within a WS data message.")
        (lookup name subs)
      +++ write_subs subs names

  unfoldable pub write_messages : (Text → Text) → List DataMsg → Option Text
  unfolding write_struct
  write_messages quote [] = some []
  write_messages quote (dm ∷ dms) =
      write_struct dm.struct_name
        (dm.struct_name ++ codes " is the msg body for a " ++ quote dm.name ++ codes " message.")
        dm.msg_schema
      +++ write_messages quote dms

-- From the parsed specification to the text of the file.
unfoldable pub generate_ws_types : (Text → Text) → ℕ → AsyncApiSpec → Snapshot → Option Text
unfolding write_struct write_shared write_subs write_messages write_error_codes
    write_msg_type_to_channel section ws_file_header command_envelope alias_text sort_msgs
    generated_subs collect_data_messages collect_shared_schemas collect_inline_sub_objects
    extract_params_schema extract_msg_schema merge_update_sub_params sorted_keys
generate_ws_types quote fuel spec snap =
    let schemas = spec.schemas in
    let dms = collect_data_messages spec in
    let shared = collect_shared_schemas schemas in
    let inline = collect_inline_sub_objects dms in
    let subs = generated_subs inline [] in
    some (
      ws_file_header snap
      ++ codes "package gokalshi"
      ++ newline
      ++ newline
      ++ section (codes "Outgoing commands")
      ++ command_envelope)
    +++ write_struct schemas fuel (codes "SubscribeParams")
        (codes "SubscribeParams are the parameters for a \"subscribe\" command.")
        (extract_params_schema schemas (codes "subscribeCommandPayload"))
    +++ write_struct schemas fuel (codes "UnsubscribeParams")
        (codes "UnsubscribeParams are the parameters for an \"unsubscribe\" command.")
        (extract_params_schema schemas (codes "unsubscribeCommandPayload"))
    +++ write_struct schemas fuel (codes "UpdateSubParams")
        (codes "UpdateSubParams are the parameters for an \"update_subscription\" command.")
        (merge_update_sub_params schemas)
    +++ some (section (codes "Incoming response msg bodies (parsed from WSMessage.Msg)"))
    +++ write_struct schemas fuel (codes "SubscribedBody")
        (codes "SubscribedBody is the msg body for a \"subscribed\" response.")
        (extract_msg_schema schemas (codes "subscribedResponsePayload"))
    +++ write_struct schemas fuel (codes "OkBody")
        (codes "OkBody is the msg body for an \"ok\" response.")
        (extract_msg_schema schemas (codes "okResponsePayload"))
    +++ write_struct schemas fuel (codes "WSErrorBody")
        (codes "WSErrorBody is the msg body for an \"error\" response.")
        (extract_msg_schema schemas (codes "errorResponsePayload"))
    +++ some (write_error_codes spec.error_codes)
    +++ some (if is_empty shared then [] else section (codes "Shared sub-types"))
    +++ write_shared schemas fuel shared (sorted_keys shared)
    +++ some (if is_empty inline then [] else section (codes "Inline sub-types"))
    +++ write_subs schemas fuel subs (sorted_keys subs)
    +++ some (section (codes "Incoming channel data messages"))
    +++ write_messages schemas fuel quote (sort_msgs dms)
    +++ some (
        alias_text (sort_msgs dms)
        ++ section (codes "Channel mapping")
        ++ write_msg_type_to_channel quote dms)
