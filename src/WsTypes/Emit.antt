-- ===== src/WsTypes/Emit.antt =====
-- The texts of the file that tools/generate_ws_types/main.go writes, but for its structs. `quote`
-- is the verb %q.
use gokalshi.Base.{
  pos, ◌&&◌, ◌||◌, not, none, some, List, [], ◌∷◌, ◌++◌, if◌then◌else◌, is_empty, nat_eq, ◌==◌,
  Text, codes, text_eq, contains, has_prefix, Map, lookup,
}
use gokalshi.Query.{itoa}
use gokalshi.Generate.Schema.{Schema}
use gokalshi.Generate.Naming.{text_ltb, clean_description}
use gokalshi.Generate.Resolve.{info_of, is_listed, lookup_field}
use gokalshi.Generate.Groups.{is_present}
use gokalshi.Generate.Emit.{Snapshot, asyncapi, provenance, newline, tab, rule, shortened}
use gokalshi.WsTypes.Tables.{
  msg_type_to_const_name, forced_nullable, skip_inline_generation, error_code_names,
}
use gokalshi.WsTypes.Collect.{ErrorCode, DataMsg, ws_field_name, to_go_identifier}

unfoldable pub ws_file_header : Snapshot → Text
unfolding provenance
ws_file_header snap =
    let (url, version, sha) = provenance snap asyncapi in
    codes "// Code generated by tools/generate_ws_types "
    ++ (226 ∷ 128 ∷ 148 ∷ [])
    ++ codes " DO NOT EDIT."
    ++ newline
    ++ codes "// Spec: "
    ++ url
    ++ codes " (version "
    ++ version
    ++ codes ", fetched "
    ++ snap.fetched_at
    ++ codes ")"
    ++ newline
    ++ codes "// sha256: "
    ++ sha
    ++ newline
    ++ newline

unfoldable pub section : Text → Text
section title = rule ++ codes "// " ++ title ++ newline ++ rule ++ newline

-- A pointer for what may be null.
unfoldable pub pointed : Text → Text → Schema → Text → Text
unfolding lookup_field
pointed struct_name field prop go_type =
    if ((info_of prop).nullable || is_listed struct_name field forced_nullable)
      && not (has_prefix (codes "[]") go_type)
      && not (has_prefix (codes "map[") go_type)
      && not (has_prefix (codes "*") go_type)
    then b'*' ∷ go_type
    else go_type

unfoldable pub field_line : Text → List Text → Text → Schema → Text → Text
unfolding clean_description ws_field_name pointed
field_line struct_name required field prop go_type =
    let info = info_of prop in
    let json_tag = if contains field required then field else field ++ codes ",omitempty" in
    (if is_empty info.description
      then []
      else tab ++ codes "// " ++ shortened (clean_description info.description) ++ newline)
    ++ (if info.deprecated then tab ++ codes "// Deprecated." ++ newline else [])
    ++ tab
    ++ ws_field_name field
    ++ codes " "
    ++ pointed struct_name field prop go_type
    ++ codes " `json:\""
    ++ json_tag
    ++ codes "\"`"
    ++ newline

-- A constant with its number.
unfoldable pub error_code_line : ErrorCode → Text
unfolding lookup to_go_identifier itoa
error_code_line ec =
    tab
    ++ (elim (lookup ec.error_code error_code_names) [
      | some const_name ↦ const_name
      | none ↦ codes "WSErr" ++ to_go_identifier ec.error_name
    ])
    ++ codes " = "
    ++ itoa (pos ec.error_code)
    ++ newline

unfoldable pub error_code_lines : List ErrorCode → Text
unfolding error_code_line
error_code_lines [] = []
error_code_lines (ec ∷ ecs) = error_code_line ec ++ error_code_lines ecs

unfoldable pub write_error_codes : List ErrorCode → Text
unfolding error_code_lines section
write_error_codes ecs =
    if is_empty ecs
    then []
    else section (codes "WS error codes (from Kalshi API spec)")
      ++ codes "const ("
      ++ newline
      ++ error_code_lines ecs
      ++ codes ")"
      ++ newline
      ++ newline

-- Data messages by their struct names.
unfoldable pub insert_msg : DataMsg → List DataMsg → List DataMsg
unfolding text_ltb
insert_msg d [] = d ∷ []
insert_msg d (e ∷ es) =
    let rest = insert_msg d es in
    if text_ltb e.struct_name d.struct_name then e ∷ rest else d ∷ e ∷ es

unfoldable pub sort_msgs : List DataMsg → List DataMsg
unfolding insert_msg
sort_msgs [] = []
sort_msgs (d ∷ ds) = insert_msg d (sort_msgs ds)

unfoldable pub alias_text : List DataMsg → Text
alias_text [] = []
alias_text (dm ∷ dms) =
    let rest = alias_text dms in
    if not (is_present dm.msg_schema) && dm.struct_name == codes "MultivariateMarketLifecycleData"
    then codes "// MultivariateMarketLifecycleData has the same shape as MarketLifecycleV2Data."
      ++ newline
      ++ codes "type MultivariateMarketLifecycleData = MarketLifecycleV2Data"
      ++ newline
      ++ newline
      ++ rest
    else rest

-- The first of each name, without the types that exist already.
unfoldable pub generated_subs : Map Text Schema → Map Text Schema → Map Text Schema
unfolding lookup
generated_subs [] seen = seen
generated_subs ((name, s) ∷ subs) seen = generated_subs subs (
    if contains name skip_inline_generation || is_present (lookup name seen)
    then seen
    else seen ++ (name, s) ∷ [])

unfoldable pub command_envelope : Text
command_envelope =
    codes "// WSCommand is the generic envelope for outgoing WebSocket commands."
    ++ newline
    ++ codes "// Cmd values: see WSCmd constants."
    ++ newline
    ++ codes "type WSCommand struct {"
    ++ newline
    ++ tab
    ++ codes "ID     int   `json:\"id\"`"
    ++ newline
    ++ tab
    ++ codes "Cmd    WSCmd `json:\"cmd\"`"
    ++ newline
    ++ tab
    ++ codes "Params any   `json:\"params,omitempty\"` // nil for list_subscriptions"
    ++ newline
    ++ codes "}"
    ++ newline
    ++ newline

-- A constant for a message type, and its channels.
unfoldable pub const_name_of : Text → Text
unfolding lookup ws_field_name
const_name_of ws_type = elim (lookup ws_type msg_type_to_const_name) [
  | some const_name ↦ const_name
  | none ↦ codes "WSMsg" ++ ws_field_name ws_type
]

unfoldable pub insert_entry : DataMsg → List DataMsg → List DataMsg
unfolding text_ltb const_name_of
insert_entry d [] = d ∷ []
insert_entry d (e ∷ es) =
    let rest = insert_entry d es in
    if text_ltb (const_name_of e.name) (const_name_of d.name) then e ∷ rest else d ∷ e ∷ es

unfoldable pub sort_entries : List DataMsg → List DataMsg
unfolding insert_entry
sort_entries [] = []
sort_entries (d ∷ ds) = insert_entry d (sort_entries ds)

module _ (quote : Text → Text) where
  unfoldable pub joined : List Text → Text
  joined [] = []
  joined (c ∷ []) = quote c
  joined (c ∷ d ∷ cs) = quote c ++ codes ", " ++ joined (d ∷ cs)

  unfoldable pub entry_lines : List DataMsg → Text
  unfolding joined const_name_of
  entry_lines [] = []
  entry_lines (e ∷ es) =
      tab
      ++ const_name_of e.name
      ++ codes ": {"
      ++ joined e.on_channels
      ++ codes "},"
      ++ newline
      ++ entry_lines es

  unfoldable pub write_msg_type_to_channel : List DataMsg → Text
  unfolding entry_lines sort_entries
  write_msg_type_to_channel dms =
      codes
        "// MsgTypeToChannel maps incoming WS message types to the channel(s) they can arrive on."
      ++ newline
      ++ codes "// Also used as a set of known message types "
      ++ (226 ∷ 128 ∷ 148 ∷ [])
      ++ codes " actual routing uses SID."
      ++ newline
      ++ codes "var MsgTypeToChannel = map[WSMessageType][]string{"
      ++ newline
      ++ entry_lines (sort_entries dms)
      ++ codes "}"
      ++ newline
