-- ===== src/Generate/Groups.antt =====
-- The sections of the generated file, and which schemas it has: `categorize`, `buildSchemaGroups`
-- and `groupNameFromPath` of tools/generate_types/main.go. The maps are association lists with
-- distinct keys.
use gokalshi.Base.{
  Bool, true, false, ◌&&◌, not, Option, none, some, List, [], ◌∷◌, ◌++◌, if◌then◌else◌, is_empty,
  nat_eqb, ◌==◌, Text, codes, text_eq, split, Map, lookup, insert,
}
use gokalshi.Generate.Schema.{Schema, ref_to_name}
use gokalshi.Generate.Naming.{sort_texts, should_skip, is_parameter_schema, capitalized}
use gokalshi.Generate.Resolve.{type_aliases, info_of}

-- A media type's schema, if it has one.
abbrev pub Content : Type 0
Content = Map Text (Option Schema)

-- A method of a path, as far as its schemas go. `none` is a nil pointer.
pub record Operation : Type 0 where
  pub request_body : Option Content
  pub responses : Map Text (Option Content)

pub record Spec : Type 0 where
  pub schemas : Map Text Schema
  pub paths : Map Text (Map Text (Option Operation))

abbrev pub is_present {ℓ} : {A : Type ℓ} → Option A → Bool
is_present none = false
is_present (some a) = true

unfoldable pub keys {ℓ} : {V : Type ℓ} → Map Text V → List Text
keys [] = []
keys ((k, v) ∷ m) = k ∷ keys m

unfoldable pub sorted_keys {ℓ} : {V : Type ℓ} → Map Text V → List Text
unfolding keys sort_texts
sorted_keys m = sort_texts (keys m)

-- Whether a schema gets a Go type, and whether it is an enumeration.
unfoldable pub is_generated : Text → Bool
unfolding should_skip is_parameter_schema lookup
is_generated name =
    not (should_skip name)
    && not (is_present (lookup name type_aliases))
    && not (is_parameter_schema name)

unfoldable pub is_enum : Schema → Bool
is_enum s = (info_of s).kind == codes "string" && not (is_empty (info_of s).enum)

unfoldable pub names_with : (Schema → Bool) → Map Text Schema → List Text
unfolding is_generated
names_with test [] = []
names_with test ((name, s) ∷ schemas) =
    let rest = names_with test schemas in if is_generated name && test s then name ∷ rest else rest

unfoldable pub categorize : Map Text Schema → List Text × List Text
unfolding names_with is_enum sort_texts
categorize schemas = (
  sort_texts (names_with is_enum schemas),
  sort_texts (names_with (λ s. not (is_enum s)) schemas),
)

abbrev pub group_names : Map Text Text
group_names =
    (codes "account", codes "Account")
    ∷ (codes "api_keys", codes "API Keys")
    ∷ (codes "communications", codes "Communications")
    ∷ (codes "events", codes "Events")
    ∷ (codes "exchange", codes "Exchange")
    ∷ (codes "fcm", codes "FCM")
    ∷ (codes "historical", codes "Historical")
    ∷ (codes "incentive_programs", codes "Incentive Programs")
    ∷ (codes "live_data", codes "Live Data")
    ∷ (codes "markets", codes "Markets")
    ∷ (codes "milestones", codes "Milestones")
    ∷ (codes "multivariate_event_collections", codes "Multivariate Event Collections")
    ∷ (codes "portfolio", codes "Portfolio")
    ∷ (codes "search", codes "Search")
    ∷ (codes "series", codes "Series")
    ∷ (codes "structured_targets", codes "Structured Targets")
    ∷ []

abbrev pub sub_groups : Map Text Text
sub_groups =
    (codes "orders", codes "Orders")
    ∷ (codes "events", codes "Event Orders")
    ∷ (codes "order_groups", codes "Order Groups")
    ∷ (codes "subaccounts", codes "Subaccounts")
    ∷ (codes "summary", codes "Portfolio")
    ∷ (codes "balance", codes "Portfolio")
    ∷ (codes "positions", codes "Portfolio")
    ∷ (codes "fills", codes "Portfolio")
    ∷ (codes "settlements", codes "Portfolio")
    ∷ (codes "deposits", codes "Portfolio")
    ∷ (codes "withdrawals", codes "Portfolio")
    ∷ []

-- `strings.TrimPrefix(path, "/")`.
abbrev trim_slash : Text → Text
trim_slash [] = []
trim_slash (c ∷ s) = if nat_eqb c b'/' then s else c ∷ s

unfoldable pub join_words : List Text → Text
join_words [] = []
join_words (w ∷ []) = capitalized w
join_words (w ∷ v ∷ ws) = capitalized w ++ b' ' ∷ join_words (v ∷ ws)

-- The name for a segment and the segments after it.
unfoldable pub section_name : Text → List Text → Text
unfolding lookup join_words split
section_name seg rest = elim (lookup seg group_names) [
  | none ↦ join_words (split b'_' seg)
  | some name ↦ elim rest [
    | [] ↦ name
    | sub ∷ more ↦
        if seg == codes "portfolio"
        then (elim (lookup sub sub_groups) [ some sub_name ↦ sub_name | none ↦ name ])
        else name
  ]
]

unfoldable pub group_name_from_path : Text → Text
unfolding section_name
group_name_from_path path = elim (split b'/' (trim_slash path)) [
  | [] ↦ codes "Core"
  | seg ∷ rest ↦ section_name seg rest
]

-- The first group that a schema is met in stays.
unfoldable pub note_group : Text → Text → Map Text Text → Map Text Text
unfolding lookup insert
note_group group name groups =
    if is_present (lookup name groups) then groups else insert name group groups

unfoldable pub note_schema : Text → Option Schema → Map Text Text → Map Text Text
unfolding note_group ref_to_name
note_schema group none groups = groups
note_schema group (some s) groups =
    if is_empty (info_of s).ref
    then groups
    else note_group group (ref_to_name (info_of s).ref) groups

abbrev pub flattened {ℓ} : {A : Type ℓ} → Option (Option A) → Option A
flattened none = none
flattened (some o) = o

-- Some steps for each key in turn.
unfoldable pub for_keys {ℓ κ} :
    {V : Type ℓ} {S : Type κ} → (Option V → S → S) → Map Text V → List Text → S → S
unfolding lookup
for_keys step m [] s = s
for_keys step m (k ∷ ks) s = for_keys step m ks (step (lookup k m) s)

unfoldable pub note_content : Text → Option Content → Map Text Text → Map Text Text
unfolding note_schema for_keys sorted_keys
note_content group none groups = groups
note_content group (some content) groups =
    for_keys (λ o. note_schema group (flattened o)) content (sorted_keys content) groups

unfoldable pub note_operation : Text → Option Operation → Map Text Text → Map Text Text
unfolding note_content for_keys sorted_keys
note_operation group none groups = groups
note_operation group (some op) groups =
    for_keys (λ o. note_content group (flattened o)) op.responses (sorted_keys op.responses)
      (note_content group op.request_body groups)

unfoldable pub note_path :
    Map Text (Map Text (Option Operation)) → Text → Map Text Text → Map Text Text
unfolding note_operation for_keys sorted_keys lookup group_name_from_path
note_path paths path groups = elim (lookup path paths) [
  | none ↦ groups
  | some methods ↦
      for_keys (λ o. note_operation (group_name_from_path path) (flattened o)) methods
        (sorted_keys methods) groups
]

unfoldable pub note_paths :
    Map Text (Map Text (Option Operation)) → List Text → Map Text Text → Map Text Text
unfolding note_path
note_paths all_paths [] groups = groups
note_paths all_paths (path ∷ rest) groups =
    note_paths all_paths rest (note_path all_paths path groups)

unfoldable pub build_schema_groups : Spec → Map Text Text
unfolding note_paths sorted_keys
build_schema_groups spec = note_paths spec.paths (sorted_keys spec.paths) []
