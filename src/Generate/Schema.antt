-- ===== src/Generate/Schema.antt =====
-- The parsed specification of tools/generate_types/main.go, and what its schemas refer to.
use gokalshi.Base.{Bool, List, [], ◌∷◌, if◌then◌else◌, is_empty, Text, split, put, text_eq}

-- The fields of a schema that hold no schema. The values of an enumeration are texts.
pub record Info : Type 0 where
  pub kind : Text
  pub format : Text
  pub description : Text
  pub enum : List Text
  pub required : List Text
  pub ref : Text
  pub nullable : Bool
  pub deprecated : Bool

-- A schema with its properties, `items`, `allOf`, and the schema that `additionalProperties` holds if it
-- holds one.
mutual
  pub data Schema : Type 0 where
    schema : Info → Properties → Pointer → Schemas → Pointer → Schema

  pub data Properties : Type 0 where
    no_properties : Properties
    property : Text → Schema → Properties → Properties

  pub data Pointer : Type 0 where
    nil : Pointer
    to : Schema → Pointer

  pub data Schemas : Type 0 where
    no_schemas : Schemas
    and_schema : Schema → Schemas → Schemas

last_part : Text → List Text → Text
last_part part [] = part
last_part part (next ∷ parts) = last_part next parts

unfoldable pub ref_to_name : Text → Text
unfolding last_part
ref_to_name ref = last_part [] (split b'/' ref)

-- The union of two sets.
unfoldable pub union : List Text → List Text → List Text
unfolding put
union [] refs = refs
union (r ∷ rs) refs = union rs (put r refs)

own_ref : Text → List Text
own_ref ref = if is_empty ref then [] else ref_to_name ref ∷ []

unfoldable mutual
  unfolding own_ref union

  pub collect_refs : Schema → List Text
  collect_refs (schema info props items all_of additional) =
      union (refs_of_all all_of)
        (union (refs_of_pointer items) (union (refs_of_properties props) (own_ref info.ref)))

  pub refs_of_properties : Properties → List Text
  refs_of_properties no_properties = []
  refs_of_properties (property name prop rest) = union (refs_of_properties rest) (collect_refs prop)

  pub refs_of_pointer : Pointer → List Text
  refs_of_pointer nil = []
  refs_of_pointer (to s) = collect_refs s

  pub refs_of_all : Schemas → List Text
  refs_of_all no_schemas = []
  refs_of_all (and_schema s rest) = union (refs_of_all rest) (collect_refs s)
