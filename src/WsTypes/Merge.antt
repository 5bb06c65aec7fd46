-- ===== src/WsTypes/Merge.antt =====
-- The parameters that tools/generate_ws_types/main.go merges.
use gokalshi.Base.{
  ◌≡◌, refl, sym, ap, ◌∙◌, Option, none, some, List, [], ◌∷◌, ◌==◌, Text, text_eq, text_eqb_iff,
  Map, lookup, insert, lookup-insert, contains, ◌||◌, arith, Option-cases, inl, inr, put,
  contains-put,
}
use gokalshi.Generate.Schema.{Schema, union}
use gokalshi.Generate.Resolve.{info_of}
use gokalshi.Generate.Naming.{insert_text, sort_texts}
use gokalshi.Generate.Emit.{property_map}
use gokalshi.WsTypes.Collect.{properties_of, from_map, add_missing, merged_params}

-- The first of two, or the second.
abbrev pub or_else {ℓ} : {A : Type ℓ} → Option A → Option A → Option A
or_else none o = o
or_else (some a) o = some a

property_map-from_map : (m : Map Text Schema) → property_map (from_map m) ≡ m
unfolding property_map
property_map-from_map [] = refl
property_map-from_map ((name, s) ∷ m) =
    ap (λ (rest : Map Text Schema). (name, s) ∷ rest) (property_map-from_map m)

or_else-none : (o : Option Schema) → or_else o none ≡ o
or_else-none none = refl
or_else-none (some s) = refl

lookup-add_missing :
    (k : Text) (m n : Map Text Schema)
    → lookup k (add_missing m n) ≡ or_else (lookup k m) (lookup k n)
unfolding add_missing lookup
lookup-add_missing k m [] = sym (or_else-none (lookup k m))
lookup-add_missing k m ((j, v) ∷ n) = elim (Option-cases (lookup j m)) [
  | inl absent ↦ rw absent (
      lookup-add_missing k (insert j v m) n
      ∙ ground (arith, lookup-insert j k v m, absent, text_eqb_iff j k))
  | inr (old, there) ↦ rw there (lookup-add_missing k m n ∙ ground (arith, there, text_eqb_iff j k))
]

-- A set and its union.
contains-union :
    (x : Text) (xs ys : List Text) → contains x (union xs ys) ≡ (contains x xs || contains x ys)
unfolding union
contains-union x [] ys = refl
contains-union x (y ∷ xs) ys = ground (arith, contains-union x xs (put y ys), contains-put x y ys)

contains-insert_text :
    (x y : Text) (xs : List Text) → contains x (insert_text y xs) ≡ (y == x || contains x xs)
unfolding insert_text
contains-insert_text x y [] = refl
contains-insert_text x y (z ∷ xs) = ground (arith, contains-insert_text x y xs)

contains-sort_texts : (x : Text) (xs : List Text) → contains x (sort_texts xs) ≡ contains x xs
unfolding sort_texts
contains-sort_texts x [] = refl
contains-sort_texts x (y ∷ xs) =
    ground (arith, contains-insert_text x y (sort_texts xs), contains-sort_texts x xs)

-- The merged parameters of the update command have a field exactly if one of the two variants has
-- it, with the schema of the regular one if both do, and require a field exactly if one of the two
-- requires it.
pub merged_params-fields :
    (regular cfb : Schema) (k : Text)
    → (lookup k (properties_of (merged_params regular cfb))
        ≡ or_else (lookup k (properties_of regular)) (lookup k (properties_of cfb)))
      × (contains k (info_of (merged_params regular cfb)).required
          ≡ (contains k (info_of regular).required || contains k (info_of cfb).required))
unfolding merged_params
merged_params-fields regular cfb k = (
  ap (lookup k) (property_map-from_map (add_missing (properties_of regular) (properties_of cfb)))
      ∙ lookup-add_missing k (properties_of regular) (properties_of cfb),
  ground (
    arith,
    contains-sort_texts k (union (info_of cfb).required (union (info_of regular).required [])),
    contains-union k (info_of cfb).required (union (info_of regular).required []),
    contains-union k (info_of regular).required [],
  ),
)
