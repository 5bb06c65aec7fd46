-- ===== src/Generate/Topological.antt =====
-- `topologicalSort` of tools/generate_types/main.go. The depth of `visit` is bounded by fuel;
-- `none` says that it was spent.
use gokalshi.Base.{
  ℕ, zero, suc, ◌&&◌, not, Option, none, some, List, [], ◌∷◌, ◌++◌, if◌then◌else◌, length, contains,
  put, drop_key, keep, ◌==◌, Text, text_eq, Map, lookup,
}
use gokalshi.Generate.Schema.{Schema, collect_refs}
use gokalshi.Generate.Naming.{sort_texts}

-- The dependencies of a name, sorted: `deps[name]`.
unfoldable pub deps_of : List Text → Map Text Schema → Text → List Text
unfolding collect_refs sort_texts
deps_of names schemas name = elim (lookup name schemas) [
  | none ↦ []
  | some s ↦ sort_texts (keep (λ r. not (r == name) && contains r names) (collect_refs s))
]

-- The variables that `visit` captures.
pub record Sorting : Type 0 where
  pub visited : List Text
  pub visiting : List Text
  pub sorted : List Text

-- `visit` for each name in order, until one runs out of fuel.
unfoldable pub visit_each : (Text → Sorting → Option Sorting) → List Text → Sorting → Option Sorting
visit_each visit [] s = some s
visit_each visit (name ∷ names) s = elim (visit name s) [
  | none ↦ none
  | some t ↦ visit_each visit names t
]

abbrev pub enter : Text → Sorting → Sorting
enter name s = record s { visiting = put name s.visiting }

abbrev pub leave : Text → Sorting → Sorting
leave name s = record {
  visited = put name s.visited;
  visiting = drop_key name s.visiting;
  sorted = s.sorted ++ name ∷ [];
}

unfoldable pub visit : (Text → List Text) → ℕ → Text → Sorting → Option Sorting
unfolding visit_each
visit deps zero name s = none
visit deps (suc fuel) name s =
    let inner = visit_each (visit deps fuel) (deps name) (enter name s) in
    if contains name s.visited
    then some s
    else if contains name s.visiting
    then some s
    else elim inner [ none ↦ none | some t ↦ some (leave name t) ]

-- One unit of fuel for each name, and one for the names that are met again.
unfoldable pub topological_sort : List Text → Map Text Schema → Option (List Text)
unfolding visit deps_of
topological_sort names schemas =
    elim (visit_each (visit (deps_of names schemas) (suc (length names))) names
      (record { visited = []; visiting = []; sorted = [] })) [
        | none ↦ none
        | some s ↦ some s.sorted
      ]
