-- ===== src/Generate/Sorted.antt =====
-- The result of `topologicalSort` on the schemas of a specification.
use gokalshi.Base.{
  suc, ◌≤◌, ◌≡◌, refl, Bool, true, some, List, [], ◌∷◌, length, contains, keep, Text, text_eq,
  text_eqb_iff, All, arith, Bool-cases, Option-cases, inl, inr, Map, lookup,
}
use gokalshi.Generate.Schema.{Schema, collect_refs}
use gokalshi.Generate.Naming.{text_ltb, insert_text, sort_texts}
use gokalshi.Generate.Topological.{Sorting, visit_each, visit, deps_of, topological_sort}
use gokalshi.Generate.Groups.{Spec, categorize, build_schema_groups}
use gokalshi.Generate.Emit.{Snapshot, generate_objects, generate_types}
use gokalshi.Generate.Order.{All-contains, Distinct, missing}
use gokalshi.Generate.Search.{IsDone, Searched, visit_each-Searched, visit-Searched}

module _ {κ} (P : Text → Type κ) where
  All-keep :
      (p : Text → Bool) (xs : List Text) → ((x : Text) → p x ≡ true → P x) → All P (keep p xs)
  All-keep p [] h = tt
  All-keep p (x ∷ xs) h = elim (Bool-cases (p x)) [
    | inl kept ↦ rw kept (h x kept, All-keep p xs h)
    | inr left ↦ rw left (All-keep p xs h)
  ]

  All-insert_text : (x : Text) (xs : List Text) → P x → All P xs → All P (insert_text x xs)
  unfolding insert_text
  All-insert_text x [] h a = (h, tt)
  All-insert_text x (y ∷ ys) h a = elim (Bool-cases (text_ltb y x)) [
    | inl less ↦ rw less (a.0, All-insert_text x ys h a.1)
    | inr more ↦ rw more (h, a)
  ]

  All-sort_texts : (xs : List Text) → All P xs → All P (sort_texts xs)
  unfolding sort_texts
  All-sort_texts [] a = tt
  All-sort_texts (x ∷ xs) a = All-insert_text x (sort_texts xs) a.0 (All-sort_texts xs a.1)

-- All dependencies are names.
deps_of-known :
    (names : List Text) (schemas : Map Text Schema) (n : Text)
    → All (λ d. contains d names ≡ true) (deps_of names schemas n)
unfolding deps_of
deps_of-known names schemas n = elim (Option-cases (lookup n schemas)) [
  | inl absent ↦ rw (deps_of, absent) tt
  | inr (s, found) ↦
      rw (deps_of, found)
        (All-sort_texts (λ d. contains d names ≡ true) _
          (All-keep (λ d. contains d names ≡ true) _ (collect_refs s) (λ d h. ground (arith, h))))
]

missing-nil : (names : List Text) → missing names [] ≤ length names
unfolding missing
missing-nil [] = omega arith
missing-nil (n ∷ names) = omega (arith, missing-nil names)

listed_among :
    (ms ns : List Text)
    → ((x : Text) → contains x ns ≡ true → contains x ms ≡ true)
    → All (λ n. contains n ms ≡ true) ns
listed_among ms [] h = tt
listed_among ms (n ∷ ns) h =
    (h n (ground (arith, text_eqb_iff n n)), listed_among ms ns (λ x k. h x (ground (arith, k))))

abbrev start : Sorting
start = record { visited = []; visiting = []; sorted = [] }

-- The whole search.
searched :
    (names : List Text) (schemas : Map Text Schema)
    → Searched
        (deps_of names schemas)
        names
        start
        (visit_each (visit (deps_of names schemas) (suc (length names))) names start)
        names
searched names schemas =
    visit_each-Searched (deps_of names schemas) names
      (visit (deps_of names schemas) (suc (length names))) (suc (length names))
      (visit-Searched (deps_of names schemas) names (deps_of-known names schemas)
        (suc (length names)))
      names start (listed_among names names (λ x h. h))
      (record { same = λ x. refl; once = tt; known = λ x h. cc }) (omega (arith, missing-nil names))

sorted_complete :
    (names : List Text) (schemas : Map Text Schema) (x : Text)
    → contains x (searched names schemas).after.sorted ≡ contains x names
unfolding IsDone
sorted_complete names schemas x =
    let found = searched names schemas in
    elim (Bool-cases (contains x names)) [
      | inl listed ↦
          let met =
            All-contains (λ n. IsDone (deps_of names schemas) names n start found.after) x names
              found.done listed in
          ground (arith, met, found.ok.same x, listed)
      | inr unlisted ↦ ground (arith, found.ok.known x, unlisted)
    ]

-- For any names and schemas, with references in circles or not, the search of the type generator
-- ends without running out of the fuel given, which is one unit for each name and one more, and its
-- result has exactly the names, each once.
pub topological_sort-ends :
    (names : List Text) (schemas : Map Text Schema)
    → (sorted : List Text) × (topological_sort names schemas ≡ some sorted)
      × Distinct sorted
      × ((x : Text) → contains x sorted ≡ contains x names)
unfolding topological_sort
topological_sort-ends names schemas =
    let found = searched names schemas in
    (
      found.after.sorted,
      rw (topological_sort, found.ends) refl,
      found.ok.once,
      sorted_complete names schemas,
    )

-- The file can always be written.
generate_objects-ends :
    (names : List Text) (schemas : Map Text Schema) (groups : Map Text Text) (snap : Snapshot)
    → (text : Text) × (generate_objects names schemas groups snap ≡ some text)
unfolding generate_objects
generate_objects-ends names schemas groups snap =
    let (sorted, ended, once, same) = topological_sort-ends names schemas in
    elim (Option-cases (generate_objects names schemas groups snap)) [
      | inr found ↦ found
      | inl spent ↦ ground (arith, ended, spent)
    ]

pub generate_types-ends :
    (spec : Spec) (snap : Snapshot) → (text : Text) × (generate_types spec snap ≡ some text)
unfolding generate_types
generate_types-ends spec snap =
    generate_objects-ends (categorize spec.schemas).1 spec.schemas (build_schema_groups spec) snap
