-- ===== src/Generate/Determined.antt =====
-- The text that tools/generate_types/main.go writes, and the order in which the map of the schemas
-- is ranged over.
use mathlib.Core.List.{Permᴰ}
use mathlib.Core.List.Permᴰ
use mathlib.Core.Path.{subst₂}
use gokalshi.Base.{
  suc, ◌≡◌, refl, sym, ap, ◌∙◌, Bool, ◌&&◌, not, Option, none, some, List, [], ◌∷◌, Text, text_eq,
  text_eqb_iff, arith, Bool-cases, Option-cases, inl, inr, Map, lookup, contains, length,
}
use gokalshi.Generate.Schema.{Schema}
use gokalshi.Generate.Topological.{visit_each, visit, deps_of, topological_sort}
use gokalshi.Generate.Groups.{
  Operation, keys, is_generated, is_enum, names_with, categorize, build_schema_groups,
}
use gokalshi.Generate.Emit.{
  Snapshot, emit_types, group_of, sort_by, generate_objects, generate_types,
}
use gokalshi.Generate.Order.{Distinct}
use gokalshi.Generate.Ordering.{sort_texts-Permᴰ}

contains-Permᴰ : {xs ys : List Text} (x : Text) → Permᴰ xs ys → contains x xs ≡ contains x ys
contains-Permᴰ x Permᴰ.nil = refl
contains-Permᴰ x (Permᴰ.cons e p) = rw (e, contains-Permᴰ x p) refl
contains-Permᴰ x (Permᴰ.swap {a = a} {b = b} {l = l} e f) = rw (← e, ← f) (ground arith)
contains-Permᴰ x (Permᴰ.trans p q) = contains-Permᴰ x p ∙ contains-Permᴰ x q

Distinct-Permᴰ : {xs ys : List Text} → Permᴰ xs ys → Distinct xs → Distinct ys
Distinct-Permᴰ Permᴰ.nil d = tt
Distinct-Permᴰ (Permᴰ.cons {a = a} e p) d =
    rw (← e) (sym (contains-Permᴰ a p) ∙ d.0, Distinct-Permᴰ p d.1)
Distinct-Permᴰ (Permᴰ.swap {a = a} {b = b} {l = l} e f) d =
    subst₂ (λ x y. Distinct (x ∷ y ∷ l)) f e
      (ground (arith, d.0, d.1.0, text_eqb_iff a b, text_eqb_iff b a), (ground (arith, d.0), d.1.1))
Distinct-Permᴰ (Permᴰ.trans p q) d = Distinct-Permᴰ q (Distinct-Permᴰ p d)

module _ {ℓ} {V : Type ℓ} where
  keys-Permᴰ : {m n : Map Text V} → Permᴰ m n → Permᴰ (keys m) (keys n)
  unfolding keys
  keys-Permᴰ Permᴰ.nil = Permᴰ.nil
  keys-Permᴰ (Permᴰ.cons e p) = Permᴰ.cons (ap (λ x. x.0) e) (keys-Permᴰ p)
  keys-Permᴰ (Permᴰ.swap e f) = Permᴰ.swap (ap (λ x. x.0) e) (ap (λ x. x.0) f)
  keys-Permᴰ (Permᴰ.trans p q) = Permᴰ.trans (keys-Permᴰ p) (keys-Permᴰ q)

  lookup-Permᴰ :
      {m n : Map Text V} (k : Text) → Permᴰ m n → Distinct (keys m) → lookup k m ≡ lookup k n
  unfolding lookup keys
  lookup-Permᴰ k Permᴰ.nil d = refl
  lookup-Permᴰ k (Permᴰ.cons e p) d = rw (e, lookup-Permᴰ k p d.1) refl
  lookup-Permᴰ k (Permᴰ.swap {a = a} {b = b} {l = l} e f) d =
      rw (← e, ← f)
        (ground (
          arith,
          d.0,
          text_eqb_iff a.0 k,
          text_eqb_iff b.0 k,
          text_eqb_iff b.0 a.0,
          text_eqb_iff a.0 b.0,
        ))
  lookup-Permᴰ k (Permᴰ.trans p q) d =
      lookup-Permᴰ k p d ∙ lookup-Permᴰ k q (Distinct-Permᴰ (keys-Permᴰ p) d)

names_with-Permᴰ :
    {m n : Map Text Schema} (test : Schema → Bool)
    → Permᴰ m n
    → Permᴰ (names_with test m) (names_with test n)
unfolding names_with
names_with-Permᴰ test Permᴰ.nil = Permᴰ.nil
names_with-Permᴰ test (Permᴰ.cons {a = a} e p) = elim (Bool-cases (is_generated a.0 && test a.1)) [
  | inl kept ↦ rw (← e, kept) (Permᴰ.cons refl (names_with-Permᴰ test p))
  | inr left ↦ rw (← e, left) (names_with-Permᴰ test p)
]
names_with-Permᴰ test (Permᴰ.swap {a = a} {b = b} {l = l} e f) =
    rw (← e, ← f)
      (elim (Bool-cases (is_generated a.0 && test a.1)) [
        | inl a_kept ↦ elim (Bool-cases (is_generated b.0 && test b.1)) [
          | inl b_kept ↦ rw (a_kept, b_kept) (Permᴰ.swap refl refl)
          | inr b_left ↦ rw (a_kept, b_left) (Permᴰ.refl _)
        ]
        | inr a_left ↦ rw a_left (Permᴰ.refl _)
      ])
names_with-Permᴰ test (Permᴰ.trans p q) =
    Permᴰ.trans (names_with-Permᴰ test p) (names_with-Permᴰ test q)

-- Two maps that look the same.
abbrev Same : Map Text Schema → Map Text Schema → Type 0
Same m n = (k : Text) → lookup k m ≡ lookup k n

deps_of-name :
    (names : List Text) (m n : Map Text Schema) (name : Text)
    → Same m n
    → deps_of names m name ≡ deps_of names n name
unfolding deps_of
deps_of-name names m n name same = rw (deps_of, same name) refl

deps_of-Same :
    (names : List Text) (m n : Map Text Schema) → Same m n → deps_of names m ≡ deps_of names n
deps_of-Same names m n same = λ i name. deps_of-name names m n name same i

search_with : List Text → (Text → List Text) → Option (List Text)
search_with names deps =
    elim (visit_each (visit deps (suc (length names))) names
      (record { visited = []; visiting = []; sorted = [] })) [
        | none ↦ none
        | some s ↦ some s.sorted
      ]

topological_sort-Same :
    (names : List Text) (m n : Map Text Schema)
    → Same m n
    → topological_sort names m ≡ topological_sort names n
unfolding topological_sort search_with
topological_sort-Same names m n same = ap (search_with names) (deps_of-Same names m n same)

emit_types-Same :
    (group : Text → Text) (m n : Map Text Schema) (current : Text) (names : List Text)
    → Same m n
    → emit_types group m current names ≡ emit_types group n current names
unfolding emit_types
emit_types-Same group m n current [] same = refl
emit_types-Same group m n current (name ∷ names) same =
    rw (same name, emit_types-Same group m n (group name) names same) refl

generate_objects-Same :
    (names : List Text) (m n : Map Text Schema) (groups : Map Text Text) (snap : Snapshot)
    → Same m n
    → generate_objects names m groups snap ≡ generate_objects names n groups snap
unfolding generate_objects
generate_objects-Same names m n groups snap same = elim (Option-cases (topological_sort names n)) [
  | inl spent ↦ rw (generate_objects, topological_sort-Same names m n same, spent) refl
  | inr (sorted, ended) ↦
      rw
        (
          generate_objects,
          topological_sort-Same names m n same,
          ended,
          emit_types-Same (group_of groups) m n [] (sort_by (group_of groups) sorted) same,
        )
        refl
]

categorize-Permᴰ : {m n : Map Text Schema} → Permᴰ m n → (categorize m).1 ≡ (categorize n).1
unfolding categorize
categorize-Permᴰ p = sort_texts-Permᴰ (names_with-Permᴰ (λ s. not (is_enum s)) p)

-- The order in which the map of the schemas is ranged over does not matter to the type generator:
-- for the same entries with distinct names in any two orders, and the same paths, the text of the
-- file is the same.
pub generate_types-Permᴰ :
    (m n : Map Text Schema) (paths : Map Text (Map Text (Option Operation))) (snap : Snapshot)
    → Distinct (keys m)
    → Permᴰ m n
    → generate_types (record { schemas = m; paths = paths }) snap
      ≡ generate_types (record { schemas = n; paths = paths }) snap
unfolding generate_types build_schema_groups
generate_types-Permᴰ m n paths snap distinct p =
    generate_objects-Same (categorize m).1 m n
      (build_schema_groups (record { schemas = m; paths = paths })) snap
      (λ k. lookup-Permᴰ k p distinct)
    ∙ ap
        (λ names.
          generate_objects names n (build_schema_groups (record { schemas = n; paths = paths }))
            snap)
        (categorize-Permᴰ p)
