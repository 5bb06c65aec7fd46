-- ===== src/WsTypes/Fuel.antt =====
-- How much fuel is enough to resolve a type in tools/generate_ws_types/main.go.
use gokalshi.Base.{
  ℕ, zero, suc, ◌<◌, ◌≡◌, refl, Option, some, ◌∷◌, ◌++◌, is_empty, ◌==◌, Text, codes, text_eq, Map,
  lookup, arith, Bool-cases, Option-cases, inl, inr,
}
use gokalshi.Generate.Schema.{Schema, ref_to_name}
use gokalshi.Generate.Resolve.{info_of, lookup_field}
use gokalshi.WsTypes.Tables.{
  ref_type_overrides, shared_schema_names, ws_field_type_overrides, inline_sub_object_names,
}
use gokalshi.WsTypes.Collect.{items_of}
use gokalshi.WsTypes.Resolve.{
  wrapped, additional_of, prefixed, ref_type, has_object, other_item_type, item_type, kind_type,
  step_type, resolve_inner, resolve_type,
}

-- The second schema is looked at on the way to the type of the first.
pub data LooksAt (schemas : Map Text Schema) (s t : Schema) : Type 0 where
  at_wrapped : wrapped s ≡ some t → LooksAt schemas s t
  at_ref : lookup (ref_to_name (info_of s).ref) schemas ≡ some t → LooksAt schemas s t
  at_item : items_of s ≡ some t → LooksAt schemas s t
  at_inner : (i : Schema) → items_of s ≡ some i → items_of i ≡ some t → LooksAt schemas s t
  at_additional : additional_of s ≡ some t → LooksAt schemas s t

-- There is a type.
abbrev pub Ends : Option Text → Type 0
Ends o = (t : Text) × (o ≡ some t)

prefixed-Ends : (p : Text) (o : Option Text) → Ends o → Ends (prefixed p o)
prefixed-Ends p o (t, h) = (p ++ t, rw h refl)

module _ (via : Schema → Option Text) (schemas : Map Text Schema) (inline_name : Option Text) where
  ref_type-Ends :
      (name : Text)
      → ((t : Schema) → lookup name schemas ≡ some t → Ends (via t))
      → Ends (ref_type via schemas inline_name name)
  unfolding ref_type
  ref_type-Ends name ends = elim (Option-cases (lookup name ref_type_overrides)) [
    | inr (o, found) ↦ (o, rw (ref_type, found) refl)
    | inl absent ↦ elim (Option-cases (lookup name shared_schema_names)) [
      | inr (g, shared) ↦ (g, rw (ref_type, absent, shared) refl)
      | inl private ↦ elim (Option-cases (lookup name schemas)) [
        | inr (r, there) ↦ let (t, h) = ends r there in (t, rw (ref_type, absent, private, there) h)
        | inl unknown ↦ (codes "any", rw (ref_type, absent, private, unknown) refl)
      ]
    ]
  ]

  other_item_type-Ends :
      (item : Schema)
      → Ends (via item)
      → ((t : Schema) → items_of item ≡ some t → Ends (via t))
      → Ends (other_item_type via schemas inline_name item)
  unfolding other_item_type
  other_item_type-Ends item own inner = elim (Bool-cases ((info_of item).kind == codes "array")) [
    | inr flat ↦ rw (other_item_type, flat) (prefixed-Ends (codes "[]") (via item) own)
    | inl nested ↦ elim (Option-cases (items_of item)) [
      | inl absent ↦ rw (other_item_type, nested, absent) (codes "[][]any", refl)
      | inr (t, there) ↦
          rw (other_item_type, nested, there) (prefixed-Ends (codes "[][]") (via t) (inner t there))
    ]
  ]

  item_type-Ends :
      (item : Schema)
      → Ends (via item)
      → ((t : Schema) → items_of item ≡ some t → Ends (via t))
      → Ends (item_type via schemas inline_name item)
  unfolding item_type
  item_type-Ends item own inner = elim (Bool-cases (has_object via schemas inline_name item)) [
    | inr plain ↦ rw (item_type, plain) (other_item_type-Ends item own inner)
    | inl object ↦ elim (Option-cases inline_name) [
      | inl unnamed ↦ rw (item_type, object, unnamed) (other_item_type-Ends item own inner)
      | inr (g, named) ↦ rw (item_type, object, named) (codes "[]" ++ g, refl)
    ]
  ]

  kind_type-Ends :
      (s : Schema)
      → ((t : Schema) → LooksAt schemas s t → Ends (via t))
      → Ends (kind_type via schemas inline_name s)
  unfolding kind_type
  kind_type-Ends s ends = elim (Bool-cases ((info_of s).kind == codes "string")) [
    | inl k1 ↦ rw (kind_type, k1) (codes "string", refl)
    | inr n1 ↦ elim (Bool-cases ((info_of s).kind == codes "integer")) [
      | inl k2 ↦ rw (kind_type, n1, k2) (_, refl)
      | inr n2 ↦ elim (Bool-cases ((info_of s).kind == codes "number")) [
        | inl k3 ↦ rw (kind_type, n1, n2, k3) (codes "float64", refl)
        | inr n3 ↦ elim (Bool-cases ((info_of s).kind == codes "boolean")) [
          | inl k4 ↦ rw (kind_type, n1, n2, n3, k4) (codes "bool", refl)
          | inr n4 ↦ elim (Bool-cases ((info_of s).kind == codes "array")) [
            | inl k5 ↦ elim (Option-cases (items_of s)) [
              | inl absent ↦ rw (kind_type, n1, n2, n3, n4, k5, absent) (codes "[]any", refl)
              | inr (i, there) ↦
                  rw (kind_type, n1, n2, n3, n4, k5, there)
                    (item_type-Ends i (ends i (at_item there))
                      (λ t inner. ends t (at_inner i there inner)))
            ]
            | inr n5 ↦ elim (Bool-cases ((info_of s).kind == codes "object")) [
              | inr n6 ↦ rw (kind_type, n1, n2, n3, n4, n5, n6) (codes "any", refl)
              | inl k6 ↦ elim (Option-cases (additional_of s)) [
                | inl absent ↦
                    rw (kind_type, n1, n2, n3, n4, n5, k6, absent) (codes "map[string]any", refl)
                | inr (a, there) ↦
                    rw (kind_type, n1, n2, n3, n4, n5, k6, there)
                      (prefixed-Ends (codes "map[string]") (via a) (ends a (at_additional there)))
              ]
            ]
          ]
        ]
      ]
    ]
  ]

  step_type-Ends :
      (s : Schema)
      → ((t : Schema) → LooksAt schemas s t → Ends (via t))
      → Ends (step_type via schemas inline_name s)
  unfolding step_type
  step_type-Ends s ends = elim (Option-cases (wrapped s)) [
    | inr (t, inside) ↦ rw (step_type, inside) (ends t (at_wrapped inside))
    | inl bare ↦ elim (Bool-cases (is_empty (info_of s).ref)) [
      | inr refers ↦
          rw (step_type, bare, refers)
            (ref_type-Ends (ref_to_name (info_of s).ref) (λ t there. ends t (at_ref there)))
      | inl own ↦ elim (Bool-cases (has_object via schemas inline_name s)) [
        | inr plain ↦ rw (step_type, bare, own, plain) (kind_type-Ends s ends)
        | inl object ↦ elim (Option-cases inline_name) [
          | inl unnamed ↦ rw (step_type, bare, own, object, unnamed) (codes "map[string]any", refl)
          | inr (g, named) ↦ rw (step_type, bare, own, object, named) (b'*' ∷ g, refl)
        ]
      ]
    ]
  ]

-- What is looked at has a lower rank: no reference leads back to itself.
unfoldable pub IsRanked : Map Text Schema → (Schema → ℕ) → Type 0
IsRanked schemas rank = (s t : Schema) → LooksAt schemas s t → rank t < rank s

resolve_inner-Ends :
    (schemas : Map Text Schema) (inline_name : Option Text) (rank : Schema → ℕ) (fuel : ℕ)
    (s : Schema)
    → IsRanked schemas rank
    → rank s < fuel
    → Ends (resolve_inner schemas inline_name fuel s)
unfolding resolve_inner IsRanked
resolve_inner-Ends schemas inline_name rank zero s ranked small = absurd (omega (arith, small))
resolve_inner-Ends schemas inline_name rank (suc fuel) s ranked small =
    step_type-Ends (resolve_inner schemas inline_name fuel) schemas inline_name s (λ t looked.
      let lower : rank t < rank s = ranked s t looked in
      resolve_inner-Ends schemas inline_name rank fuel t ranked (omega (arith, lower, small)))

pub resolve_type-ends :
    (schemas : Map Text Schema) (rank : Schema → ℕ) (fuel : ℕ) (struct_name field_name : Text)
    (s : Schema)
    → IsRanked schemas rank
    → rank s < fuel
    → (t : Text) × (resolve_type schemas fuel struct_name field_name s ≡ some t)
unfolding resolve_type
resolve_type-ends schemas rank fuel struct_name field_name s ranked small =
    elim (Option-cases (lookup_field struct_name field_name ws_field_type_overrides)) [
      | inr (t, overridden) ↦ (t, rw (resolve_type, overridden) refl)
      | inl free ↦
          rw (resolve_type, free)
            (resolve_inner-Ends schemas
              (lookup_field struct_name field_name inline_sub_object_names) rank fuel s ranked
              small)
    ]
