-- ===== src/EndpointCost/LiteralWins.antt =====
-- Routes without placeholders next to routes with them, in the sorted table of endpoint_cost.go.
use mathlib.Core.Option
use mathlib.Core.List.{Memᴰ}
use gokalshi.Base.{
  ◌≤◌, ◌≡◌, refl, sym, ap, ◌∙◌, true, false, inl, inr, some, List, [], ◌∷◌, arith, Option-cases,
  Text, text_eq, text_eqb_iff, All, to_upper,
}
use gokalshi.EndpointCost.{CostRoute, count_literals, split_path, matches, sort_routes, lookup_cost}
use gokalshi.EndpointCost.Matching.{
  Describes, segments_match-Describes, IsLiteral, HasFinalWildcard, Describes-literal,
  IsLiteral-Describes,
}
use gokalshi.EndpointCost.Lookup.{best, best-none, best-All, best-greatest, lookup_cost-sort_routes}

all_of_mem {ℓ κ} : {A : Type ℓ} (P : A → Type κ) {a : A} (xs : List A) → Memᴰ a xs → All P xs → P a
all_of_mem P [] m h = elim m [ ]
all_of_mem P (x ∷ xs) (Memᴰ.head e) h = rw e (h.0)
all_of_mem P (x ∷ xs) (Memᴰ.tail m) h = all_of_mem P xs m h.1

All-by_mem {ℓ κ} :
    {A : Type ℓ} (P : A → Type κ) (xs : List A) → ((a : A) → Memᴰ a xs → P a) → All P xs
All-by_mem P [] h = tt
All-by_mem P (x ∷ xs) h = (h x (Memᴰ.head refl), All-by_mem P xs (λ a m. h a (Memᴰ.tail m)))

module _ {F : Type 0} where
  -- The routes are as `new_cost_route` counts them, and a wildcard only ends a path.
  pub record IsRoute (r : CostRoute F) : Type 0 where
    pub counted : r.literals ≡ count_literals r.segments
    pub final : HasFinalWildcard r.segments

  matches-Describes :
      (r : CostRoute F) (method path : Text)
      → matches r method path ≡ true
      → (r.method ≡ to_upper method) × Describes r.segments (split_path path)
  unfolding matches
  matches-Describes r method path h = (
    ground (arith, text_eqb_iff r.method (to_upper method)),
    (segments_match-Describes r.segments (split_path path)).0 (ground arith),
  )

  -- If every route of the table counts its literals and has a wildcard at most at its end, and the
  -- table has a route with no placeholder that matches the request, then the request is billed by a
  -- route of the table, for its method, whose segments are those of its path and no placeholders:
  -- never by one with a placeholder, in whatever order the server sent the routes.
  pub bare_route_wins :
      (rs : List (CostRoute F)) (r : CostRoute F) (method path : Text)
      → All IsRoute rs
      → Memᴰ r rs
      → IsLiteral r.segments
      → matches r method path ≡ true
      → (s : CostRoute F) × (lookup_cost (sort_routes rs) method path ≡ some s.cost)
        × Memᴰ s rs
        × (s.method ≡ to_upper method)
        × (s.segments ≡ split_path path)
        × IsLiteral s.segments
  bare_route_wins rs r method path ok mem literal h =
      elim (Option-cases (best (λ s. matches s method path) rs)) [
        | inl missed ↦ absurd (
            cc (
              h,
              all_of_mem (λ s. matches s method path ≡ false) rs mem
                  (best-none (λ s. matches s method path) rs missed),
            ))
        | inr (s, found) ↦
            let (hit, bound) = best-greatest (λ s. matches s method path) rs s found in
            let s_ok = best-All IsRoute (λ s. matches s method path) rs s ok found in
            let r_ok = all_of_mem IsRoute rs mem ok in
            let (same_method, described) = matches-Describes s method path hit in
            let r_count = IsLiteral-Describes (matches-Describes r method path h).1 literal in
            let r_least =
              all_of_mem (λ t. matches t method path ≡ true → t.literals ≤ s.literals) rs mem bound
                h in
            let same_path =
              Describes-literal described s_ok.final
                (omega (arith, r_least, r_ok.counted, s_ok.counted, r_count.1)) in
            let r_path =
              Describes-literal (matches-Describes r method path h).1 r_ok.final
                (omega (arith, r_ok.counted, r_count.1)) in
            (
              s,
              lookup_cost-sort_routes rs method path
                  ∙ ap (Option.map (λ (t : CostRoute F). t.cost)) found,
              best-All (λ t. Memᴰ t rs) (λ t. matches t method path) rs s
                  (All-by_mem (λ t. Memᴰ t rs) rs (λ t m. m)) found,
              same_method,
              same_path,
              rw (same_path ∙ sym r_path) literal,
            )
      ]
