-- ===== src/EndpointCost/Lookup.antt =====
-- Which entry of the table of endpoint_cost.go a request is billed by.
use mathlib.Core.Option
use gokalshi.Base.{
  ℕ, ◌+◌, ◌≤◌, ◌≡◌, refl, ap, ◌∙◌, Bool, true, false, inl, inr, Option, none, some, List, [], ◌∷◌,
  arith, Bool-cases, Option-cases, Text, text_eq, if◌then◌else◌, ltb, All,
}
use gokalshi.EndpointCost.{CostRoute, matches, insert_route, sort_routes, lookup_cost}

module _ {F : Type 0} where
  -- The later of two routes wins only if it has more literals.
  abbrev pub prefer : CostRoute F → Option (CostRoute F) → Option (CostRoute F)
  prefer r none = some r
  prefer r (some s) = if ltb r.literals s.literals then some s else some r

  -- The first of the routes with the most literals, among those that pass the test.
  pub best : (CostRoute F → Bool) → List (CostRoute F) → Option (CostRoute F)
  best test [] = none
  best test (r ∷ rs) = let rest = best test rs in if test r then prefer r rest else rest

  -- The first route that passes the test.
  first : (CostRoute F → Bool) → List (CostRoute F) → Option (CostRoute F)
  first test [] = none
  first test (r ∷ rs) = if test r then some r else first test rs

  -- Every route that is found has at most so many literals.
  abbrev AtMost : ℕ → List (CostRoute F) → Type 0
  AtMost n [] = Unit
  AtMost n (r ∷ rs) = (r.literals ≤ n) × AtMost r.literals rs

  AtMost-mono : {m n : ℕ} (rs : List (CostRoute F)) → m ≤ n → AtMost m rs → AtMost n rs
  AtMost-mono [] h a = tt
  AtMost-mono (r ∷ rs) h a = (omega arith, a.1)

  insert_route-AtMost :
      (n : ℕ) (r : CostRoute F) (rs : List (CostRoute F))
      → r.literals ≤ n
      → AtMost n rs
      → AtMost n (insert_route r rs)
  unfolding insert_route
  insert_route-AtMost n r [] h a = (h, tt)
  insert_route-AtMost n r (s ∷ rs) h a = ground (arith, insert_route-AtMost s.literals r rs)

  first-le :
      (test : CostRoute F → Bool) (n : ℕ) (rs : List (CostRoute F)) {r : CostRoute F}
      → AtMost n rs
      → first test rs ≡ some r
      → r.literals ≤ n
  unfolding first
  first-le test n [] a e = cc
  first-le test n (s ∷ rs) {r} a e = ground (arith, first-le test s.literals rs {r = r})

  first-insert_route :
      (test : CostRoute F → Bool) (n : ℕ) (r : CostRoute F) (rs : List (CostRoute F))
      → AtMost n rs
      → first test (insert_route r rs)
        ≡ (if test r then prefer r (first test rs) else first test rs)
  unfolding first insert_route
  first-insert_route test n r [] a = ground arith
  first-insert_route test n r (s ∷ rs) a = elim (Option-cases (first test rs)) [
    | inl missed ↦ ground (arith, missed, first-insert_route test s.literals r rs a.1)
    | inr (t, found) ↦ ground (
      arith,
      found,
      first-le test s.literals rs {r = t} a.1 found,
      first-insert_route test s.literals r rs a.1,
    )
  ]

  highest : List (CostRoute F) → ℕ
  highest [] = 0
  highest (r ∷ rs) = r.literals + highest rs

  sort_routes-AtMost : (rs : List (CostRoute F)) → AtMost (highest rs) (sort_routes rs)
  unfolding sort_routes highest
  sort_routes-AtMost [] = tt
  sort_routes-AtMost (r ∷ rs) =
      insert_route-AtMost (r.literals + highest rs) r (sort_routes rs) (omega arith)
        (AtMost-mono (sort_routes rs) (omega arith) (sort_routes-AtMost rs))

  first-sort_routes :
      (test : CostRoute F → Bool) (rs : List (CostRoute F))
      → first test (sort_routes rs) ≡ best test rs
  unfolding sort_routes first best
  first-sort_routes test [] = refl
  first-sort_routes test (r ∷ rs) =
      first-insert_route test (highest rs) r (sort_routes rs) (sort_routes-AtMost rs)
      ∙ rw (first-sort_routes test rs)

  lookup_cost-first :
      (rs : List (CostRoute F)) (method path : Text)
      → lookup_cost rs method path
        ≡ Option.map (λ r. r.cost) (first (λ r. matches r method path) rs)
  unfolding lookup_cost first
  lookup_cost-first [] method path = refl
  lookup_cost-first (r ∷ rs) method path = ground (arith, lookup_cost-first rs method path)

  -- Looking a request up in the sorted table gives the cost of the best route of the table in the
  -- order in which the server sent it: among the routes that match, the first of those with the
  -- most literals; and nothing if none matches.
  pub lookup_cost-sort_routes :
      (rs : List (CostRoute F)) (method path : Text)
      → lookup_cost (sort_routes rs) method path
        ≡ Option.map (λ r. r.cost) (best (λ r. matches r method path) rs)
  lookup_cost-sort_routes rs method path =
      lookup_cost-first (sort_routes rs) method path
      ∙ ap (Option.map (λ r. r.cost)) (first-sort_routes (λ r. matches r method path) rs)

  -- What every route that passes has at most.
  abbrev pub Bounded : (CostRoute F → Bool) → ℕ → List (CostRoute F) → Type 0
  Bounded test n rs = All (λ s. test s ≡ true → s.literals ≤ n) rs

  Bounded-mono :
      (test : CostRoute F → Bool) {m n : ℕ} (rs : List (CostRoute F))
      → m ≤ n
      → Bounded test m rs
      → Bounded test n rs
  Bounded-mono test [] h b = tt
  Bounded-mono test (s ∷ rs) h b = (λ p. omega (arith, b.0 p), Bounded-mono test rs h b.1)

  pub best-none :
      (test : CostRoute F → Bool) (rs : List (CostRoute F))
      → best test rs ≡ none
      → All (λ s. test s ≡ false) rs
  unfolding best
  best-none test [] e = tt
  best-none test (s ∷ rs) e = elim (Option-cases (best test rs)) [
    | inl missed ↦ (ground arith, best-none test rs missed)
    | inr (t, found) ↦ absurd (ground arith)
  ]

  pub best-All {κ} :
      (P : CostRoute F → Type κ) (test : CostRoute F → Bool) (rs : List (CostRoute F))
      (r : CostRoute F)
      → All P rs
      → best test rs ≡ some r
      → P r
  unfolding best
  best-All P test [] r h e = cc
  best-All P test (s ∷ rs) r h e = elim (Bool-cases (test s)) [
    | inr fails ↦ best-All P test rs r h.1 (ground arith)
    | inl passes ↦ elim (Option-cases (best test rs)) [
      | inl missed ↦ let same : s ≡ r = ground arith in rw same at h.0
      | inr (t, found) ↦ elim (Bool-cases (ltb s.literals t.literals)) [
        | inl more ↦ let same : t ≡ r = ground arith in rw same at (best-All P test rs t h.1 found)
        | inr fewer ↦ let same : s ≡ r = ground arith in rw same at h.0
      ]
    ]
  ]

  nothing-Bounded :
      (test : CostRoute F → Bool) (n : ℕ) (rs : List (CostRoute F))
      → All (λ s. test s ≡ false) rs
      → Bounded test n rs
  nothing-Bounded test n [] h = tt
  nothing-Bounded test n (s ∷ rs) h = (λ p. cc (h.0), nothing-Bounded test n rs h.1)

  -- The best route passes, and none that passes has more literals.
  pub best-greatest :
      (test : CostRoute F → Bool) (rs : List (CostRoute F)) (r : CostRoute F)
      → best test rs ≡ some r
      → (test r ≡ true) × All (λ s. test s ≡ true → s.literals ≤ r.literals) rs
  unfolding best
  best-greatest test [] r e = cc
  best-greatest test (s ∷ rs) r e = elim (Bool-cases (test s)) [
    | inr fails ↦
        let (passes, bound) = best-greatest test rs r (ground arith) in (passes, (λ p. cc, bound))
    | inl passes ↦ elim (Option-cases (best test rs)) [
      | inl missed ↦
          let same : s ≡ r = ground arith in
          (
            rw (← same) passes,
            (λ p. ground arith, nothing-Bounded test r.literals rs (best-none test rs missed)),
          )
      | inr (t, found) ↦
          let (t_passes, bound) = best-greatest test rs t found in
          elim (Bool-cases (ltb s.literals t.literals)) [
            | inl more ↦
                let same : t ≡ r = ground arith in
                let lits = ap (λ (x : CostRoute F). x.literals) same in
                (
                  rw (← same) t_passes,
                  (
                    λ p. ground arith,
                    Bounded-mono test {m = t.literals} rs (omega (arith, lits)) bound,
                  ),
                )
            | inr fewer ↦
                let same : s ≡ r = ground arith in
                let lits = ap (λ (x : CostRoute F). x.literals) same in
                (
                  rw (← same) passes,
                  (
                    λ p. ground arith,
                    Bounded-mono test {m = t.literals} rs (ground (arith, lits)) bound,
                  ),
                )
          ]
    ]
  ]
