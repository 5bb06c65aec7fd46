-- ===== src/EndpointCost/Tests.antt =====
-- The endpoint costs at concrete inputs.
use mathlib.Core.Option
use mathlib.Core.List.{Memᴰ}
use gokalshi.Base.{
  ℕ, ◌≡◌, ◌↔◌, refl, true, false, some, List, [], ◌∷◌, Text, codes, All, join, trim, to_upper,
  split, drop_left, push_front, text_eqb, has_prefix, has_suffix, arith,
}
use gokalshi.EndpointCost.{
  CostRoute, split_path, is_path_placeholder, is_trailing_wildcard, segments_match, matches,
  sort_routes, lookup_cost, count_literals,
}
use gokalshi.EndpointCost.Matching.{IsLiteral, Describes, segments_match-Describes}
use gokalshi.EndpointCost.Lookup.{best, lookup_cost-sort_routes}
use gokalshi.EndpointCost.LiteralWins.{bare_route_wins}
use gokalshi.EndpointCost.Paths.{Lacks, join-split_path, split_path-join}

placeholder_tests :
    (is_path_placeholder (codes ":id") ≡ true)
    × (is_path_placeholder (codes "{id}") ≡ true)
    × (is_path_placeholder (codes "orders") ≡ false)
    × (is_trailing_wildcard (codes "*rest") ≡ true)
unfolding is_path_placeholder is_trailing_wildcard has_prefix has_suffix
placeholder_tests = (refl, refl, refl, refl)

-- An empty segment in the middle of a path stays.
empty_segment_test : split_path (codes "a//b") ≡ codes "a" ∷ [] ∷ codes "b" ∷ []
unfolding split_path trim drop_left split push_front
empty_segment_test = refl

abbrev orders : List Text
orders = codes "orders" ∷ codes "batched" ∷ []

abbrev by_id : List Text
by_id = codes "orders" ∷ codes ":id" ∷ []

segments_match-Describes_example : (segments_match by_id orders ≡ true) ↔ Describes by_id orders
segments_match-Describes_example = segments_match-Describes by_id orders

abbrev batched_route : CostRoute ℕ
batched_route = record {
  method = codes "DELETE";
  segments = orders;
  cost = 3;
  literals = 2;
  raw_path = codes "orders/batched";
}

abbrev id_route : CostRoute ℕ
id_route = record {
  method = codes "DELETE";
  segments = by_id;
  cost = 2;
  literals = 1;
  raw_path = codes "orders/:id";
}

abbrev table : List (CostRoute ℕ)
table = id_route ∷ batched_route ∷ []

lookup_cost-sort_routes_example :
    lookup_cost (sort_routes table) (codes "DELETE") (codes "/orders/batched")
    ≡ Option.map
        (λ r. r.cost)
        (best (λ r. matches r (codes "DELETE") (codes "/orders/batched")) table)
lookup_cost-sort_routes_example =
    lookup_cost-sort_routes table (codes "DELETE") (codes "/orders/batched")

bare_route_wins_example :
    (s : CostRoute ℕ) × (lookup_cost (sort_routes table) (codes "DELETE") (codes "/orders/batched")
      ≡ some s.cost)
    × Memᴰ s table
    × (s.method ≡ to_upper (codes "DELETE"))
    × (s.segments ≡ split_path (codes "/orders/batched"))
    × IsLiteral s.segments
unfolding is_path_placeholder count_literals matches segments_match split_path trim drop_left split
    push_front text_eqb has_prefix has_suffix is_trailing_wildcard to_upper
bare_route_wins_example =
    bare_route_wins table batched_route (codes "DELETE") (codes "/orders/batched")
      (
        record { counted = refl; final = (refl, tt) },
        (record { counted = refl; final = (refl, tt) }, tt),
      )
      (Memᴰ.tail (Memᴰ.head refl)) (refl, (refl, tt)) refl

join-split_path_test :
    All (Lacks b'/') (split_path (codes "/a/b/"))
    × (join b'/' (split_path (codes "/a/b/")) ≡ trim b'/' (codes "/a/b/"))
join-split_path_test = join-split_path (codes "/a/b/")

split_path-join_test :
    split_path (b'/' ∷ join b'/' (codes "a" ∷ codes "b" ∷ [])) ≡ codes "a" ∷ codes "b" ∷ []
split_path-join_test =
    split_path-join (codes "a") (codes "b" ∷ [])
      ((λ e. cc, (λ e. ground arith, tt)), ((λ e. cc, (λ e. ground arith, tt)), tt))
