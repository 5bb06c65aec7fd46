-- ===== src/EndpointCost.antt =====
-- endpoint_cost.go: the table of endpoint costs, prepared for matching against request paths.
-- `sort_routes` and `lookup_cost` are the sort in `ConfigureRateLimits` and the method of client.go.
-- Costs are of any type: only their place in the table matters here.
pub mod Matching
pub mod Lookup
pub mod LiteralWins
pub mod Paths
mod Tests
use gokalshi.Base.{
  ℕ, zero, suc, ◌+◌, ◌≡◌, Bool, true, false, ◌&&◌, ◌||◌, not, Option, none, some, List, [], ◌∷◌,
  ◌++◌, if◌then◌else◌, ◌==◌, nat_eq, is_empty, keep, ltb, Text, codes, text_eq, has_prefix,
  has_suffix, to_upper, trim, split, length,
}

unfoldable pub split_path : Text → List Text
unfolding trim split
split_path path =
    let trimmed = trim b'/' path in if is_empty trimmed then [] else split b'/' trimmed

-- The first byte of the segment is one of the markers.
abbrev is_marked : Text → Bool
is_marked [] = false
is_marked (c ∷ s) = c == b':' || c == b'*' || c == b'$'

unfoldable pub is_path_placeholder : Text → Bool
unfolding has_prefix has_suffix
is_path_placeholder segment =
    is_marked segment
    || (has_prefix (codes "{") segment && has_suffix (codes "}") segment)
    || (has_prefix (codes "<") segment && has_suffix (codes ">") segment)

unfoldable pub is_trailing_wildcard : Text → Bool
unfolding has_prefix
is_trailing_wildcard segment = has_prefix (codes "*") segment

pub record CostRoute (F : Type 0) : Type 0 where
  pub method : Text
  pub segments : List Text
  pub cost : F
  pub literals : ℕ
  pub raw_path : Text

unfoldable pub count_literals : List Text → ℕ
unfolding is_path_placeholder
count_literals [] = 0
count_literals (seg ∷ segs) =
    let rest = count_literals segs in if is_path_placeholder seg then rest else suc rest

abbrev full_path : Text → Text
full_path path =
    if has_prefix (codes "/trade-api") path then path else codes "/trade-api/v2" ++ path

-- `segmentsMatch`: `actual` is what is left of the request's segments at the pattern's place.
unfoldable pub segments_match : List Text → List Text → Bool
segments_match [] actual = is_empty actual
segments_match (want ∷ pattern) [] = false
segments_match (want ∷ pattern) (segment ∷ actual) =
    let rest = segments_match pattern actual in
    if is_trailing_wildcard want
    then true
    else if is_path_placeholder want
    then rest
    else if want == segment
    then rest
    else false

unfoldable pub suspect_unmarked_placeholder : Text → Bool
suspect_unmarked_placeholder segment =
    if is_path_placeholder segment
    then false
    else segment == codes "id" || has_suffix (codes "_id") segment

module _ {F : Type 0} where
  unfoldable pub new_cost_route : Text → Text → F → CostRoute F
  unfolding split_path count_literals to_upper has_prefix
  new_cost_route method path cost = record {
    method = to_upper method;
    segments = split_path (full_path path);
    cost = cost;
    literals = count_literals (split_path (full_path path));
    raw_path = full_path path;
  }

  unfoldable pub matches : CostRoute F → Text → Text → Bool
  matches r method path =
      if r.method == to_upper method then segments_match r.segments (split_path path) else false

  unfoldable pub suspicious_segments : CostRoute F → List Text
  suspicious_segments r = keep suspect_unmarked_placeholder r.segments

  insert_route : CostRoute F → List (CostRoute F) → List (CostRoute F)
  insert_route r [] = r ∷ []
  insert_route r (s ∷ ss) = if ltb r.literals s.literals then s ∷ insert_route r ss else r ∷ s ∷ ss

  -- `sort.SliceStable` by the number of literals, most first.
  unfoldable pub sort_routes : List (CostRoute F) → List (CostRoute F)
  unfolding insert_route
  sort_routes [] = []
  sort_routes (r ∷ rs) = insert_route r (sort_routes rs)

  unfoldable pub lookup_cost : List (CostRoute F) → Text → Text → Option F
  unfolding matches
  lookup_cost [] method path = none
  lookup_cost (r ∷ rs) method path =
      if matches r method path then some r.cost else lookup_cost rs method path
