-- ===== src/WsTypes/Depth.antt =====
-- The depth of a schema, which ranks the schemas of tools/generate_ws_types/main.go that refer to no other.
use gokalshi.Base.{ℕ, suc, ◌+◌, ◌<◌, ◌≡◌, some, [], lookup, arith}
use gokalshi.Generate.Schema.{Schema, schema, Pointer, nil, to, Schemas, no_schemas, and_schema}
use gokalshi.WsTypes.Collect.{items_of}
use gokalshi.WsTypes.Resolve.{wrapped, additional_of}
use gokalshi.WsTypes.Fuel.{at_wrapped, at_ref, at_item, at_inner, at_additional, IsRanked}

unfoldable mutual
  pub depth : Schema → ℕ
  depth (schema info props items all_of additional) =
      suc (pointer_depth items + depth_of_all all_of + pointer_depth additional)

  pub pointer_depth : Pointer → ℕ
  pointer_depth nil = 0
  pointer_depth (to s) = depth s

  pub depth_of_all : Schemas → ℕ
  depth_of_all no_schemas = 0
  depth_of_all (and_schema s rest) = depth s + depth_of_all rest

items_of-depth : (s t : Schema) → items_of s ≡ some t → depth t < depth s
unfolding depth
items_of-depth (schema info props nil all_of additional) t h = cc
items_of-depth (schema info props (to i) all_of additional) t h =
    let same : i ≡ t = cc in rw (← same) (omega arith)

additional_of-depth : (s t : Schema) → additional_of s ≡ some t → depth t < depth s
unfolding depth
additional_of-depth (schema info props items all_of nil) t h = cc
additional_of-depth (schema info props items all_of (to a)) t h =
    let same : a ≡ t = cc in rw (← same) (omega arith)

wrapped-depth : (s t : Schema) → wrapped s ≡ some t → depth t < depth s
unfolding depth
wrapped-depth (schema info props items no_schemas additional) t h = cc
wrapped-depth (schema info props items (and_schema i no_schemas) additional) t h =
    let same : i ≡ t = cc in rw (← same) (omega arith)
wrapped-depth (schema info props items (and_schema i (and_schema j rest)) additional) t h = cc

pub depth-IsRanked : IsRanked [] depth
unfolding IsRanked lookup
depth-IsRanked s t (at_wrapped h) = wrapped-depth s t h
depth-IsRanked s t (at_ref h) = cc
depth-IsRanked s t (at_item h) = items_of-depth s t h
depth-IsRanked s t (at_inner i h k) =
    let upper = items_of-depth s i h in
    let lower = items_of-depth i t k in omega (arith, upper, lower)
depth-IsRanked s t (at_additional h) = additional_of-depth s t h
