-- ===== src/Endpoint/MveCollections.antt =====
-- mve_collections.go: its methods, and the parameters of their queries.
use gokalshi.Base.{ℤ, some, [], Text, codes, Map, ◌∷◌, ◌++◌}
use gokalshi.Float.{Float}
use gokalshi.Query.{build_query, string_param, int_param}
use gokalshi.Endpoint.{Endpoint, get_json, post_json, path_mve_collections}

pub record GetMultivariateEventCollectionsParams : Type 0 where
  pub cursor : Text
  pub limit : ℤ

unfoldable pub get_multivariate_event_collections_to_map :
    GetMultivariateEventCollectionsParams → Map Text Text
get_multivariate_event_collections_to_map p =
    build_query (string_param (codes "cursor") p.cursor ∷ int_param (codes "limit") p.limit ∷ [])

module _ (float : Float) where
  open float use {F}

  abbrev pub get_multivariate_event_collections :
      {B : Type 0} → GetMultivariateEventCollectionsParams → Endpoint F B
  get_multivariate_event_collections params =
      get_json float path_mve_collections (get_multivariate_event_collections_to_map params)

  abbrev pub get_multivariate_event_collection : {B : Type 0} → Text → Endpoint F B
  get_multivariate_event_collection collection_ticker =
      get_json float (path_mve_collections ++ codes "/" ++ collection_ticker) []

  abbrev pub create_market_in_multivariate_event_collection : {B : Type 0} → Text → B → Endpoint F B
  create_market_in_multivariate_event_collection collection_ticker req =
      post_json float (path_mve_collections ++ codes "/" ++ collection_ticker) (some req) 10
