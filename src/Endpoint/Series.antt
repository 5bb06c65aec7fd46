-- ===== src/Endpoint/Series.antt =====
-- series.go: its methods, and the parameters of their queries.
use gokalshi.Base.{ℤ, Bool, [], Text, codes, Map, ◌∷◌, ◌++◌}
use gokalshi.Float.{Float}
use gokalshi.Query.{build_query, string_param, int64_param, bool_param}
use gokalshi.Endpoint.{Endpoint, get_json, path_series}

pub record GetSeriesParams : Type 0 where
  pub include_volume : Bool

unfoldable pub get_series_to_map : GetSeriesParams → Map Text Text
get_series_to_map p = build_query (bool_param (codes "include_volume") p.include_volume ∷ [])

pub record GetSeriesListParams : Type 0 where
  pub category : Text
  pub tags : Text
  pub include_product_metadata : Bool
  pub include_volume : Bool
  pub min_updated_ts : ℤ

unfoldable pub get_series_list_to_map : GetSeriesListParams → Map Text Text
get_series_list_to_map p = build_query (
    string_param (codes "category") p.category
    ∷ string_param (codes "tags") p.tags
    ∷ bool_param (codes "include_product_metadata") p.include_product_metadata
    ∷ bool_param (codes "include_volume") p.include_volume
    ∷ int64_param (codes "min_updated_ts") p.min_updated_ts
    ∷ [])

module _ (float : Float) where
  open float use {F}

  abbrev pub get_series : {B : Type 0} → Text → GetSeriesParams → Endpoint F B
  get_series series_ticker params =
      get_json float (path_series ++ codes "/" ++ series_ticker) (get_series_to_map params)

  abbrev pub get_series_list : {B : Type 0} → GetSeriesListParams → Endpoint F B
  get_series_list params = get_json float path_series (get_series_list_to_map params)
