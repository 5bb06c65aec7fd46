-- ===== src/Endpoint/Exchange.antt =====
-- exchange.go: its methods, and the parameters of their queries.
use gokalshi.Base.{Bool, [], Text, codes, Map, ◌∷◌, ◌++◌}
use gokalshi.Float.{Float}
use gokalshi.Query.{build_query, string_param, bool_param}
use gokalshi.Endpoint.{Endpoint, get_json, path_exchange, path_series}

pub record GetSeriesFeeChangesParams : Type 0 where
  pub series_ticker : Text
  pub show_historical : Bool

unfoldable pub get_series_fee_changes_to_map : GetSeriesFeeChangesParams → Map Text Text
get_series_fee_changes_to_map p = build_query (
    string_param (codes "series_ticker") p.series_ticker
    ∷ bool_param (codes "show_historical") p.show_historical
    ∷ [])

module _ (float : Float) where
  open float use {F}

  abbrev pub get_exchange_status : {B : Type 0} → Endpoint F B
  get_exchange_status = get_json float (path_exchange ++ codes "/status") []

  abbrev pub get_exchange_schedule : {B : Type 0} → Endpoint F B
  get_exchange_schedule = get_json float (path_exchange ++ codes "/schedule") []

  abbrev pub get_user_data_timestamp : {B : Type 0} → Endpoint F B
  get_user_data_timestamp = get_json float (path_exchange ++ codes "/user_data_timestamp") []

  abbrev pub get_series_fee_changes : {B : Type 0} → GetSeriesFeeChangesParams → Endpoint F B
  get_series_fee_changes params =
      get_json float (path_series ++ codes "/fee_changes") (get_series_fee_changes_to_map params)
