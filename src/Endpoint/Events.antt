-- ===== src/Endpoint/Events.antt =====
-- events.go: its methods, and the parameters of their queries.
use gokalshi.Base.{ℤ, Bool, [], Text, codes, Map, ◌∷◌, ◌++◌}
use gokalshi.Float.{Float}
use gokalshi.Query.{build_query, string_param, int_param, int64_param, bool_param}
use gokalshi.Endpoint.{Endpoint, get_json, path_events}

pub record GetEventParams : Type 0 where
  pub with_nested_markets : Bool

unfoldable pub get_event_to_map : GetEventParams → Map Text Text
get_event_to_map p =
    build_query (bool_param (codes "with_nested_markets") p.with_nested_markets ∷ [])

pub record GetEventsParams : Type 0 where
  pub limit : ℤ
  pub cursor : Text
  pub with_nested_markets : Bool
  pub with_milestones : Bool
  pub status : Text
  pub series_ticker : Text
  pub min_close_ts : ℤ
  pub min_updated_ts : ℤ

unfoldable pub get_events_to_map : GetEventsParams → Map Text Text
get_events_to_map p = build_query (
    int_param (codes "limit") p.limit
    ∷ string_param (codes "cursor") p.cursor
    ∷ bool_param (codes "with_nested_markets") p.with_nested_markets
    ∷ bool_param (codes "with_milestones") p.with_milestones
    ∷ string_param (codes "status") p.status
    ∷ string_param (codes "series_ticker") p.series_ticker
    ∷ int64_param (codes "min_close_ts") p.min_close_ts
    ∷ int64_param (codes "min_updated_ts") p.min_updated_ts
    ∷ [])

pub record GetMultivariateEventsParams : Type 0 where
  pub limit : ℤ
  pub cursor : Text
  pub series_ticker : Text
  pub collection_ticker : Text
  pub with_nested_markets : Bool

unfoldable pub get_multivariate_events_to_map : GetMultivariateEventsParams → Map Text Text
get_multivariate_events_to_map p = build_query (
    int_param (codes "limit") p.limit
    ∷ string_param (codes "cursor") p.cursor
    ∷ string_param (codes "series_ticker") p.series_ticker
    ∷ string_param (codes "collection_ticker") p.collection_ticker
    ∷ bool_param (codes "with_nested_markets") p.with_nested_markets
    ∷ [])

pub record GetEventCandlesticksParams : Type 0 where
  pub start_ts : ℤ
  pub end_ts : ℤ
  pub period_interval : ℤ

unfoldable pub get_event_candlesticks_to_map : GetEventCandlesticksParams → Map Text Text
get_event_candlesticks_to_map p = build_query (
    int64_param (codes "start_ts") p.start_ts
    ∷ int64_param (codes "end_ts") p.end_ts
    ∷ int_param (codes "period_interval") p.period_interval
    ∷ [])

pub record GetEventForecastPercentileHistoryParams : Type 0 where
  pub percentiles : Text
  pub start_ts : ℤ
  pub end_ts : ℤ
  pub period_interval : ℤ

unfoldable pub get_event_forecast_percentile_history_to_map :
    GetEventForecastPercentileHistoryParams → Map Text Text
get_event_forecast_percentile_history_to_map p = build_query (
    string_param (codes "percentiles") p.percentiles
    ∷ int64_param (codes "start_ts") p.start_ts
    ∷ int64_param (codes "end_ts") p.end_ts
    ∷ int_param (codes "period_interval") p.period_interval
    ∷ [])

pub record GetEventFeeChangesParams : Type 0 where
  pub event_ticker : Text
  pub limit : ℤ
  pub cursor : Text

unfoldable pub get_event_fee_changes_to_map : GetEventFeeChangesParams → Map Text Text
get_event_fee_changes_to_map p = build_query (
    string_param (codes "event_ticker") p.event_ticker
    ∷ int_param (codes "limit") p.limit
    ∷ string_param (codes "cursor") p.cursor
    ∷ [])

module _ (float : Float) where
  open float use {F}

  abbrev pub get_event : {B : Type 0} → Text → GetEventParams → Endpoint F B
  get_event event_ticker params =
      get_json float (path_events ++ codes "/" ++ event_ticker) (get_event_to_map params)

  abbrev pub get_events : {B : Type 0} → GetEventsParams → Endpoint F B
  get_events params = get_json float path_events (get_events_to_map params)

  abbrev pub get_event_metadata : {B : Type 0} → Text → Endpoint F B
  get_event_metadata event_ticker =
      get_json float (path_events ++ codes "/" ++ event_ticker ++ codes "/metadata") []

  abbrev pub get_multivariate_events : {B : Type 0} → GetMultivariateEventsParams → Endpoint F B
  get_multivariate_events params =
      get_json float (path_events ++ codes "/multivariate") (get_multivariate_events_to_map params)

  abbrev pub get_event_candlesticks :
      {B : Type 0} → Text → Text → GetEventCandlesticksParams → Endpoint F B
  get_event_candlesticks series_ticker event_ticker params =
      get_json float
        (codes "/trade-api/v2/series/"
          ++ series_ticker
          ++ codes "/events/"
          ++ event_ticker
          ++ codes "/candlesticks")
        (get_event_candlesticks_to_map params)

  abbrev pub get_event_forecast_percentile_history :
      {B : Type 0} → Text → Text → GetEventForecastPercentileHistoryParams → Endpoint F B
  get_event_forecast_percentile_history series_ticker event_ticker params =
      get_json float
        (codes "/trade-api/v2/series/"
          ++ series_ticker
          ++ codes "/events/"
          ++ event_ticker
          ++ codes "/forecast_percentile_history")
        (get_event_forecast_percentile_history_to_map params)

  abbrev pub get_event_fee_changes : {B : Type 0} → GetEventFeeChangesParams → Endpoint F B
  get_event_fee_changes params =
      get_json float (path_events ++ codes "/fee_changes") (get_event_fee_changes_to_map params)
