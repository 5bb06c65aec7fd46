-- ===== src/Endpoint/Historical.antt =====
-- historical.go: its methods, and the parameters of their queries.
use gokalshi.Base.{ℤ, Option, [], Text, codes, Map, ◌∷◌, ◌++◌}
use gokalshi.Float.{Float}
use gokalshi.Query.{build_query, string_param, int_param, int64_param, int_ptr_param}
use gokalshi.Endpoint.{Endpoint, get_json, path_historical}

pub record GetHistoricalFillsParams : Type 0 where
  pub cursor : Text
  pub limit : ℤ
  pub ticker : Text

unfoldable pub get_historical_fills_to_map : GetHistoricalFillsParams → Map Text Text
get_historical_fills_to_map p = build_query (
    string_param (codes "cursor") p.cursor
    ∷ int_param (codes "limit") p.limit
    ∷ string_param (codes "ticker") p.ticker
    ∷ [])

pub record GetHistoricalOrdersParams : Type 0 where
  pub cursor : Text
  pub limit : ℤ
  pub ticker : Text

unfoldable pub get_historical_orders_to_map : GetHistoricalOrdersParams → Map Text Text
get_historical_orders_to_map p = build_query (
    string_param (codes "cursor") p.cursor
    ∷ int_param (codes "limit") p.limit
    ∷ string_param (codes "ticker") p.ticker
    ∷ [])

pub record GetHistoricalTradesParams : Type 0 where
  pub cursor : Text
  pub limit : ℤ
  pub ticker : Text

unfoldable pub get_historical_trades_to_map : GetHistoricalTradesParams → Map Text Text
get_historical_trades_to_map p = build_query (
    string_param (codes "cursor") p.cursor
    ∷ int_param (codes "limit") p.limit
    ∷ string_param (codes "ticker") p.ticker
    ∷ [])

pub record GetHistoricalMarketsParams : Type 0 where
  pub cursor : Text
  pub limit : ℤ

unfoldable pub get_historical_markets_to_map : GetHistoricalMarketsParams → Map Text Text
get_historical_markets_to_map p =
    build_query (string_param (codes "cursor") p.cursor ∷ int_param (codes "limit") p.limit ∷ [])

pub record GetHistoricalMarketCandlesticksParams : Type 0 where
  pub start_ts : ℤ
  pub end_ts : ℤ
  pub period_interval : ℤ

unfoldable pub get_historical_market_candlesticks_to_map :
    GetHistoricalMarketCandlesticksParams → Map Text Text
get_historical_market_candlesticks_to_map p = build_query (
    int64_param (codes "start_ts") p.start_ts
    ∷ int64_param (codes "end_ts") p.end_ts
    ∷ int_param (codes "period_interval") p.period_interval
    ∷ [])

pub record GetHistoricalPositionsParams : Type 0 where
  pub ticker : Text
  pub event_ticker : Text
  pub subaccount : Option ℤ
  pub limit : ℤ
  pub cursor : Text

unfoldable pub get_historical_positions_to_map : GetHistoricalPositionsParams → Map Text Text
get_historical_positions_to_map p = build_query (
    string_param (codes "ticker") p.ticker
    ∷ string_param (codes "event_ticker") p.event_ticker
    ∷ int_ptr_param (codes "subaccount") p.subaccount
    ∷ int_param (codes "limit") p.limit
    ∷ string_param (codes "cursor") p.cursor
    ∷ [])

module _ (float : Float) where
  open float use {F}

  abbrev pub get_historical_cutoff : {B : Type 0} → Endpoint F B
  get_historical_cutoff = get_json float (path_historical ++ codes "/cutoff") []

  abbrev pub get_historical_fills : {B : Type 0} → GetHistoricalFillsParams → Endpoint F B
  get_historical_fills params =
      get_json float (path_historical ++ codes "/fills") (get_historical_fills_to_map params)

  abbrev pub get_historical_orders : {B : Type 0} → GetHistoricalOrdersParams → Endpoint F B
  get_historical_orders params =
      get_json float (path_historical ++ codes "/orders") (get_historical_orders_to_map params)

  abbrev pub get_historical_trades : {B : Type 0} → GetHistoricalTradesParams → Endpoint F B
  get_historical_trades params =
      get_json float (path_historical ++ codes "/trades") (get_historical_trades_to_map params)

  abbrev pub get_historical_markets : {B : Type 0} → GetHistoricalMarketsParams → Endpoint F B
  get_historical_markets params =
      get_json float (path_historical ++ codes "/markets") (get_historical_markets_to_map params)

  abbrev pub get_historical_market : {B : Type 0} → Text → Endpoint F B
  get_historical_market ticker = get_json float (path_historical ++ codes "/markets/" ++ ticker) []

  abbrev pub get_historical_market_candlesticks :
      {B : Type 0} → Text → GetHistoricalMarketCandlesticksParams → Endpoint F B
  get_historical_market_candlesticks ticker params =
      get_json float (path_historical ++ codes "/markets/" ++ ticker ++ codes "/candlesticks")
        (get_historical_market_candlesticks_to_map params)

  abbrev pub get_historical_positions : {B : Type 0} → GetHistoricalPositionsParams → Endpoint F B
  get_historical_positions params =
      get_json float (path_historical ++ codes "/positions")
        (get_historical_positions_to_map params)
