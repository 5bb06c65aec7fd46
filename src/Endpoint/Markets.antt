-- ===== src/Endpoint/Markets.antt =====
-- markets.go: its methods, and the parameters of their queries.
use gokalshi.Base.{ℤ, Bool, [], Text, codes, Map, ◌∷◌, ◌++◌}
use gokalshi.Float.{Float}
use gokalshi.Query.{build_query, string_param, int_param, int64_param, bool_param}
use gokalshi.Endpoint.{Endpoint, get_json, path_markets}

pub record GetOrderbookParams : Type 0 where
  pub depth : ℤ

unfoldable pub get_orderbook_to_map : GetOrderbookParams → Map Text Text
get_orderbook_to_map p = build_query (int_param (codes "depth") p.depth ∷ [])

pub record GetMarketOrderbooksParams : Type 0 where
  pub tickers : Text

unfoldable pub get_market_orderbooks_to_map : GetMarketOrderbooksParams → Map Text Text
get_market_orderbooks_to_map p = build_query (string_param (codes "tickers") p.tickers ∷ [])

pub record GetTradesParams : Type 0 where
  pub ticker : Text
  pub limit : ℤ
  pub cursor : Text
  pub min_ts : ℤ
  pub max_ts : ℤ

unfoldable pub get_trades_to_map : GetTradesParams → Map Text Text
get_trades_to_map p = build_query (
    string_param (codes "ticker") p.ticker
    ∷ int_param (codes "limit") p.limit
    ∷ string_param (codes "cursor") p.cursor
    ∷ int64_param (codes "min_ts") p.min_ts
    ∷ int64_param (codes "max_ts") p.max_ts
    ∷ [])

pub record GetMarketsParams : Type 0 where
  pub limit : ℤ
  pub cursor : Text
  pub event_ticker : Text
  pub series_ticker : Text
  pub status : Text
  pub tickers : Text
  pub mve_filter : Text
  pub min_created_ts : ℤ
  pub max_created_ts : ℤ
  pub min_updated_ts : ℤ
  pub min_close_ts : ℤ
  pub max_close_ts : ℤ
  pub min_settled_ts : ℤ
  pub max_settled_ts : ℤ

unfoldable pub get_markets_to_map : GetMarketsParams → Map Text Text
get_markets_to_map p = build_query (
    int_param (codes "limit") p.limit
    ∷ string_param (codes "cursor") p.cursor
    ∷ string_param (codes "event_ticker") p.event_ticker
    ∷ string_param (codes "series_ticker") p.series_ticker
    ∷ string_param (codes "status") p.status
    ∷ string_param (codes "tickers") p.tickers
    ∷ string_param (codes "mve_filter") p.mve_filter
    ∷ int64_param (codes "min_created_ts") p.min_created_ts
    ∷ int64_param (codes "max_created_ts") p.max_created_ts
    ∷ int64_param (codes "min_updated_ts") p.min_updated_ts
    ∷ int64_param (codes "min_close_ts") p.min_close_ts
    ∷ int64_param (codes "max_close_ts") p.max_close_ts
    ∷ int64_param (codes "min_settled_ts") p.min_settled_ts
    ∷ int64_param (codes "max_settled_ts") p.max_settled_ts
    ∷ [])

pub record GetMarketCandlesticksParams : Type 0 where
  pub start_ts : ℤ
  pub end_ts : ℤ
  pub period_interval : ℤ
  pub include_latest_before_start : Bool

unfoldable pub get_market_candlesticks_to_map : GetMarketCandlesticksParams → Map Text Text
get_market_candlesticks_to_map p = build_query (
    int64_param (codes "start_ts") p.start_ts
    ∷ int64_param (codes "end_ts") p.end_ts
    ∷ int_param (codes "period_interval") p.period_interval
    ∷ bool_param (codes "include_latest_before_start") p.include_latest_before_start
    ∷ [])

pub record GetBatchMarketCandlesticksParams : Type 0 where
  pub market_tickers : Text
  pub start_ts : ℤ
  pub end_ts : ℤ
  pub period_interval : ℤ
  pub include_latest_before_start : Bool

unfoldable pub get_batch_market_candlesticks_to_map :
    GetBatchMarketCandlesticksParams → Map Text Text
get_batch_market_candlesticks_to_map p = build_query (
    string_param (codes "market_tickers") p.market_tickers
    ∷ int64_param (codes "start_ts") p.start_ts
    ∷ int64_param (codes "end_ts") p.end_ts
    ∷ int_param (codes "period_interval") p.period_interval
    ∷ bool_param (codes "include_latest_before_start") p.include_latest_before_start
    ∷ [])

module _ (float : Float) where
  open float use {F}

  abbrev pub get_market_orderbook : {B : Type 0} → Text → GetOrderbookParams → Endpoint F B
  get_market_orderbook ticker params =
      get_json float (path_markets ++ codes "/" ++ ticker ++ codes "/orderbook")
        (get_orderbook_to_map params)

  abbrev pub get_market_orderbooks : {B : Type 0} → GetMarketOrderbooksParams → Endpoint F B
  get_market_orderbooks params =
      get_json float (path_markets ++ codes "/orderbooks") (get_market_orderbooks_to_map params)

  abbrev pub get_trades : {B : Type 0} → GetTradesParams → Endpoint F B
  get_trades params = get_json float (path_markets ++ codes "/trades") (get_trades_to_map params)

  abbrev pub get_market : {B : Type 0} → Text → Endpoint F B
  get_market ticker = get_json float (path_markets ++ codes "/" ++ ticker) []

  abbrev pub get_markets : {B : Type 0} → GetMarketsParams → Endpoint F B
  get_markets params = get_json float path_markets (get_markets_to_map params)

  abbrev pub get_market_candlesticks :
      {B : Type 0} → Text → Text → GetMarketCandlesticksParams → Endpoint F B
  get_market_candlesticks series_ticker ticker params =
      get_json float
        (codes "/trade-api/v2/series/"
          ++ series_ticker
          ++ codes "/markets/"
          ++ ticker
          ++ codes "/candlesticks")
        (get_market_candlesticks_to_map params)

  abbrev pub get_batch_market_candlesticks :
      {B : Type 0} → GetBatchMarketCandlesticksParams → Endpoint F B
  get_batch_market_candlesticks params =
      get_json float (path_markets ++ codes "/candlesticks")
        (get_batch_market_candlesticks_to_map params)
