-- ===== src/Endpoint/Orders.antt =====
-- orders.go: its methods, and the parameters of their queries.
use gokalshi.Base.{ℤ, [], Text, codes, Map, ◌∷◌, ◌++◌}
use gokalshi.Float.{Float}
use gokalshi.Query.{build_query, string_param, int_param, int64_param}
use gokalshi.Endpoint.{Endpoint, get_json, path_orders}

pub record GetOrdersParams : Type 0 where
  pub ticker : Text
  pub event_ticker : Text
  pub status : Text
  pub limit : ℤ
  pub cursor : Text
  pub min_ts : ℤ
  pub max_ts : ℤ
  pub subaccount : ℤ

unfoldable pub get_orders_to_map : GetOrdersParams → Map Text Text
get_orders_to_map p = build_query (
    string_param (codes "ticker") p.ticker
    ∷ string_param (codes "event_ticker") p.event_ticker
    ∷ string_param (codes "status") p.status
    ∷ int_param (codes "limit") p.limit
    ∷ string_param (codes "cursor") p.cursor
    ∷ int64_param (codes "min_ts") p.min_ts
    ∷ int64_param (codes "max_ts") p.max_ts
    ∷ int_param (codes "subaccount") p.subaccount
    ∷ [])

pub record GetQueuePositionsParams : Type 0 where
  pub market_tickers : Text
  pub event_ticker : Text
  pub subaccount : ℤ

unfoldable pub get_queue_positions_to_map : GetQueuePositionsParams → Map Text Text
get_queue_positions_to_map p = build_query (
    string_param (codes "market_tickers") p.market_tickers
    ∷ string_param (codes "event_ticker") p.event_ticker
    ∷ int_param (codes "subaccount") p.subaccount
    ∷ [])

module _ (float : Float) where
  open float use {F}

  abbrev pub get_order : {B : Type 0} → Text → Endpoint F B
  get_order order_id = get_json float (path_orders ++ codes "/" ++ order_id) []

  abbrev pub get_orders : {B : Type 0} → GetOrdersParams → Endpoint F B
  get_orders params = get_json float path_orders (get_orders_to_map params)

  abbrev pub get_queue_positions : {B : Type 0} → GetQueuePositionsParams → Endpoint F B
  get_queue_positions params =
      get_json float (path_orders ++ codes "/queue_positions") (get_queue_positions_to_map params)

  abbrev pub get_queue_position : {B : Type 0} → Text → Endpoint F B
  get_queue_position order_id =
      get_json float (path_orders ++ codes "/" ++ order_id ++ codes "/queue_position") []
