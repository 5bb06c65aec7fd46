-- ===== src/Endpoint/Fcm.antt =====
-- fcm.go: its methods, and the parameters of their queries.
use gokalshi.Base.{ℤ, [], Text, codes, Map, ◌∷◌, ◌++◌}
use gokalshi.Float.{Float}
use gokalshi.Query.{build_query, string_param, int_param, int64_param}
use gokalshi.Endpoint.{Endpoint, get_json, path_fcm}

pub record GetFcmOrdersParams : Type 0 where
  pub subtrader_id : Text
  pub client_order_ids : Text
  pub event_ticker : Text
  pub ticker : Text
  pub status : Text
  pub min_ts : ℤ
  pub max_ts : ℤ
  pub limit : ℤ
  pub cursor : Text

unfoldable pub get_fcm_orders_to_map : GetFcmOrdersParams → Map Text Text
get_fcm_orders_to_map p = build_query (
    string_param (codes "subtrader_id") p.subtrader_id
    ∷ string_param (codes "client_order_ids") p.client_order_ids
    ∷ string_param (codes "event_ticker") p.event_ticker
    ∷ string_param (codes "ticker") p.ticker
    ∷ string_param (codes "status") p.status
    ∷ int64_param (codes "min_ts") p.min_ts
    ∷ int64_param (codes "max_ts") p.max_ts
    ∷ int_param (codes "limit") p.limit
    ∷ string_param (codes "cursor") p.cursor
    ∷ [])

pub record GetFcmPositionsParams : Type 0 where
  pub subtrader_id : Text
  pub ticker : Text
  pub event_ticker : Text
  pub count_filter : Text
  pub settlement_status : Text
  pub limit : ℤ
  pub cursor : Text

unfoldable pub get_fcm_positions_to_map : GetFcmPositionsParams → Map Text Text
get_fcm_positions_to_map p = build_query (
    string_param (codes "subtrader_id") p.subtrader_id
    ∷ string_param (codes "ticker") p.ticker
    ∷ string_param (codes "event_ticker") p.event_ticker
    ∷ string_param (codes "count_filter") p.count_filter
    ∷ string_param (codes "settlement_status") p.settlement_status
    ∷ int_param (codes "limit") p.limit
    ∷ string_param (codes "cursor") p.cursor
    ∷ [])

module _ (float : Float) where
  open float use {F}

  abbrev pub get_fcm_orders : {B : Type 0} → GetFcmOrdersParams → Endpoint F B
  get_fcm_orders params =
      get_json float (path_fcm ++ codes "/orders") (get_fcm_orders_to_map params)

  abbrev pub get_fcm_positions : {B : Type 0} → GetFcmPositionsParams → Endpoint F B
  get_fcm_positions params =
      get_json float (path_fcm ++ codes "/positions") (get_fcm_positions_to_map params)
