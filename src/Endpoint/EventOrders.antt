-- ===== src/Endpoint/EventOrders.antt =====
-- event_orders.go: its methods, and the parameters of their queries.
use gokalshi.Base.{ℕ, ℤ, pos, Option, none, some, List, [], Text, codes, Map, length, ◌∷◌, ◌++◌}
use gokalshi.Float.{Float}
use gokalshi.Query.{build_query, string_param, int_param, int_ptr_param}
use gokalshi.Endpoint.{Endpoint, write_request, post_json, path_event_orders}

-- The two batch requests, as far as the client reads them: their orders.
pub record OrdersRequest (O : Type 0) : Type 0 where
  pub orders : List O

abbrev pub cost_create_order : ℕ
cost_create_order = 10

abbrev pub cost_cancel_order : ℕ
cost_cancel_order = 2

pub record CancelOrderV2Params : Type 0 where
  pub market_ticker : Text
  pub subaccount : ℤ
  pub exchange_index : Option ℤ

unfoldable pub cancel_order_v2_to_map : CancelOrderV2Params → Map Text Text
cancel_order_v2_to_map p = build_query (
    string_param (codes "market_ticker") p.market_ticker
    ∷ int_param (codes "subaccount") p.subaccount
    ∷ int_ptr_param (codes "exchange_index") p.exchange_index
    ∷ [])

pub record CancelAllOrdersParams : Type 0 where
  pub subaccount : Option ℤ

unfoldable pub cancel_all_orders_to_map : CancelAllOrdersParams → Map Text Text
cancel_all_orders_to_map p = build_query (int_ptr_param (codes "subaccount") p.subaccount ∷ [])

module _ (float : Float) where
  open float use {F}

  abbrev pub create_order_v2 : {B : Type 0} → B → Endpoint F B
  create_order_v2 req = post_json float path_event_orders (some req) 10

  abbrev pub batch_create_orders_v2 : {O : Type 0} → OrdersRequest O → Endpoint F (OrdersRequest O)
  batch_create_orders_v2 req =
      write_request float (codes "POST") (path_event_orders ++ codes "/batched") cost_create_order
        (pos (length req.orders)) (some req) []

  abbrev pub batch_cancel_orders_v2 : {O : Type 0} → OrdersRequest O → Endpoint F (OrdersRequest O)
  batch_cancel_orders_v2 req =
      write_request float (codes "DELETE") (path_event_orders ++ codes "/batched") cost_cancel_order
        (pos (length req.orders)) (some req) []

  abbrev pub cancel_order_v2 : {B : Type 0} → Text → CancelOrderV2Params → Endpoint F B
  cancel_order_v2 order_id params =
      write_request float (codes "DELETE") (path_event_orders ++ codes "/" ++ order_id)
        cost_cancel_order (pos 1) none (cancel_order_v2_to_map params)

  abbrev pub amend_order_v2 : {B : Type 0} → Text → B → Endpoint F B
  amend_order_v2 order_id req =
      post_json float (path_event_orders ++ codes "/" ++ order_id ++ codes "/amend") (some req) 10

  abbrev pub decrease_order_v2 : {B : Type 0} → Text → B → Endpoint F B
  decrease_order_v2 order_id req =
      post_json float (path_event_orders ++ codes "/" ++ order_id ++ codes "/decrease") (some req)
        10

  abbrev pub cancel_all_orders : {B : Type 0} → CancelAllOrdersParams → Endpoint F B
  cancel_all_orders params =
      write_request float (codes "DELETE") path_event_orders cost_cancel_order (pos 1) none
        (cancel_all_orders_to_map params)
