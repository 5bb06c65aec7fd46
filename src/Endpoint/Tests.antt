-- ===== src/Endpoint/Tests.antt =====
-- Runs of the endpoint methods at concrete inputs.
use mathlib.Core.List.{Memᴰ}
use gokalshi.Base.{
  ℕ, pos, negsuc, ◌≡◌, refl, Option, none, some, List, [], ◌∷◌, ◌++◌, ◌*◌, true, inl, Text, codes,
  text_eqb, split, push_front, trim, drop_left, has_prefix, has_suffix, to_upper,
}
use gokalshi.Float.{whole, whole-IsOrdered}
use gokalshi.EndpointCost.{
  CostRoute, new_cost_route, sort_routes, matches, segments_match, split_path, is_path_placeholder,
  is_trailing_wildcard, count_literals,
}
use gokalshi.RateLimit.{ReadWriteTokenBucket, write_cap}
use gokalshi.Client.{Client, resolve_costs, beyond_capacity}
use gokalshi.Endpoint.{perform, path_event_orders}
use gokalshi.Endpoint.Markets.{GetMarketsParams, get_markets_to_map}
use gokalshi.Endpoint.EventOrders.{
  OrdersRequest, CancelOrderV2Params, cancel_order_v2_to_map, batch_create_orders_v2,
}
use gokalshi.Endpoint.Params.{
  read_get_markets, read_cancel_order_v2, read_get_markets-get_markets_to_map,
  read_cancel_order_v2-cancel_order_v2_to_map,
}
use gokalshi.Endpoint.Batch.{figure_in, write_request-beyond_capacity}
use gokalshi.EndpointCost.Matching.{IsLiteral}
use gokalshi.Endpoint.Routes.{
  segment, lacks, cancel_order_v2-matches, batch_cancel_orders_v2-billed,
}

abbrev open_markets : GetMarketsParams
open_markets = record {
  limit = pos 100;
  cursor = [];
  event_ticker = codes "EV";
  series_ticker = [];
  status = codes "open";
  tickers = [];
  mve_filter = [];
  min_created_ts = pos 0;
  max_created_ts = pos 0;
  min_updated_ts = pos 0;
  min_close_ts = pos 1700000000;
  max_close_ts = pos 0;
  min_settled_ts = pos 0;
  max_settled_ts = pos 0;
}

read_get_markets-get_markets_to_map_example :
    read_get_markets (get_markets_to_map open_markets) ≡ open_markets
read_get_markets-get_markets_to_map_example =
    read_get_markets-get_markets_to_map open_markets (record {
      limit = refl;
      min_created_ts = refl;
      max_created_ts = refl;
      min_updated_ts = refl;
      min_close_ts = refl;
      max_close_ts = refl;
      min_settled_ts = refl;
      max_settled_ts = refl;
    })

abbrev routed : CancelOrderV2Params
routed = record { market_ticker = codes "M"; subaccount = pos 0; exchange_index = some (negsuc 0) }

read_cancel_order_v2-cancel_order_v2_to_map_test :
    read_cancel_order_v2 (cancel_order_v2_to_map routed) ≡ routed
read_cancel_order_v2-cancel_order_v2_to_map_test =
    read_cancel_order_v2-cancel_order_v2_to_map routed refl

-- A bucket that holds a hundred write tokens.
abbrev bucket : ReadWriteTokenBucket ℕ
bucket = record {
  cfg = record {
    read_rate = 200;
    write_rate = 100;
    read_capacity = 200;
    write_capacity = 100;
    window_size = 1;
    safety_padding = 0;
  };
  read_tokens = 200;
  write_tokens = 100;
  last_refill = 0;
}

abbrev batched_route : CostRoute ℕ
batched_route = new_cost_route (codes "DELETE") (codes "/portfolio/events/orders/batched") 2

abbrev table : List (CostRoute ℕ)
table =
    new_cost_route (codes "DELETE") (codes "/portfolio/events/orders/:order_id") 5
    ∷ batched_route
    ∷ []

abbrev client : Option (List (CostRoute ℕ)) → Client ℕ
client routes = record {
  base_url = codes "https://api";
  max_retries = pos 4;
  base_delay = pos 1;
  limiter = bucket;
  cost_routes = routes;
  default_cost = 10;
}

abbrev eleven_orders : OrdersRequest ℕ
eleven_orders = record { orders = 1 ∷ 2 ∷ 3 ∷ 4 ∷ 5 ∷ 6 ∷ 7 ∷ 8 ∷ 9 ∷ 10 ∷ 11 ∷ [] }

abbrev no_error : Text → Option (Text × Text)
no_error text = none

-- Eleven new orders at 10 tokens each, without a table.
write_request-beyond_capacity_example :
    perform whole no_error no_error
      (λ q. [])
      (λ b. some [])
      (λ t. some t)
      (batch_create_orders_v2 whole eleven_orders)
      (record { fetch_attempts = []; fetch_exchanges = [] })
      (client none)
    ≡ (client none, some (inl beyond_capacity))
unfolding text_eqb figure_in write_cap
write_request-beyond_capacity_example =
    write_request-beyond_capacity whole whole-IsOrdered no_error no_error (λ q. []) (λ b. some [])
      (λ t. some t) (record { fetch_attempts = []; fetch_exchanges = [] }) (client none)
      (codes "POST") (path_event_orders ++ codes "/batched") 10 (pos 11) (some eleven_orders) []
      refl refl

cancel_order_v2-matches_test :
    matches {F = ℕ}
      (new_cost_route (codes "delete") (codes "/portfolio/events/orders/" ++ codes ":order_id") 2)
      (codes "DELETE")
      (path_event_orders ++ codes "/" ++ codes "a1")
    ≡ true
unfolding is_path_placeholder has_prefix has_suffix lacks
cancel_order_v2-matches_test =
    cancel_order_v2-matches whole ℕ (codes ":order_id") (codes "a1") routed 2
      (segment (codes ":order_id") refl refl) (segment (codes "a1") refl refl) refl

batch_cancel_orders_v2-billed_example :
    (s : CostRoute ℕ) × (resolve_costs whole
        (client (some (sort_routes table)))
        (codes "DELETE")
        (path_event_orders ++ codes "/batched")
        0
        2
        (pos 11)
      ≡ (0, s.cost * 11))
    × Memᴰ s (table)
    × (s.method ≡ codes "DELETE")
    × (s.segments ≡ split_path (path_event_orders ++ codes "/batched"))
    × IsLiteral s.segments
unfolding is_path_placeholder count_literals matches segments_match split_path trim drop_left split
    push_front text_eqb has_prefix has_suffix is_trailing_wildcard to_upper new_cost_route
batch_cancel_orders_v2-billed_example =
    batch_cancel_orders_v2-billed whole whole-IsOrdered (client (some (sort_routes table))) table
      batched_route eleven_orders refl
      (
        record { counted = refl; final = (refl, (refl, (refl, (refl, (refl, tt))))) },
        (record { counted = refl; final = (refl, (refl, (refl, (refl, (refl, tt))))) }, tt),
      )
      (Memᴰ.tail (Memᴰ.head refl)) (refl, (refl, (refl, (refl, (refl, (refl, tt)))))) refl
