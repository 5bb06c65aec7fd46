-- ===== src/Endpoint/Routes.antt =====
-- Which routes of the table describe the paths of event_orders.go, and what a batch is charged by
-- them.
use mathlib.Core.List.{Memᴰ}
use gokalshi.Base.{
  ℕ, pos, ◌≡◌, refl, ap, ◌∙◌, Bool, true, false, some, List, [], ◌∷◌, ◌++◌, Text, codes, text_eq,
  text_eqb, All, arith, has_prefix, has_suffix, to_upper, join, Bool-cases, inl, inr, length,
  nat_eqb, nat_eqb_iff, is_empty, not, ◌&&◌,
}
use gokalshi.Float.{Float, IsOrdered}
use gokalshi.EndpointCost.{
  CostRoute, new_cost_route, is_path_placeholder, is_trailing_wildcard, segments_match, split_path,
  matches, sort_routes,
}
use gokalshi.EndpointCost.Paths.{Lacks, IsSegment, split_path-join}
use gokalshi.EndpointCost.Matching.{IsLiteral}
use gokalshi.EndpointCost.LiteralWins.{IsRoute, bare_route_wins}
use gokalshi.Client.{Client, at_least_one, resolve_costs}
use gokalshi.Endpoint.{Endpoint, path_event_orders}
use gokalshi.Endpoint.Batch.{resolve_costs-write, figure_in, figure_in-found}
use gokalshi.Endpoint.EventOrders.{
  CancelOrderV2Params, OrdersRequest, cost_cancel_order, cancel_order_v2, batch_cancel_orders_v2,
}

-- A test for segments.
unfoldable pub lacks : ℕ → Text → Bool
lacks sep [] = true
lacks sep (c ∷ s) = not (nat_eqb c sep) && lacks sep s

lacks-Lacks : (sep : ℕ) (s : Text) → lacks sep s ≡ true → Lacks sep s
unfolding lacks
lacks-Lacks sep [] h = tt
lacks-Lacks sep (c ∷ s) h = (ground (arith, nat_eqb_iff c sep), lacks-Lacks sep s (ground arith))

pub segment : (s : Text) → is_empty s ≡ false → lacks b'/' s ≡ true → IsSegment b'/' s
segment [] h l = cc
segment (c ∷ s) h l = (λ e. ground (arith, e), lacks-Lacks b'/' (c ∷ s) l)

order_segments : Text → List Text
order_segments last =
    codes "trade-api" ∷ codes "v2" ∷ codes "portfolio" ∷ codes "events" ∷ codes "orders" ∷ last ∷ []

order_segments-IsSegment :
    (last : Text) → IsSegment b'/' last → All (IsSegment b'/') (order_segments last)
unfolding order_segments lacks
order_segments-IsSegment last h =
    let orders = segment (codes "orders") refl refl in
    let events = segment (codes "events") refl refl in
    let portfolio = segment (codes "portfolio") refl refl in
    let v2 = segment (codes "v2") refl refl in
    (segment (codes "trade-api") refl refl, (v2, (portfolio, (events, (orders, (h, tt))))))

-- The path of an order, whatever names it.
order_path-segments :
    (last : Text)
    → IsSegment b'/' last
    → split_path (path_event_orders ++ codes "/" ++ last) ≡ order_segments last
unfolding order_segments join
order_path-segments last h =
    split_path-join (codes "trade-api")
      (codes "v2" ∷ codes "portfolio" ∷ codes "events" ∷ codes "orders" ∷ last ∷ [])
      (order_segments-IsSegment last h)

placeholder-match :
    (mark order_id : Text)
    → is_path_placeholder mark ≡ true
    → segments_match (mark ∷ []) (order_id ∷ []) ≡ true
unfolding segments_match
placeholder-match mark order_id h = elim (Bool-cases (is_trailing_wildcard mark)) [
  | inl rest ↦ rw rest refl
  | inr one ↦ rw (one, h) refl
]

order_segments-match :
    (mark order_id : Text)
    → segments_match (order_segments mark) (order_segments order_id)
      ≡ segments_match (mark ∷ []) (order_id ∷ [])
unfolding segments_match order_segments text_eqb is_path_placeholder is_trailing_wildcard has_prefix
    has_suffix
order_segments-match mark order_id = refl

module _ (float : Float) where
  open float use {F}

  -- A route for `delete` and `/portfolio/events/orders/` with a placeholder in any notation matches
  -- the cancellation of any order, if the order's id and the placeholder are segments: not empty
  -- and without slashes.
  pub cancel_order_v2-matches :
      (B : Type 0) (mark order_id : Text) (params : CancelOrderV2Params) (cost : F)
      → IsSegment b'/' mark
      → IsSegment b'/' order_id
      → is_path_placeholder mark ≡ true
      → let e : Endpoint F B = cancel_order_v2 float order_id params in
        matches
          (new_cost_route (codes "delete") (codes "/portfolio/events/orders/" ++ mark) cost)
          e.verb
          e.target
        ≡ true
  unfolding matches new_cost_route to_upper text_eqb has_prefix
  cancel_order_v2-matches B mark order_id params cost marked named placeholder =
      rw (order_path-segments order_id named, order_path-segments mark marked)
        (order_segments-match mark order_id ∙ placeholder-match mark order_id placeholder)

module _ (float : Float) (laws : IsOrdered float) where
  open float use {F, mul, zero, of_ℕ}

  -- If the table is sorted, every route counts its literals and has a wildcard at most at its end,
  -- and a route without placeholders matches the batch cancellation, then it is charged for writing
  -- alone, so many times as it has orders (one at least) what a route of the table for `DELETE`
  -- says whose segments are those of the batch path and no placeholders: not what a route with a
  -- placeholder says, as that for the cancellation of a single order.
  pub batch_cancel_orders_v2-billed :
      {O : Type 0} (c : Client F) (rs : List (CostRoute F)) (r : CostRoute F)
      (req : OrdersRequest O)
      → c.cost_routes ≡ some (sort_routes rs)
      → All IsRoute rs
      → Memᴰ r rs
      → IsLiteral r.segments
      → let e = batch_cancel_orders_v2 float req in
        matches r e.verb e.target ≡ true
        → (s : CostRoute F) × (resolve_costs float c e.verb e.target e.read_cost e.write_cost
              e.units
            ≡ (zero, mul s.cost (of_ℕ (at_least_one (pos (length req.orders))))))
          × Memᴰ s rs
          × (s.method ≡ codes "DELETE")
          × (s.segments ≡ split_path e.target)
          × IsLiteral s.segments
  unfolding text_eqb to_upper
  batch_cancel_orders_v2-billed c rs r req table ok mem literal hit =
      let e = batch_cancel_orders_v2 float req in
      let (s, found, listed, same_method, same_path, bare) =
        bare_route_wins rs r e.verb e.target ok mem literal hit in
      let charged =
        resolve_costs-write float laws c e.verb e.target (of_ℕ cost_cancel_order) e.units refl in
      (
        s,
        charged
            ∙ ap (λ u. (zero, mul u (of_ℕ (at_least_one e.units))))
                (ap (figure_in float e.verb e.target (of_ℕ cost_cancel_order) c.default_cost) table
                  ∙ figure_in-found float e.verb e.target (of_ℕ cost_cancel_order) c.default_cost
                      s.cost (sort_routes rs) found),
        listed,
        same_method,
        same_path,
        bare,
      )
