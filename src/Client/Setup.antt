-- ===== src/Client/Setup.antt =====
-- The client that `ConfigureRateLimits` of client.go leaves.
use gokalshi.Base.{
  ◌≡◌, refl, ap, ◌∙◌, ℤ, Option, none, some, ◌⊎◌, inl, inr, Text, Map, Option-cases, List, [], ◌∷◌,
  map, codes, arith,
}
use mathlib.Core.Option
use gokalshi.Float.{Float, IsOrdered}
use gokalshi.RateLimit.{
  ReadWriteTokenBucket, read_cap, write_cap, Acquired, granted, over_capacity, cancelled, waiting,
  new_read_write_token_bucket,
}
use gokalshi.RateLimit.Bounds.{IsValid, new_read_write_token_bucket-IsValid}
use gokalshi.EndpointCost.{CostRoute, new_cost_route, matches}
use gokalshi.EndpointCost.Lookup.{best, lookup_cost-sort_routes}
use gokalshi.Client.{
  Client, RequestError, Call, at_least_one, charge, charge_by_table, resolve_costs, after_acquire,
  do_request, do_json,
}
use gokalshi.Client.Configure.{
  AccountLimits, EndpointTokenCost, EndpointCosts, get_call, Configured, configured, not_fetched,
  panicked, pending, Fetch, routes_of, with_costs, limits_config, with_limiter, with_limits,
  configure_rate_limits,
}

module _ (float : Float) (laws : IsOrdered float) {B : Type 0}
    (nested flat : Text → Option (Text × Text)) (encode : Map Text Text → Text)
    (marshal : B → Option Text) (decode_limits : Text → Option (AccountLimits float.F))
    (decode_costs : Text → Option (EndpointCosts float.F)) where
  open float use {F, mul, of_ℕ}

  -- The table and the default of the first client.
  pub record HasTable (c d : Client F) : Type 0 where
    pub same_routes : d.cost_routes ≡ c.cost_routes
    pub same_default : d.default_cost ≡ c.default_cost

  -- The routes that the server's entries stand for, in their order.
  abbrev pub server_routes : EndpointCosts F → List (CostRoute F)
  server_routes costs =
      map (λ entry. new_cost_route entry.endpoint_method entry.endpoint_path entry.token_cost)
        costs.endpoint_costs

  -- A bucket with the server's rates and capacities, full at a time.
  pub record HasLimits (limits : AccountLimits F) (now : F) (b : ReadWriteTokenBucket F)
      : Type 0 where
    pub read_rate : b.cfg.read_rate ≡ limits.read_refill_rate
    pub write_rate : b.cfg.write_rate ≡ limits.write_refill_rate
    pub read_capacity : b.cfg.read_capacity ≡ limits.read_bucket_capacity
    pub write_capacity : b.cfg.write_capacity ≡ limits.write_bucket_capacity
    pub full_read : b.read_tokens ≡ read_cap float b.cfg
    pub full_write : b.write_tokens ≡ write_cap float b.cfg
    pub stamped : b.last_refill ≡ now

  -- What the two requests have given.
  abbrev pub LimitsReply : Type 0
  LimitsReply = Option (RequestError ⊎ AccountLimits F)

  abbrev pub CostsReply : Type 0
  CostsReply = Option (RequestError ⊎ EndpointCosts F)

  -- Both replies have come. Requests are charged by the best of the routes in the one, from a valid
  -- bucket with the limits in the other.
  pub record IsConfigured (limits_reply : LimitsReply) (costs_reply : CostsReply) (now : F)
      (d : Client F) : Type 0 where
    pub limits : AccountLimits F
    pub replied_limits : limits_reply ≡ some (inr limits)
    pub costs : EndpointCosts F
    pub replied_costs : costs_reply ≡ some (inr costs)
    pub limiter_valid : IsValid float d.limiter
    pub limiter_limits : HasLimits limits now d.limiter
    pub charges :
        (method path : Text) (read_cost write_cost : F) (units : ℤ)
        → resolve_costs float d method path read_cost write_cost units
          ≡ charge float
              (
                mul read_cost (of_ℕ (at_least_one units)),
                mul write_cost (of_ℕ (at_least_one units)),
              )
              method
              costs.endpoint_default_cost
              units
              (Option.map (λ r. r.cost) (best (λ r. matches r method path) (server_routes costs)))

  -- All or nothing.
  abbrev pub IsAllOrNothing : Client F → LimitsReply → CostsReply → F → Configured F → Type 0
  IsAllOrNothing c limits_reply costs_reply now (configured d) =
      IsConfigured limits_reply costs_reply now d
  IsAllOrNothing c limits_reply costs_reply now (not_fetched d) = HasTable c d
  IsAllOrNothing c limits_reply costs_reply now (panicked d) = HasTable c d
  IsAllOrNothing c limits_reply costs_reply now (pending d) = HasTable c d

  routes_of-map :
      (entries : List (EndpointTokenCost F))
      → routes_of entries
        ≡ map
            (λ entry. new_cost_route entry.endpoint_method entry.endpoint_path entry.token_cost)
            entries
  unfolding routes_of
  routes_of-map [] = refl
  routes_of-map (entry ∷ entries) = rw (routes_of-map entries) refl

  limits_config-HasLimits :
      (limits : AccountLimits F) (now : F) (b : ReadWriteTokenBucket F)
      → new_read_write_token_bucket float (limits_config float limits) now ≡ some b
      → HasLimits limits now b
  unfolding new_read_write_token_bucket limits_config
  limits_config-HasLimits limits now b e = record {
    read_rate = ground arith;
    write_rate = ground arith;
    read_capacity = ground arith;
    write_capacity = ground arith;
    full_read = ground arith;
    full_write = ground arith;
    stamped = ground arith;
  }

  after_acquire-HasTable :
      (c : Client F) (call : Call F B) (a : Acquired F)
      → HasTable c (after_acquire float nested flat encode marshal c call a).0
  unfolding after_acquire
  after_acquire-HasTable c call (granted b) = record { same_routes = refl; same_default = refl }
  after_acquire-HasTable c call (over_capacity b) = record {
    same_routes = refl;
    same_default = refl;
  }
  after_acquire-HasTable c call (cancelled b) = record { same_routes = refl; same_default = refl }
  after_acquire-HasTable c call (waiting b) = record { same_routes = refl; same_default = refl }

  do_json-HasTable {ℓ} :
      {T : Type ℓ} (decode : Text → Option T) (c : Client F) (call : Call F B)
      → HasTable c (do_json float nested flat encode marshal decode c call).0
  unfolding do_json do_request
  do_json-HasTable decode c call = after_acquire-HasTable c call _

  HasTable-trans : {c d e : Client F} → HasTable c d → HasTable d e → HasTable c e
  HasTable-trans h k = record {
    same_routes = k.same_routes ∙ h.same_routes;
    same_default = k.same_default ∙ h.same_default;
  }

  with_costs-IsAllOrNothing :
      (c : Client F) (limits : AccountLimits F) (now : F) (limiter : ReadWriteTokenBucket F)
      (fetched : Client F × CostsReply)
      → IsValid float limiter
      → HasLimits limits now limiter
      → HasTable c fetched.0
      → IsAllOrNothing c (some (inr limits)) fetched.1 now (with_costs limiter fetched)
  unfolding with_costs resolve_costs charge_by_table
  with_costs-IsAllOrNothing c limits now limiter (d, none) v l h = h
  with_costs-IsAllOrNothing c limits now limiter (d, some (inl e)) v l h = h
  with_costs-IsAllOrNothing c limits now limiter (d, some (inr costs)) v l h = record {
    limits = limits;
    replied_limits = refl;
    costs = costs;
    replied_costs = refl;
    limiter_valid = v;
    limiter_limits = l;
    charges = λ method path read_cost write_cost units.
        ap (charge float _ method costs.endpoint_default_cost units) (
          lookup_cost-sort_routes (routes_of costs.endpoint_costs) method path
          ∙ ap
              (λ rs.
                Option.map (λ (r : CostRoute F). r.cost) (best (λ r. matches r method path) rs))
              (routes_of-map costs.endpoint_costs));
  }

  -- The reply to the request for the costs.
  abbrev pub costs_reply : Fetch F → Client F → CostsReply
  costs_reply fetch c =
      (do_json float nested flat encode marshal decode_costs c
        (get_call float (codes "/trade-api/v2/account/endpoint_costs") fetch)).1

  with_limits-IsAllOrNothing :
      (c : Client F) (fetch : Fetch F) (now : F) (fetched : Client F × LimitsReply)
      → HasTable c fetched.0
      → IsAllOrNothing c fetched.1 (costs_reply fetch fetched.0) now (
          with_limits float nested flat encode marshal decode_limits decode_costs fetch now fetched)
  unfolding with_limits with_limiter
  with_limits-IsAllOrNothing c fetch now (d, none) h = h
  with_limits-IsAllOrNothing c fetch now (d, some (inl e)) h = h
  with_limits-IsAllOrNothing c fetch now (d, some (inr limits)) h =
      elim (Option-cases (new_read_write_token_bucket float (limits_config float limits) now)) [
        | inl refused ↦ rw refused h
        | inr (limiter, made) ↦ rw made (
            with_costs-IsAllOrNothing c limits now limiter _
              (new_read_write_token_bucket-IsValid float laws (limits_config float limits) now
                limiter made)
              (limits_config-HasLimits limits now limiter made)
              (HasTable-trans h (do_json-HasTable decode_costs d _)))
      ]

  -- However `ConfigureRateLimits` ends: if it succeeds, then both requests were answered, the new
  -- bucket is valid, full, and has the rates and capacities of the limits in the first answer, and
  -- every request is charged by the best matching route among the entries of the second answer, by
  -- the default cost there, or as the caller says if that default is not positive. If it returns an
  -- error, panics, or has not ended, the table and the default cost are the old ones.
  pub configure_rate_limits-IsAllOrNothing :
      (limits_fetch costs_fetch : Fetch F) (now : F) (c : Client F)
      → let (c', limits_reply) =
          do_json float nested flat encode marshal decode_limits c
            (get_call float (codes "/trade-api/v2/account/limits") limits_fetch) in
        IsAllOrNothing c limits_reply (costs_reply costs_fetch c') now (
          configure_rate_limits float nested flat encode marshal decode_limits decode_costs
            limits_fetch costs_fetch now c)
  unfolding configure_rate_limits
  configure_rate_limits-IsAllOrNothing limits_fetch costs_fetch now c =
      with_limits-IsAllOrNothing c costs_fetch now _ (do_json-HasTable decode_limits c _)
