-- ===== src/Client/Configure.antt =====
-- `ConfigureRateLimits` of client.go, with the two requests of account.go that it makes. The limits
-- and costs stand as the floats the code converts the server's integers to.
use gokalshi.Base.{pos, Option, none, some, List, [], ◌∷◌, ◌⊎◌, inl, inr, Text, codes, Map}
use gokalshi.Float.{Float}
use gokalshi.RateLimit.{
  TokenBucketConfig, ReadWriteTokenBucket, Attempt, new_read_write_token_bucket,
}
use gokalshi.EndpointCost.{CostRoute, new_cost_route, sort_routes}
use gokalshi.Client.{Client, RequestError, Exchange, Call, do_json}

pub record AccountLimits (F : Type 0) : Type 0 where
  pub read_refill_rate : F
  pub read_bucket_capacity : F
  pub write_refill_rate : F
  pub write_bucket_capacity : F

pub record EndpointTokenCost (F : Type 0) : Type 0 where
  pub endpoint_method : Text
  pub endpoint_path : Text
  pub token_cost : F

pub record EndpointCosts (F : Type 0) : Type 0 where
  pub endpoint_costs : List (EndpointTokenCost F)
  pub endpoint_default_cost : F

-- How the set-up ends: it returns nil or an error, the new limiter's constructor panics, or it has
-- not ended.
pub data Configured (F : Type 0) : Type 0 where
  configured : Client F → Configured F
  not_fetched : Client F → Configured F
  panicked : Client F → Configured F
  pending : Client F → Configured F

-- What one of the two requests meets.
pub record Fetch (F : Type 0) : Type 0 where
  pub fetch_attempts : List (Attempt F)
  pub fetch_exchanges : List Exchange

module _ {F : Type 0} where
  -- The loop over the server's entries.
  unfoldable pub routes_of : List (EndpointTokenCost F) → List (CostRoute F)
  routes_of [] = []
  routes_of (ec ∷ ecs) =
      new_cost_route ec.endpoint_method ec.endpoint_path ec.token_cost ∷ routes_of ecs

  -- After the request for the costs.
  unfoldable pub with_costs :
      ReadWriteTokenBucket F → Client F × Option (RequestError ⊎ EndpointCosts F) → Configured F
  unfolding routes_of
  with_costs limiter (c, none) = pending c
  with_costs limiter (c, some (inl e)) = not_fetched c
  with_costs limiter (c, some (inr costs)) = configured (record c {
    limiter = limiter;
    cost_routes = some (sort_routes (routes_of costs.endpoint_costs));
    default_cost = costs.endpoint_default_cost;
  })

module _ (float : Float) where
  open float use {F, of_ℕ, div, zero}

  unfoldable pub limits_config : AccountLimits F → TokenBucketConfig F
  limits_config limits = record {
    read_rate = limits.read_refill_rate;
    write_rate = limits.write_refill_rate;
    read_capacity = limits.read_bucket_capacity;
    write_capacity = limits.write_bucket_capacity;
    window_size = of_ℕ 1;
    safety_padding = div (of_ℕ 1) (of_ℕ 10);
  }

  -- `getJSON` without parameters.
  unfoldable pub get_call : {B : Type 0} → Text → Fetch F → Call F B
  get_call path fetch = record {
    call_method = codes "GET";
    path = path;
    read_cost = of_ℕ 10;
    write_cost = zero;
    units = pos 1;
    body = none;
    params = [];
    attempts = fetch.fetch_attempts;
    exchanges = fetch.fetch_exchanges;
  }

module _ (float : Float) {B : Type 0} (nested flat : Text → Option (Text × Text))
    (encode : Map Text Text → Text) (marshal : B → Option Text)
    (decode_limits : Text → Option (AccountLimits float.F))
    (decode_costs : Text → Option (EndpointCosts float.F)) where
  open float use {F}

  -- After the new limiter is made: the request for the costs goes through the old one.
  unfoldable pub with_limiter : Client F → Fetch F → Option (ReadWriteTokenBucket F) → Configured F
  unfolding get_call with_costs
  with_limiter c fetch none = panicked c
  with_limiter c fetch (some limiter) = with_costs limiter (
      do_json float nested flat encode marshal decode_costs c
        (get_call float (codes "/trade-api/v2/account/endpoint_costs") fetch))

  -- After the request for the limits; `now` is the clock when the limiter is made.
  unfoldable pub with_limits :
      Fetch F → F → Client F × Option (RequestError ⊎ AccountLimits F) → Configured F
  unfolding limits_config with_limiter
  with_limits fetch now (c, none) = pending c
  with_limits fetch now (c, some (inl e)) = not_fetched c
  with_limits fetch now (c, some (inr limits)) =
      with_limiter c fetch (new_read_write_token_bucket float (limits_config float limits) now)

  unfoldable pub configure_rate_limits : Fetch F → Fetch F → F → Client F → Configured F
  unfolding with_limits get_call
  configure_rate_limits limits_fetch costs_fetch now c = with_limits costs_fetch now (
      do_json float nested flat encode marshal decode_limits c
        (get_call float (codes "/trade-api/v2/account/limits") limits_fetch))
