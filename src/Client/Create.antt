-- ===== src/Client/Create.antt =====
-- `NewClient` with its options, and the default configuration of the limiter.
use gokalshi.Base.{
  ℤ, pos, Bool, true, false, Option, none, some, List, [], ◌∷◌, if◌then◌else◌, is_empty, Text, Map,
}
use gokalshi.Float.{Float}
use gokalshi.Config.{Environment, http_base_for_env}
use gokalshi.RateLimit.{TokenBucketConfig, ReadWriteTokenBucket, new_read_write_token_bucket}
use gokalshi.Client.{Client}
use gokalshi.Client.Configure.{
  AccountLimits, EndpointCosts, Configured, configured, Fetch, configure_rate_limits,
}

-- A client under construction, and `skipAutoConfig`.
abbrev pub Draft : Type 0 → Type 0
Draft F = Client F × Bool

module _ {F : Type 0} where
  unfoldable pub with_max_retries : ℤ → Draft F → Draft F
  with_max_retries n (c, skip) = (record c { max_retries = n }, skip)

  unfoldable pub with_base_delay : ℤ → Draft F → Draft F
  with_base_delay d (c, skip) = (record c { base_delay = d }, skip)

  unfoldable pub with_rate_limiter : ReadWriteTokenBucket F → Draft F → Draft F
  with_rate_limiter l (c, skip) = (record c { limiter = l }, true)

  unfoldable pub apply_options : List (Draft F → Draft F) → Draft F → Draft F
  apply_options [] draft = draft
  apply_options (opt ∷ opts) draft = apply_options opts (opt draft)

module _ (float : Float) where
  open float use {F, of_ℕ, div, zero}

  unfoldable pub default_token_bucket_config : TokenBucketConfig F
  default_token_bucket_config = record {
    read_rate = of_ℕ 200;
    write_rate = of_ℕ 100;
    read_capacity = of_ℕ 200;
    write_capacity = of_ℕ 100;
    window_size = of_ℕ 1;
    safety_padding = div (of_ℕ 1) (of_ℕ 10);
  }

  unfoldable pub fresh_client : Text → Environment → ReadWriteTokenBucket F → Client F
  fresh_client base env limiter = record {
    base_url = if is_empty base then http_base_for_env env else base;
    max_retries = pos 4;
    base_delay = pos 100_000_000;
    limiter = limiter;
    cost_routes = none;
    default_cost = zero;
  }

module _ (float : Float) {B : Type 0} (nested flat : Text → Option (Text × Text))
    (encode : Map Text Text → Text) (marshal : B → Option Text) where
  open float use {F, of_ℕ, zero}

  -- The new client, set up unless an option says not to. `not_fetched` is the client with the
  -- defaults: `NewClient` logs the error and returns it.
  unfoldable pub new_client :
      (Text → Option (AccountLimits F))
      → (Text → Option (EndpointCosts F))
      → Text
      → Environment
      → List (Draft F → Draft F)
      → Fetch F
      → Fetch F
      → F
      → F
      → Option (Configured F)
  unfolding default_token_bucket_config
  new_client decode_limits decode_costs base env opts limits_fetch costs_fetch start now =
      elim (new_read_write_token_bucket float (default_token_bucket_config float) start) [
        | none ↦ none
        | some limiter ↦
            let (c, skip) = apply_options opts (fresh_client float base env limiter, false) in
            some (
              if skip
              then configured c
              else configure_rate_limits float nested flat encode marshal decode_limits decode_costs
                  limits_fetch costs_fetch now c)
      ]
