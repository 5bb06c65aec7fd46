-- ===== src/Config/Separate.antt =====
-- The two environments of config.go are kept apart.
use gokalshi.Base.{◌≡◌, ◌≢◌, refl, sym, ◌⊎◌, inl, inr, Text, codes, text_eq, to_upper, arith}
use gokalshi.Auth.{Crypto}
use gokalshi.Config.{
  Environment, demo, prod, other, defaults, ClientConfig, named_environment, overridden,
  load_config, config_for, new_client_config, http_base_for_env,
}

-- The two readings give the same for a variable.
abbrev pub Agree : (Text → Text) → (Text → Text) → Text → Type 0
Agree getenv getenv' var = getenv var ≡ getenv' var

-- ... for all that an environment reads.
pub record AgreeFor (getenv getenv' : Text → Text) (env : Environment) : Type 0 where
  pub key_id : Agree getenv getenv' (defaults env).key_id_var
  pub key_file : Agree getenv getenv' (defaults env).key_file_var
  pub http : Agree getenv getenv' (codes "KALSHI_HTTP_BASE_URL")
  pub ws : Agree getenv getenv' (codes "KALSHI_WS_BASE_URL")

module _ (crypto : Crypto) (getenv getenv' : Text → Text) where
  load_config-Agree :
      (env : Environment) (key_id key_file : Text)
      → AgreeFor getenv getenv' env
      → load_config crypto getenv env key_id key_file
        ≡ load_config crypto getenv' env key_id key_file
  unfolding load_config
  load_config-Agree env key_id key_file h = ground (arith, h.http, h.ws)

  config_for-Agree :
      (env : Environment)
      → AgreeFor getenv getenv' env
      → config_for crypto getenv env ≡ config_for crypto getenv' env
  unfolding config_for
  config_for-Agree env h =
      rw
        (
          config_for,
          h.key_id,
          h.key_file,
          load_config-Agree env (getenv' (defaults env).key_id_var)
              (getenv' (defaults env).key_file_var) h,
        )
        refl

  -- If `KALSHI_ENVIRONMENT` names an environment, then the configuration depends on the two
  -- variables of that environment and the two for the base URLs alone: two readings of the
  -- variables that agree on these and on the name give the same result, whatever they say of the
  -- other environment.
  pub new_client_config-separate :
      (quote : Text → Text) (env : Environment)
      → named_environment quote (to_upper (getenv (codes "KALSHI_ENVIRONMENT"))) ≡ inr env
      → Agree getenv getenv' (codes "KALSHI_ENVIRONMENT")
      → AgreeFor getenv getenv' env
      → new_client_config crypto getenv quote ≡ new_client_config crypto getenv' quote
  unfolding new_client_config
  new_client_config-separate quote env named same h =
      rw (new_client_config, sym same, named) (config_for-Agree env h)

named_environment_known :
    (quote : Text → Text) (t : Text) (env : Environment)
    → named_environment quote t ≡ inr env
    → env ≢ other
unfolding named_environment
named_environment_known quote t env h = ground arith

defaults_base : (env : Environment) → (defaults env).http_base ≡ http_base_for_env env
unfolding defaults http_base_for_env
defaults_base demo = refl
defaults_base prod = refl
defaults_base other = refl

module _ (crypto : Crypto) (getenv : Text → Text) where
  open crypto use {K, R}

  load_config-base :
      (env : Environment) (key_id key_file : Text) (c : ClientConfig K R)
      → load_config crypto getenv env key_id key_file ≡ inr c
      → (c.environment ≡ env)
        × (c.http_base_url
            ≡ overridden (getenv (codes "KALSHI_HTTP_BASE_URL")) (defaults env).http_base)
  unfolding load_config
  load_config-base env key_id key_file c h = ground arith

  config_for-base :
      (env : Environment) (c : ClientConfig K R)
      → config_for crypto getenv env ≡ inr c
      → (c.environment ≡ env)
        × (c.http_base_url
            ≡ overridden (getenv (codes "KALSHI_HTTP_BASE_URL")) (defaults env).http_base)
  unfolding config_for
  config_for-base env c h =
      load_config-base env (getenv (defaults env).key_id_var) (getenv (defaults env).key_file_var) c
        (ground arith)

  -- The environment that was chosen on the way to a configuration.
  chosen :
      (r : Text ⊎ Environment) (c : ClientConfig K R)
      → (elim r as (λ r. Text ⊎ ClientConfig K R) [
        | inl err ↦ inl err
        | inr env ↦ config_for crypto getenv env
      ])
        ≡ inr c
      → (env : Environment) × (r ≡ inr env) × (config_for crypto getenv env ≡ inr c)
  chosen (inl err) c h = cc
  chosen (inr env) c h = (env, refl, h)

  pub new_client_config-base :
      (quote : Text → Text) (c : ClientConfig K R)
      → new_client_config crypto getenv quote ≡ inr c
      → (named_environment quote (to_upper (getenv (codes "KALSHI_ENVIRONMENT")))
          ≡ inr c.environment)
        × (c.http_base_url
            ≡ overridden (getenv (codes "KALSHI_HTTP_BASE_URL")) (http_base_for_env c.environment))
        × (c.environment ≢ other)
  unfolding new_client_config
  new_client_config-base quote c h =
      let (env, named, done) =
        chosen (named_environment quote (to_upper (getenv (codes "KALSHI_ENVIRONMENT")))) c h in
      let (same, base) = config_for-base env c done in
      rw same (named, rw (sym (defaults_base env)) base, named_environment_known quote _ env named)
