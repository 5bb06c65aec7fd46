-- ===== src/Config.antt =====
-- config.go: the environments, their base URLs and variables, and the configuration that is read from
-- the environment. `os.Getenv` is an argument, as is the verb %q of package fmt.
pub mod Separate
mod Tests
use gokalshi.Base.{
  [], ◌++◌, ◌⊎◌, inl, inr, if◌then◌else◌, is_empty, ◌==◌, ◌||◌, Text, codes, text_eq, to_upper,
}
use gokalshi.Errors.{auth_error_text}
use gokalshi.Auth.{Crypto, Credentials, load_credentials}

-- `other` is an integer that names no environment.
pub data Environment : Type 0 where
  demo prod other : Environment

unfoldable pub environment_text : Environment → Text
environment_text demo = codes "demo"
environment_text prod = codes "prod"
environment_text other = codes "unknown"

abbrev pub demo_http_base : Text
demo_http_base = codes "https://external-api.demo.kalshi.co"

abbrev pub demo_ws_base : Text
demo_ws_base = codes "wss://external-api-ws.demo.kalshi.co"

abbrev pub prod_http_base : Text
prod_http_base = codes "https://external-api.kalshi.com"

abbrev pub prod_ws_base : Text
prod_ws_base = codes "wss://external-api-ws.kalshi.com"

unfoldable pub http_base_for_env : Environment → Text
http_base_for_env prod = prod_http_base
http_base_for_env demo = demo_http_base
http_base_for_env other = []

pub record ClientConfig (K : Type 0) (R : Type 0) : Type 0 where
  pub environment : Environment
  pub credentials : Credentials K R
  pub http_base_url : Text
  pub ws_base_url : Text

-- The variables and the base URLs of an environment.
pub record Defaults : Type 0 where
  pub key_id_var : Text
  pub key_file_var : Text
  pub http_base : Text
  pub ws_base : Text

unfoldable pub defaults : Environment → Defaults
defaults demo = record {
  key_id_var = codes "KALSHI_DEMO_API_KEY_ID";
  key_file_var = codes "KALSHI_DEMO_PRIVATE_KEY_FILE";
  http_base = demo_http_base;
  ws_base = demo_ws_base;
}
defaults prod = record {
  key_id_var = codes "KALSHI_PROD_API_KEY_ID";
  key_file_var = codes "KALSHI_PROD_PRIVATE_KEY_FILE";
  http_base = prod_http_base;
  ws_base = prod_ws_base;
}
defaults other = record { key_id_var = []; key_file_var = []; http_base = []; ws_base = [] }

-- The environment that `KALSHI_ENVIRONMENT` names, in upper case.
unfoldable pub named_environment : (Text → Text) → Text → Text ⊎ Environment
named_environment quote env_str =
    if env_str == codes "PROD"
    then inr prod
    else if env_str == codes "DEMO" || is_empty env_str
    then inr demo
    else inl
        (codes "invalid KALSHI_ENVIRONMENT: " ++ quote env_str ++ codes " (expected DEMO or PROD)")

-- A base URL, unless its variable overrides it.
unfoldable pub overridden : Text → Text → Text
overridden override base = if is_empty override then base else override

module _ (crypto : Crypto) (getenv : Text → Text) where
  open crypto use {K, R}

  unfoldable pub load_config : Environment → Text → Text → Text ⊎ ClientConfig K R
  unfolding defaults overridden
  load_config env key_id key_file = elim (load_credentials crypto key_id key_file) [
    | inl err ↦ inl (codes "failed to load credentials: " ++ auth_error_text err)
    | inr creds ↦ inr (record {
      environment = env;
      credentials = creds;
      http_base_url = overridden (getenv (codes "KALSHI_HTTP_BASE_URL")) (defaults env).http_base;
      ws_base_url = overridden (getenv (codes "KALSHI_WS_BASE_URL")) (defaults env).ws_base;
    })
  ]

  unfoldable pub config_for : Environment → Text ⊎ ClientConfig K R
  unfolding defaults load_config
  config_for env =
      let key_id = getenv (defaults env).key_id_var in
      let key_file = getenv (defaults env).key_file_var in
      if is_empty key_id
      then inl (codes "missing environment variable: " ++ (defaults env).key_id_var)
      else if is_empty key_file
      then inl (codes "missing environment variable: " ++ (defaults env).key_file_var)
      else load_config env key_id key_file

  unfoldable pub new_client_config : (Text → Text) → Text ⊎ ClientConfig K R
  unfolding named_environment config_for to_upper
  new_client_config quote =
      elim (named_environment quote (to_upper (getenv (codes "KALSHI_ENVIRONMENT")))) [
        | inl err ↦ inl err
        | inr env ↦ config_for env
      ]
