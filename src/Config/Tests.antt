-- ===== src/Config/Tests.antt =====
-- Runs of config.go at concrete inputs, with a loader that takes every file.
use gokalshi.Base.{
  ℕ, ◌≡◌, refl, some, [], inl, inr, if◌then◌else◌, Text, codes, text_eqb, text_eq, to_upper,
}
use gokalshi.Auth.{
  Crypto, rsa_key, load_credentials, credentials_in_file, key_in_file, new_credentials,
}
use gokalshi.Config.{
  prod, ClientConfig, defaults, named_environment, overridden, new_client_config, config_for,
  load_config, prod_http_base, prod_ws_base,
}
use gokalshi.Config.Separate.{new_client_config-separate}

abbrev numbers : Crypto
numbers = record {
  K = ℕ;
  R = ℕ;
  random_reader = 0;
  read_file = λ path. inr path;
  pem_decode = λ t. some t;
  parse_pkcs8 = λ t. inr (rsa_key 7);
  parse_pkcs1 = λ t. inl [];
  sha256 = λ t. t;
  sign_pss = λ r key digest. inr digest;
  encode_base64 = λ t. t;
}

-- Production, with a key and a file; of the demo variables, `demo_key` is one.
abbrev variables : Text → Text → Text
variables demo_key var =
    if text_eqb var (codes "KALSHI_ENVIRONMENT")
    then codes "prod"
    else if text_eqb var (codes "KALSHI_PROD_API_KEY_ID")
    then codes "id"
    else if text_eqb var (codes "KALSHI_PROD_PRIVATE_KEY_FILE")
    then codes "f"
    else if text_eqb var (codes "KALSHI_DEMO_API_KEY_ID")
    then demo_key
    else []

production : ClientConfig ℕ ℕ
production = record {
  environment = prod;
  credentials = record { key_id = codes "id"; private_key = 7; rand = some 0 };
  http_base_url = prod_http_base;
  ws_base_url = prod_ws_base;
}

new_client_config_test : new_client_config numbers (variables []) (λ t. t) ≡ inr production
unfolding production new_client_config config_for load_config defaults named_environment overridden
    to_upper text_eqb load_credentials credentials_in_file key_in_file new_credentials
new_client_config_test = refl

-- A demo key changes nothing.
new_client_config-separate_example :
    new_client_config numbers (variables []) (λ t. t)
    ≡ new_client_config numbers (variables (codes "demo")) (λ t. t)
unfolding named_environment defaults to_upper text_eqb
new_client_config-separate_example =
    new_client_config-separate numbers (variables []) (variables (codes "demo")) (λ t. t) prod refl
      refl (record { key_id = refl; key_file = refl; http = refl; ws = refl })
