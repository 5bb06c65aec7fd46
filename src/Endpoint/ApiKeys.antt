-- ===== src/Endpoint/ApiKeys.antt =====
-- api_keys.go: its methods.
use gokalshi.Base.{none, some, [], Text, codes, ◌++◌}
use gokalshi.Float.{Float}
use gokalshi.Endpoint.{Endpoint, get_json, post_json, delete_at, path_api_keys}

module _ (float : Float) where
  open float use {F}

  abbrev pub get_api_keys : {B : Type 0} → Endpoint F B
  get_api_keys = get_json float path_api_keys []

  abbrev pub create_api_key : {B : Type 0} → B → Endpoint F B
  create_api_key req = post_json float path_api_keys (some req) 10

  abbrev pub generate_api_key : {B : Type 0} → B → Endpoint F B
  generate_api_key req = post_json float (path_api_keys ++ codes "/generate") (some req) 10

  abbrev pub delete_api_key : {B : Type 0} → Text → Endpoint F B
  delete_api_key api_key = delete_at float (path_api_keys ++ codes "/" ++ api_key) none 10
