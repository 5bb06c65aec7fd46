-- ===== src/Endpoint/Account.antt =====
-- account.go: its methods.
use gokalshi.Base.{none, [], codes, ◌++◌}
use gokalshi.Float.{Float}
use gokalshi.Endpoint.{Endpoint, get_json, post_to, path_account}

module _ (float : Float) where
  open float use {F}

  abbrev pub get_account_api_limits : {B : Type 0} → Endpoint F B
  get_account_api_limits = get_json float (path_account ++ codes "/limits") []

  abbrev pub get_account_endpoint_costs : {B : Type 0} → Endpoint F B
  get_account_endpoint_costs = get_json float (path_account ++ codes "/endpoint_costs") []

  abbrev pub upgrade_api_usage_level : {B : Type 0} → Endpoint F B
  upgrade_api_usage_level = post_to float (path_account ++ codes "/api_usage_level/upgrade") none 30

  abbrev pub get_account_api_usage_level_volume_progress : {B : Type 0} → Endpoint F B
  get_account_api_usage_level_volume_progress =
      get_json float (path_account ++ codes "/api_usage_level/volume_progress") []
