-- ===== src/Endpoint/TargetBalance.antt =====
-- target_balance.go: its methods.
use gokalshi.Base.{some, []}
use gokalshi.Float.{Float}
use gokalshi.Endpoint.{Endpoint, get_json, post_json, path_target_balance_allocation}

module _ (float : Float) where
  open float use {F}

  abbrev pub get_target_balance_allocation : {B : Type 0} → Endpoint F B
  get_target_balance_allocation = get_json float path_target_balance_allocation []

  abbrev pub set_target_balance_allocation : {B : Type 0} → B → Endpoint F B
  set_target_balance_allocation req = post_json float path_target_balance_allocation (some req) 10
