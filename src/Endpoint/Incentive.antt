-- ===== src/Endpoint/Incentive.antt =====
-- incentive.go: its methods.
use gokalshi.Base.{[]}
use gokalshi.Float.{Float}
use gokalshi.Endpoint.{Endpoint, get_json, path_incentive_programs}

module _ (float : Float) where
  open float use {F}

  abbrev pub get_incentive_programs : {B : Type 0} → Endpoint F B
  get_incentive_programs = get_json float path_incentive_programs []
