-- ===== src/Endpoint/Summary.antt =====
-- summary.go: its methods.
use gokalshi.Base.{[], codes, ◌++◌}
use gokalshi.Float.{Float}
use gokalshi.Endpoint.{Endpoint, get_json, path_portfolio}

module _ (float : Float) where
  open float use {F}

  abbrev pub get_portfolio_resting_order_total_value : {B : Type 0} → Endpoint F B
  get_portfolio_resting_order_total_value =
      get_json float (path_portfolio ++ codes "/summary/total_resting_order_value") []
