-- ===== src/Endpoint/Search.antt =====
-- search.go: its methods.
use gokalshi.Base.{[], codes, ◌++◌}
use gokalshi.Float.{Float}
use gokalshi.Endpoint.{Endpoint, get_json, path_search}

module _ (float : Float) where
  open float use {F}

  abbrev pub get_tags_by_categories : {B : Type 0} → Endpoint F B
  get_tags_by_categories = get_json float (path_search ++ codes "/tags_by_categories") []

  abbrev pub get_filters_by_sport : {B : Type 0} → Endpoint F B
  get_filters_by_sport = get_json float (path_search ++ codes "/filters_by_sport") []
