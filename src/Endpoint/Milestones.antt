-- ===== src/Endpoint/Milestones.antt =====
-- milestones.go: its methods, and the parameters of their queries.
use gokalshi.Base.{ℤ, [], Text, codes, Map, ◌∷◌, ◌++◌}
use gokalshi.Float.{Float}
use gokalshi.Query.{build_query, string_param, int_param}
use gokalshi.Endpoint.{Endpoint, get_json, path_milestones}

pub record GetMilestonesParams : Type 0 where
  pub cursor : Text
  pub limit : ℤ
  pub event_ticker : Text

unfoldable pub get_milestones_to_map : GetMilestonesParams → Map Text Text
get_milestones_to_map p = build_query (
    string_param (codes "cursor") p.cursor
    ∷ int_param (codes "limit") p.limit
    ∷ string_param (codes "event_ticker") p.event_ticker
    ∷ [])

module _ (float : Float) where
  open float use {F}

  abbrev pub get_milestones : {B : Type 0} → GetMilestonesParams → Endpoint F B
  get_milestones params = get_json float path_milestones (get_milestones_to_map params)

  abbrev pub get_milestone : {B : Type 0} → Text → Endpoint F B
  get_milestone milestone_id = get_json float (path_milestones ++ codes "/" ++ milestone_id) []
