-- ===== src/Endpoint/StructuredTargets.antt =====
-- structured_targets.go: its methods, and the parameters of their queries.
use gokalshi.Base.{ℤ, [], Text, codes, Map, ◌∷◌, ◌++◌}
use gokalshi.Float.{Float}
use gokalshi.Query.{build_query, string_param, int_param}
use gokalshi.Endpoint.{Endpoint, get_json, path_structured_targets}

pub record GetStructuredTargetsParams : Type 0 where
  pub cursor : Text
  pub limit : ℤ
  pub event_ticker : Text

unfoldable pub get_structured_targets_to_map : GetStructuredTargetsParams → Map Text Text
get_structured_targets_to_map p = build_query (
    string_param (codes "cursor") p.cursor
    ∷ int_param (codes "limit") p.limit
    ∷ string_param (codes "event_ticker") p.event_ticker
    ∷ [])

module _ (float : Float) where
  open float use {F}

  abbrev pub get_structured_targets : {B : Type 0} → GetStructuredTargetsParams → Endpoint F B
  get_structured_targets params =
      get_json float path_structured_targets (get_structured_targets_to_map params)

  abbrev pub get_structured_target : {B : Type 0} → Text → Endpoint F B
  get_structured_target structured_target_id =
      get_json float (path_structured_targets ++ codes "/" ++ structured_target_id) []
