-- ===== src/Endpoint/LiveData.antt =====
-- live_data.go: its methods, and the parameters of their queries.
use gokalshi.Base.{ℤ, Bool, [], Text, codes, Map, ◌∷◌, ◌++◌}
use gokalshi.Float.{Float}
use gokalshi.Query.{build_query, string_param, int_param, int64_param, bool_param}
use gokalshi.Endpoint.{Endpoint, get_json, path_live_data}

pub record GetLiveDataBatchParams : Type 0 where
  pub milestone_ids : Text

unfoldable pub get_live_data_batch_to_map : GetLiveDataBatchParams → Map Text Text
get_live_data_batch_to_map p =
    build_query (string_param (codes "milestone_ids") p.milestone_ids ∷ [])

pub record GetLiveDataParams : Type 0 where
  pub include_player_stats : Bool

unfoldable pub get_live_data_to_map : GetLiveDataParams → Map Text Text
get_live_data_to_map p =
    build_query (bool_param (codes "include_player_stats") p.include_player_stats ∷ [])

pub record GetEventLiveDataParams : Type 0 where
  pub range : Text

unfoldable pub get_event_live_data_to_map : GetEventLiveDataParams → Map Text Text
get_event_live_data_to_map p = build_query (string_param (codes "range") p.range ∷ [])

pub record GetWeatherIndexParams : Type 0 where
  pub from : ℤ
  pub to : ℤ
  pub last_sec : ℤ
  pub detailed : Bool

unfoldable pub get_weather_index_to_map : GetWeatherIndexParams → Map Text Text
get_weather_index_to_map p = build_query (
    int64_param (codes "from") p.from
    ∷ int64_param (codes "to") p.to
    ∷ int_param (codes "last_sec") p.last_sec
    ∷ bool_param (codes "detailed") p.detailed
    ∷ [])

module _ (float : Float) where
  open float use {F}

  abbrev pub get_live_data_batch : {B : Type 0} → GetLiveDataBatchParams → Endpoint F B
  get_live_data_batch params =
      get_json float (path_live_data ++ codes "/batch") (get_live_data_batch_to_map params)

  abbrev pub get_live_data_by_milestone : {B : Type 0} → Text → GetLiveDataParams → Endpoint F B
  get_live_data_by_milestone milestone_id params =
      get_json float (path_live_data ++ codes "/milestone/" ++ milestone_id)
        (get_live_data_to_map params)

  abbrev pub get_milestone_game_stats : {B : Type 0} → Text → Endpoint F B
  get_milestone_game_stats milestone_id =
      get_json float (path_live_data ++ codes "/milestone/" ++ milestone_id ++ codes "/game_stats")
        []

  abbrev pub get_live_data : {B : Type 0} → Text → Text → GetLiveDataParams → Endpoint F B
  get_live_data data_type milestone_id params =
      get_json float
        (path_live_data ++ codes "/" ++ data_type ++ codes "/milestone/" ++ milestone_id)
        (get_live_data_to_map params)

  abbrev pub get_event_live_data : {B : Type 0} → Text → GetEventLiveDataParams → Endpoint F B
  get_event_live_data event_ticker params =
      get_json float (path_live_data ++ codes "/events/" ++ event_ticker)
        (get_event_live_data_to_map params)

  abbrev pub get_weather_index : {B : Type 0} → Text → GetWeatherIndexParams → Endpoint F B
  get_weather_index city params =
      get_json float (path_live_data ++ codes "/weather/" ++ city) (get_weather_index_to_map params)

  abbrev pub get_weather_index_calibrations : {B : Type 0} → Text → Endpoint F B
  get_weather_index_calibrations city =
      get_json float (path_live_data ++ codes "/weather/" ++ city ++ codes "/calibrations") []
