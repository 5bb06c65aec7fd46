-- ===== src/Endpoint/Portfolio.antt =====
-- portfolio.go: its methods, and the parameters of their queries.
use gokalshi.Base.{ℤ, [], Text, codes, Map, ◌∷◌, ◌++◌}
use gokalshi.Float.{Float}
use gokalshi.Query.{build_query, string_param, int_param, int64_param}
use gokalshi.Endpoint.{Endpoint, get_json, path_portfolio}

pub record GetPositionsParams : Type 0 where
  pub ticker : Text
  pub event_ticker : Text
  pub count_filter : Text
  pub limit : ℤ
  pub cursor : Text
  pub subaccount : ℤ

unfoldable pub get_positions_to_map : GetPositionsParams → Map Text Text
get_positions_to_map p = build_query (
    string_param (codes "ticker") p.ticker
    ∷ string_param (codes "event_ticker") p.event_ticker
    ∷ string_param (codes "count_filter") p.count_filter
    ∷ int_param (codes "limit") p.limit
    ∷ string_param (codes "cursor") p.cursor
    ∷ int_param (codes "subaccount") p.subaccount
    ∷ [])

pub record GetFillsParams : Type 0 where
  pub ticker : Text
  pub order_id : Text
  pub min_ts : ℤ
  pub max_ts : ℤ
  pub limit : ℤ
  pub cursor : Text
  pub subaccount : ℤ

unfoldable pub get_fills_to_map : GetFillsParams → Map Text Text
get_fills_to_map p = build_query (
    string_param (codes "ticker") p.ticker
    ∷ string_param (codes "order_id") p.order_id
    ∷ int64_param (codes "min_ts") p.min_ts
    ∷ int64_param (codes "max_ts") p.max_ts
    ∷ int_param (codes "limit") p.limit
    ∷ string_param (codes "cursor") p.cursor
    ∷ int_param (codes "subaccount") p.subaccount
    ∷ [])

pub record GetSettlementsParams : Type 0 where
  pub ticker : Text
  pub event_ticker : Text
  pub min_ts : ℤ
  pub max_ts : ℤ
  pub limit : ℤ
  pub cursor : Text
  pub subaccount : ℤ

unfoldable pub get_settlements_to_map : GetSettlementsParams → Map Text Text
get_settlements_to_map p = build_query (
    string_param (codes "ticker") p.ticker
    ∷ string_param (codes "event_ticker") p.event_ticker
    ∷ int64_param (codes "min_ts") p.min_ts
    ∷ int64_param (codes "max_ts") p.max_ts
    ∷ int_param (codes "limit") p.limit
    ∷ string_param (codes "cursor") p.cursor
    ∷ int_param (codes "subaccount") p.subaccount
    ∷ [])

pub record GetDepositsParams : Type 0 where
  pub limit : ℤ
  pub cursor : Text

unfoldable pub get_deposits_to_map : GetDepositsParams → Map Text Text
get_deposits_to_map p =
    build_query (int_param (codes "limit") p.limit ∷ string_param (codes "cursor") p.cursor ∷ [])

pub record GetWithdrawalsParams : Type 0 where
  pub limit : ℤ
  pub cursor : Text

unfoldable pub get_withdrawals_to_map : GetWithdrawalsParams → Map Text Text
get_withdrawals_to_map p =
    build_query (int_param (codes "limit") p.limit ∷ string_param (codes "cursor") p.cursor ∷ [])

module _ (float : Float) where
  open float use {F}

  abbrev pub get_balance : {B : Type 0} → Endpoint F B
  get_balance = get_json float (path_portfolio ++ codes "/balance") []

  abbrev pub get_positions : {B : Type 0} → GetPositionsParams → Endpoint F B
  get_positions params =
      get_json float (path_portfolio ++ codes "/positions") (get_positions_to_map params)

  abbrev pub get_fills : {B : Type 0} → GetFillsParams → Endpoint F B
  get_fills params = get_json float (path_portfolio ++ codes "/fills") (get_fills_to_map params)

  abbrev pub get_settlements : {B : Type 0} → GetSettlementsParams → Endpoint F B
  get_settlements params =
      get_json float (path_portfolio ++ codes "/settlements") (get_settlements_to_map params)

  abbrev pub get_deposits : {B : Type 0} → GetDepositsParams → Endpoint F B
  get_deposits params =
      get_json float (path_portfolio ++ codes "/deposits") (get_deposits_to_map params)

  abbrev pub get_withdrawals : {B : Type 0} → GetWithdrawalsParams → Endpoint F B
  get_withdrawals params =
      get_json float (path_portfolio ++ codes "/withdrawals") (get_withdrawals_to_map params)
