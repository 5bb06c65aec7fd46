-- ===== src/Endpoint/BlockTrades.antt =====
-- block_trades.go: its methods, and the parameters of their queries.
use gokalshi.Base.{ℤ, some, [], Text, codes, Map, ◌∷◌, ◌++◌}
use gokalshi.Float.{Float}
use gokalshi.Query.{build_query, string_param, int_param}
use gokalshi.Endpoint.{Endpoint, get_json, post_json, post_to, path_block_trade_proposals}

pub record GetBlockTradeProposalsParams : Type 0 where
  pub market_ticker : Text
  pub status : Text
  pub limit : ℤ
  pub cursor : Text

unfoldable pub get_block_trade_proposals_to_map : GetBlockTradeProposalsParams → Map Text Text
get_block_trade_proposals_to_map p = build_query (
    string_param (codes "market_ticker") p.market_ticker
    ∷ string_param (codes "status") p.status
    ∷ int_param (codes "limit") p.limit
    ∷ string_param (codes "cursor") p.cursor
    ∷ [])

module _ (float : Float) where
  open float use {F}

  abbrev pub get_block_trade_proposals : {B : Type 0} → GetBlockTradeProposalsParams → Endpoint F B
  get_block_trade_proposals params =
      get_json float path_block_trade_proposals (get_block_trade_proposals_to_map params)

  abbrev pub propose_block_trade : {B : Type 0} → B → Endpoint F B
  propose_block_trade req = post_json float path_block_trade_proposals (some req) 10

  abbrev pub accept_block_trade_proposal : {B : Type 0} → Text → B → Endpoint F B
  accept_block_trade_proposal proposal_id req =
      post_to float (path_block_trade_proposals ++ codes "/" ++ proposal_id ++ codes "/accept")
        (some req) 10
