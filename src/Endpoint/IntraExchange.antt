-- ===== src/Endpoint/IntraExchange.antt =====
-- intra_exchange.go: its methods, and the parameters of their queries.
use gokalshi.Base.{ℤ, some, [], Text, codes, Map, ◌∷◌, ◌++◌}
use gokalshi.Float.{Float}
use gokalshi.Query.{build_query, string_param, int_param}
use gokalshi.Endpoint.{
  Endpoint, get_json, post_json, path_intra_exchange_transfer, path_intra_exchange_transfers,
}

pub record GetIntraExchangeInstanceTransfersParams : Type 0 where
  pub limit : ℤ
  pub cursor : Text

unfoldable pub get_intra_exchange_instance_transfers_to_map :
    GetIntraExchangeInstanceTransfersParams → Map Text Text
get_intra_exchange_instance_transfers_to_map p =
    build_query (int_param (codes "limit") p.limit ∷ string_param (codes "cursor") p.cursor ∷ [])

module _ (float : Float) where
  open float use {F}

  abbrev pub intra_exchange_instance_transfer : {B : Type 0} → B → Endpoint F B
  intra_exchange_instance_transfer req = post_json float path_intra_exchange_transfer (some req) 10

  abbrev pub get_intra_exchange_instance_transfers :
      {B : Type 0} → GetIntraExchangeInstanceTransfersParams → Endpoint F B
  get_intra_exchange_instance_transfers params =
      get_json float path_intra_exchange_transfers
        (get_intra_exchange_instance_transfers_to_map params)

  abbrev pub get_intra_exchange_instance_transfer : {B : Type 0} → Text → Endpoint F B
  get_intra_exchange_instance_transfer transfer_id =
      get_json float (path_intra_exchange_transfers ++ codes "/" ++ transfer_id) []
