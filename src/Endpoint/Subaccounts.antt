-- ===== src/Endpoint/Subaccounts.antt =====
-- subaccounts.go: its methods, and the parameters of their queries.
use gokalshi.Base.{ℤ, none, some, [], Text, codes, Map, ◌∷◌, ◌++◌}
use gokalshi.Float.{Float}
use gokalshi.Query.{build_query, string_param, int_param}
use gokalshi.Endpoint.{Endpoint, get_json, post_json, put_at, path_subaccounts}

pub record GetSubaccountTransfersParams : Type 0 where
  pub limit : ℤ
  pub cursor : Text

unfoldable pub get_subaccount_transfers_to_map : GetSubaccountTransfersParams → Map Text Text
get_subaccount_transfers_to_map p =
    build_query (int_param (codes "limit") p.limit ∷ string_param (codes "cursor") p.cursor ∷ [])

module _ (float : Float) where
  open float use {F}

  abbrev pub create_subaccount : {B : Type 0} → Endpoint F B
  create_subaccount = post_json float path_subaccounts none 10

  abbrev pub get_subaccount_balances : {B : Type 0} → Endpoint F B
  get_subaccount_balances = get_json float (path_subaccounts ++ codes "/balances") []

  abbrev pub get_subaccount_netting : {B : Type 0} → Endpoint F B
  get_subaccount_netting = get_json float (path_subaccounts ++ codes "/netting") []

  abbrev pub update_subaccount_netting : {B : Type 0} → B → Endpoint F B
  update_subaccount_netting req = put_at float (path_subaccounts ++ codes "/netting") (some req) 10

  abbrev pub apply_subaccount_transfer : {B : Type 0} → B → Endpoint F B
  apply_subaccount_transfer req =
      post_json float (path_subaccounts ++ codes "/transfer") (some req) 10

  abbrev pub get_subaccount_transfers : {B : Type 0} → GetSubaccountTransfersParams → Endpoint F B
  get_subaccount_transfers params =
      get_json float (path_subaccounts ++ codes "/transfers")
        (get_subaccount_transfers_to_map params)
