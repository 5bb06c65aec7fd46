-- ===== src/Endpoint/OrderGroups.antt =====
-- order_groups.go: its methods, and the parameters of their queries.
use gokalshi.Base.{ℤ, pos, none, some, [], Text, codes, Map, ◌∷◌, ◌++◌}
use gokalshi.Float.{Float}
use gokalshi.Query.{build_query, string_param, int_param}
use gokalshi.Endpoint.{Endpoint, get_json, write_request, post_json, path_order_groups}

pub record GetOrderGroupsParams : Type 0 where
  pub subaccount : Text

unfoldable pub get_order_groups_to_map : GetOrderGroupsParams → Map Text Text
get_order_groups_to_map p = build_query (string_param (codes "subaccount") p.subaccount ∷ [])

pub record GetOrderGroupParams : Type 0 where
  pub subaccount : Text

unfoldable pub get_order_group_to_map : GetOrderGroupParams → Map Text Text
get_order_group_to_map p = build_query (string_param (codes "subaccount") p.subaccount ∷ [])

pub record DeleteOrderGroupParams : Type 0 where
  pub subaccount : Text
  pub exchange_index : ℤ

unfoldable pub delete_order_group_to_map : DeleteOrderGroupParams → Map Text Text
delete_order_group_to_map p = build_query (
    string_param (codes "subaccount") p.subaccount
    ∷ int_param (codes "exchange_index") p.exchange_index
    ∷ [])

pub record OrderGroupActionParams : Type 0 where
  pub subaccount : Text
  pub exchange_index : ℤ

unfoldable pub order_group_action_to_map : OrderGroupActionParams → Map Text Text
order_group_action_to_map p = build_query (
    string_param (codes "subaccount") p.subaccount
    ∷ int_param (codes "exchange_index") p.exchange_index
    ∷ [])

pub record UpdateOrderGroupLimitParams : Type 0 where
  pub exchange_index : ℤ

unfoldable pub update_order_group_limit_to_map : UpdateOrderGroupLimitParams → Map Text Text
update_order_group_limit_to_map p =
    build_query (int_param (codes "exchange_index") p.exchange_index ∷ [])

module _ (float : Float) where
  open float use {F}

  abbrev pub create_order_group : {B : Type 0} → B → Endpoint F B
  create_order_group req = post_json float (path_order_groups ++ codes "/create") (some req) 10

  abbrev pub get_order_groups : {B : Type 0} → GetOrderGroupsParams → Endpoint F B
  get_order_groups params = get_json float path_order_groups (get_order_groups_to_map params)

  abbrev pub get_order_group : {B : Type 0} → Text → GetOrderGroupParams → Endpoint F B
  get_order_group order_group_id params =
      get_json float (path_order_groups ++ codes "/" ++ order_group_id)
        (get_order_group_to_map params)

  abbrev pub delete_order_group : {B : Type 0} → Text → DeleteOrderGroupParams → Endpoint F B
  delete_order_group order_group_id params =
      write_request float (codes "DELETE") (path_order_groups ++ codes "/" ++ order_group_id) 10
        (pos 1) none (delete_order_group_to_map params)

  abbrev pub reset_order_group : {B : Type 0} → Text → OrderGroupActionParams → Endpoint F B
  reset_order_group order_group_id params =
      write_request float (codes "PUT")
        (path_order_groups ++ codes "/" ++ order_group_id ++ codes "/reset") 10 (pos 1) none
        (order_group_action_to_map params)

  abbrev pub trigger_order_group : {B : Type 0} → Text → OrderGroupActionParams → Endpoint F B
  trigger_order_group order_group_id params =
      write_request float (codes "PUT")
        (path_order_groups ++ codes "/" ++ order_group_id ++ codes "/trigger") 10 (pos 1) none
        (order_group_action_to_map params)

  abbrev pub update_order_group_limit :
      {B : Type 0} → Text → B → UpdateOrderGroupLimitParams → Endpoint F B
  update_order_group_limit order_group_id req params =
      write_request float (codes "PUT")
        (path_order_groups ++ codes "/" ++ order_group_id ++ codes "/limit") 10 (pos 1) (some req)
        (update_order_group_limit_to_map params)
