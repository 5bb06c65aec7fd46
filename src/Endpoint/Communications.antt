-- ===== src/Endpoint/Communications.antt =====
-- communications.go: its methods, and the parameters of their queries.
use gokalshi.Base.{ℤ, pos, none, some, [], Text, codes, Map, ◌∷◌, ◌++◌}
use gokalshi.Float.{Float}
use gokalshi.Query.{build_query, string_param, int_param}
use gokalshi.Endpoint.{
  Endpoint, get_json, write_request, post_json, delete_at, put_at, path_communications,
}

pub record GetRfqsParams : Type 0 where
  pub cursor : Text
  pub event_ticker : Text
  pub ticker : Text
  pub subaccount : Text
  pub limit : ℤ
  pub status : Text
  pub user_filter : Text

unfoldable pub get_rfqs_to_map : GetRfqsParams → Map Text Text
get_rfqs_to_map p = build_query (
    string_param (codes "cursor") p.cursor
    ∷ string_param (codes "event_ticker") p.event_ticker
    ∷ string_param (codes "market_ticker") p.ticker
    ∷ string_param (codes "subaccount") p.subaccount
    ∷ int_param (codes "limit") p.limit
    ∷ string_param (codes "status") p.status
    ∷ string_param (codes "user_filter") p.user_filter
    ∷ [])

pub record GetQuotesParams : Type 0 where
  pub cursor : Text
  pub event_ticker : Text
  pub ticker : Text
  pub limit : ℤ
  pub status : Text
  pub user_filter : Text
  pub rfq_user_filter : Text
  pub rfq_id : Text

unfoldable pub get_quotes_to_map : GetQuotesParams → Map Text Text
get_quotes_to_map p = build_query (
    string_param (codes "cursor") p.cursor
    ∷ string_param (codes "event_ticker") p.event_ticker
    ∷ string_param (codes "market_ticker") p.ticker
    ∷ int_param (codes "limit") p.limit
    ∷ string_param (codes "status") p.status
    ∷ string_param (codes "user_filter") p.user_filter
    ∷ string_param (codes "rfq_user_filter") p.rfq_user_filter
    ∷ string_param (codes "rfq_id") p.rfq_id
    ∷ [])

abbrev pub rfq_quote_path : Text → Text → Text
rfq_quote_path rfq_id quote_id =
    path_communications ++ codes "/rfqs/" ++ rfq_id ++ codes "/quotes/" ++ quote_id

module _ (float : Float) where
  open float use {F, of_ℕ}

  abbrev pub get_communications_id : {B : Type 0} → Endpoint F B
  get_communications_id = get_json float (path_communications ++ codes "/id") []

  abbrev pub create_rfq : {B : Type 0} → B → Endpoint F B
  create_rfq req = post_json float (path_communications ++ codes "/rfqs") (some req) 10

  abbrev pub get_rfqs : {B : Type 0} → GetRfqsParams → Endpoint F B
  get_rfqs params = get_json float (path_communications ++ codes "/rfqs") (get_rfqs_to_map params)

  abbrev pub get_rfq : {B : Type 0} → Text → Endpoint F B
  get_rfq rfq_id = get_json float (path_communications ++ codes "/rfqs/" ++ rfq_id) []

  abbrev pub delete_rfq : {B : Type 0} → Text → Endpoint F B
  delete_rfq rfq_id = delete_at float (path_communications ++ codes "/rfqs/" ++ rfq_id) none 10

  abbrev pub create_quote : {B : Type 0} → B → Endpoint F B
  create_quote req = post_json float (path_communications ++ codes "/quotes") (some req) 10

  abbrev pub get_quotes : {B : Type 0} → GetQuotesParams → Endpoint F B
  get_quotes params =
      get_json float (path_communications ++ codes "/quotes") (get_quotes_to_map params)

  abbrev pub get_quote : {B : Type 0} → Text → Endpoint F B
  get_quote quote_id = get_json float (path_communications ++ codes "/quotes/" ++ quote_id) []

  abbrev pub delete_quote : {B : Type 0} → Text → Endpoint F B
  delete_quote quote_id =
      delete_at float (path_communications ++ codes "/quotes/" ++ quote_id) none 10

  abbrev pub accept_quote : {B : Type 0} → Text → B → Endpoint F B
  accept_quote quote_id req =
      put_at float (path_communications ++ codes "/quotes/" ++ quote_id ++ codes "/accept")
        (some req) 10

  abbrev pub confirm_quote : {B : Type 0} → Text → Endpoint F B
  confirm_quote quote_id =
      put_at float (path_communications ++ codes "/quotes/" ++ quote_id ++ codes "/confirm") none 10

  abbrev pub get_rfq_quote : {B : Type 0} → Text → Text → Endpoint F B
  get_rfq_quote rfq_id quote_id = record (get_json float (rfq_quote_path rfq_id quote_id) []) {
    read_cost = of_ℕ 2;
  }

  abbrev pub delete_rfq_quote : {B : Type 0} → Text → Text → Endpoint F B
  delete_rfq_quote rfq_id quote_id =
      write_request float (codes "DELETE") (rfq_quote_path rfq_id quote_id) 2 (pos 1) none []

  abbrev pub accept_rfq_quote : {B : Type 0} → Text → Text → B → Endpoint F B
  accept_rfq_quote rfq_id quote_id req =
      put_at float (rfq_quote_path rfq_id quote_id ++ codes "/accept") (some req) 10

  abbrev pub confirm_rfq_quote : Text → Text → Endpoint F Unit
  confirm_rfq_quote rfq_id quote_id =
      put_at float (rfq_quote_path rfq_id quote_id ++ codes "/confirm") (some tt) 10
