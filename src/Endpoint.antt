-- ===== src/Endpoint.antt =====
-- The endpoint methods: paths.go, and what the methods of `Client` in the other files ask for. Each
-- asks for one call; `perform` makes it with `doJSON`. The children are named for the files of
-- the methods. A request body is of any type.
pub mod Account
pub mod ApiKeys
pub mod BlockTrades
pub mod Communications
pub mod EventOrders
pub mod Events
pub mod Exchange
pub mod Fcm
pub mod Historical
pub mod Incentive
pub mod IntraExchange
pub mod LiveData
pub mod Markets
pub mod Milestones
pub mod MveCollections
pub mod OrderGroups
pub mod Orders
pub mod Portfolio
pub mod Search
pub mod Series
pub mod StructuredTargets
pub mod Subaccounts
pub mod Summary
pub mod TargetBalance
pub mod Params
pub mod Batch
pub mod Routes
mod Tests
use gokalshi.Base.{ℕ, ℤ, pos, ◌++◌, Option, none, some, List, [], ◌∷◌, ◌⊎◌, Text, codes, Map}
use gokalshi.Float.{Float}
use gokalshi.Client.{Client, RequestError, Call, do_json}
use gokalshi.Client.Configure.{Fetch}

abbrev pub path_account : Text
path_account = codes "/trade-api/v2/account"

abbrev pub path_api_keys : Text
path_api_keys = codes "/trade-api/v2/api_keys"

abbrev pub path_communications : Text
path_communications = codes "/trade-api/v2/communications"

abbrev pub path_events : Text
path_events = codes "/trade-api/v2/events"

abbrev pub path_exchange : Text
path_exchange = codes "/trade-api/v2/exchange"

abbrev pub path_fcm : Text
path_fcm = codes "/trade-api/v2/fcm"

abbrev pub path_historical : Text
path_historical = codes "/trade-api/v2/historical"

abbrev pub path_incentive_programs : Text
path_incentive_programs = codes "/trade-api/v2/incentive_programs"

abbrev pub path_live_data : Text
path_live_data = codes "/trade-api/v2/live_data"

abbrev pub path_markets : Text
path_markets = codes "/trade-api/v2/markets"

abbrev pub path_milestones : Text
path_milestones = codes "/trade-api/v2/milestones"

abbrev pub path_mve_collections : Text
path_mve_collections = codes "/trade-api/v2/multivariate_event_collections"

abbrev pub path_portfolio : Text
path_portfolio = codes "/trade-api/v2/portfolio"

abbrev pub path_search : Text
path_search = codes "/trade-api/v2/search"

abbrev pub path_series : Text
path_series = codes "/trade-api/v2/series"

abbrev pub path_structured_targets : Text
path_structured_targets = codes "/trade-api/v2/structured_targets"

abbrev pub path_orders : Text
path_orders = path_portfolio ++ codes "/orders"

abbrev pub path_event_orders : Text
path_event_orders = path_portfolio ++ codes "/events/orders"

abbrev pub path_order_groups : Text
path_order_groups = path_portfolio ++ codes "/order_groups"

abbrev pub path_subaccounts : Text
path_subaccounts = path_portfolio ++ codes "/subaccounts"

abbrev pub path_target_balance_allocation : Text
path_target_balance_allocation = path_portfolio ++ codes "/target_balance_allocation"

abbrev pub path_intra_exchange_transfer : Text
path_intra_exchange_transfer = path_portfolio ++ codes "/intra_exchange_instance_transfer"

abbrev pub path_intra_exchange_transfers : Text
path_intra_exchange_transfers = path_portfolio ++ codes "/intra_exchange_instance_transfers"

abbrev pub path_block_trade_proposals : Text
path_block_trade_proposals = path_communications ++ codes "/block-trade-proposals"

-- The arguments of `do`.
pub record Endpoint (F : Type 0) (B : Type 0) : Type 0 where
  pub verb : Text
  pub target : Text
  pub read_cost : F
  pub write_cost : F
  pub units : ℤ
  pub body : Option B
  pub params : Map Text Text

module _ {F : Type 0} {B : Type 0} where
  -- The call, with what it meets.
  unfoldable pub call_of : Endpoint F B → Fetch F → Call F B
  call_of e fetch = record {
    call_method = e.verb;
    path = e.target;
    read_cost = e.read_cost;
    write_cost = e.write_cost;
    units = e.units;
    body = e.body;
    params = e.params;
    attempts = fetch.fetch_attempts;
    exchanges = fetch.fetch_exchanges;
  }

module _ (float : Float) {B : Type 0} where
  open float use {F, of_ℕ, zero}

  -- `getJSON`.
  abbrev pub get_json : Text → Map Text Text → Endpoint F B
  get_json path params = record {
    verb = codes "GET";
    target = path;
    read_cost = of_ℕ 10;
    write_cost = zero;
    units = pos 1;
    body = none;
    params = params;
  }

  -- `do` and `doJSON` with costs for writing only.
  abbrev pub write_request : Text → Text → ℕ → ℤ → Option B → Map Text Text → Endpoint F B
  write_request method path write_cost units body params = record {
    verb = method;
    target = path;
    read_cost = zero;
    write_cost = of_ℕ write_cost;
    units = units;
    body = body;
    params = params;
  }

  -- `postJSON`.
  abbrev pub post_json : Text → Option B → ℕ → Endpoint F B
  post_json path body write_cost = write_request (codes "POST") path write_cost (pos 1) body []

  -- `Client.post`, `Client.delete` and `Client.put`.
  abbrev pub post_to : Text → Option B → ℕ → Endpoint F B
  post_to path body write_cost = write_request (codes "POST") path write_cost (pos 1) body []

  abbrev pub delete_at : Text → Option B → ℕ → Endpoint F B
  delete_at path body write_cost = write_request (codes "DELETE") path write_cost (pos 1) body []

  abbrev pub put_at : Text → Option B → ℕ → Endpoint F B
  put_at path body write_cost = write_request (codes "PUT") path write_cost (pos 1) body []

module _ (float : Float) {B : Type 0} (nested flat : Text → Option (Text × Text))
    (encode : Map Text Text → Text) (marshal : B → Option Text) where
  open float use {F}

  -- A method of the client: its endpoint, decoded by `decode`.
  unfoldable pub perform {ℓ} :
      {T : Type ℓ}
      → (Text → Option T)
      → Endpoint F B
      → Fetch F
      → Client F
      → Client F × Option (RequestError ⊎ T)
  unfolding call_of
  perform decode e fetch c = do_json float nested flat encode marshal decode c (call_of e fetch)
