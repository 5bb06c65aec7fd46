-- ===== src/Ws/State.antt =====
-- ws_types.go, ws_options.go, the fields of `WSClient`, and the commands of ws_messages_generated.go.
--
-- A `*ChannelState` is a number, the object's address in `cells`: `channels` and `sid_map` share
-- objects, and a caller may hold an object that is in neither. Ids and sequence numbers are plain
-- numbers. Two fields are what the client has done to the outside: `wire`, the commands that the
-- connection has taken, and `msg_ch`, the messages that were sent on the channel; oldest first.
use gokalshi.Base.{
  ℤ, pos, ℕ, String, Bool, true, false, Option, none, List, [], ◌∷◌, Map, if◌then◌else◌, ◌==◌,
  nat_eq, string_eq, put,
}

pub record ChannelState : Type 0 where
  pub name : String
  pub markets : List String
  pub pending_markets : List String
  pub sid : Option ℕ
  pub seq : ℕ
  pub global : Bool

unfoldable pub new_channel_state : String → ChannelState
new_channel_state name = record {
  name = name;
  markets = [];
  pending_markets = [];
  sid = none;
  seq = 0;
  global = false;
}

pub data WsUpdateAction : Type 0 where
  add_markets delete_markets get_snapshot : WsUpdateAction

-- The parameters that the client sets; an empty `market_tickers` is left out of the JSON text.
pub data Params : Type 0 where
  subscribe_params : List String → List String → Bool → Params
  unsubscribe_params : List ℕ → Params
  update_params : List ℕ → List String → WsUpdateAction → Bool → Params

pub record WsCommand : Type 0 where
  pub id : ℕ
  pub params : Params

-- A `*websocket.Conn`, with the read limit that was set on it.
pub record Conn : Type 0 where
  pub handle : ℕ
  pub read_limit : Option ℕ

pub record WsClient : Type 0 where
  pub conn : Option Conn
  pub msg_ch : List String
  pub msg_id : ℕ
  pub channels : Map String ℕ
  pub sid_map : Map ℕ ℕ
  pub pending_init : Map ℕ String
  pub cells : ℕ → ChannelState
  pub next_cell : ℕ
  pub read_limit : ℕ
  pub min_backoff : ℤ
  pub max_backoff : ℤ
  pub closed : Bool
  pub force_reconnect : Bool
  pub wire : List WsCommand

-- An option changes the client that `NewWSClient` has set up; durations are in nanoseconds.
unfoldable pub with_ws_read_limit : ℕ → WsClient → WsClient
with_ws_read_limit bytes c = record c { read_limit = bytes }

unfoldable pub with_ws_backoff : ℤ → ℤ → WsClient → WsClient
with_ws_backoff min max c = record c { min_backoff = min; max_backoff = max }

apply_all {ℓ} : {A : Type ℓ} → List (A → A) → A → A
apply_all [] c = c
apply_all (opt ∷ opts) c = apply_all opts (opt c)

unfoldable pub new_ws_client : List (WsClient → WsClient) → WsClient
unfolding new_channel_state apply_all
new_ws_client opts = apply_all opts (record {
  conn = none;
  msg_ch = [];
  msg_id = 0;
  channels = [];
  sid_map = [];
  pending_init = [];
  cells = λ _. new_channel_state "";
  next_cell = 0;
  read_limit = 0;
  min_backoff = pos 1_000_000_000;
  max_backoff = pos 32_000_000_000;
  closed = false;
  force_reconnect = false;
  wire = [];
})

pub record SubscribeOpts : Type 0 where
  pub send_initial_snapshot : Bool

unfoldable pub with_initial_snapshot : SubscribeOpts → SubscribeOpts
with_initial_snapshot o = record o { send_initial_snapshot = true }

unfoldable pub apply_opts : List (SubscribeOpts → SubscribeOpts) → SubscribeOpts
unfolding apply_all
apply_opts opts = apply_all opts (record { send_initial_snapshot = false })

-- A write through a pointer.
unfoldable pub set_cell : ℕ → ChannelState → (ℕ → ChannelState) → ℕ → ChannelState
set_cell r s cells q = if r == q then s else cells q

-- `for _, t := range tickers { set[t] = struct{}{} }`.
unfoldable pub put_all : List String → List String → List String
put_all [] set = set
put_all (t ∷ ts) set = put_all ts (put t set)

-- What a call returns: `nil`, or the error. `invalid_argument` wraps `ErrInvalidArgument`.
pub data WsError : Type 0 where
  invalid_argument : String → WsError
  already_subscribed : String → WsError
  not_connected : WsError
  write_failed : WsError

abbrev pub Outcome : Type 0
Outcome = WsClient × Option WsError
