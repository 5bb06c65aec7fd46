-- ===== src/Ws/Api.antt =====
-- `Subscribe`, `Unsubscribe`, `AddMarkets`, `RemoveMarkets` and `GetSnapshot` of ws_client.go. Each
-- goes through the channels in turn, and stops at the first error; the channel at place `i` sends in
-- the window `ws i`.
use gokalshi.Base.{
  ℕ, suc, String, Bool, true, false, ◌&&◌, not, Option, none, some, List, [], ◌∷◌, lookup, insert,
  delete, if◌then◌else◌, nat_eq, string_eq, is_empty, contains, keep, drop_key,
}
use gokalshi.Ws.State.{
  WsClient, ChannelState, new_channel_state, set_cell, put_all, add_markets, delete_markets,
  get_snapshot as get_snapshot_action, invalid_argument, already_subscribed, Outcome, SubscribeOpts,
  apply_opts,
}
use gokalshi.Ws.Send.{
  Window, pending_init_for_channel, delete_pending_init_for_channel, send_subscribe,
  send_unsubscribe, send_update_sub,
}

-- What follows a part of the body that may return an error.
unfoldable pub and_then : Outcome → (WsClient → Outcome) → Outcome
and_then (c, none) k = k c
and_then (c, some e) k = (c, some e)

-- What is done to an error before it is returned.
unfoldable pub on_error : Outcome → (WsClient → WsClient) → Outcome
on_error (c, none) k = (c, none)
on_error (c, some e) k = (k c, some e)

unfoldable pub for_channels :
    (Window → String → WsClient → Outcome) → (ℕ → Window) → List String → WsClient → Outcome
for_channels body ws [] c = (c, none)
for_channels body ws (ch ∷ chs) c =
    and_then (body (ws 0) ch c) (λ c'. for_channels body (λ i. ws (suc i)) chs c')

-- A nil slice is `none`.
abbrev pub slice : Option (List String) → List String
slice none = []
slice (some ts) = ts

abbrev pub is_nil : Option (List String) → Bool
is_nil none = true
is_nil (some ts) = false

-- `&ChannelState{…}`, entered in `channels`.
unfoldable pub new_channel : String → ChannelState → WsClient → WsClient
new_channel ch state c = record c {
  channels = insert ch c.next_cell c.channels;
  cells = set_cell c.next_cell state c.cells;
  next_cell = suc c.next_cell;
}

unfoldable pub drop_channel : String → WsClient → WsClient
drop_channel ch c = record c {
  channels = delete ch c.channels;
  pending_init = delete_pending_init_for_channel ch c.pending_init;
}

unfoldable pub subscribe_channel :
    Option (List String) → Bool → Window → String → WsClient → Outcome
unfolding new_channel_state
subscribe_channel tickers snapshot w ch c = elim (lookup ch c.channels) [
  | some _ ↦ (c, some (already_subscribed ch))
  | none ↦
      let state = record (new_channel_state ch) {
        global = is_nil tickers;
        markets = put_all (slice tickers) [];
      } in
      on_error (send_subscribe w ch (slice tickers) snapshot (new_channel ch state c))
        (drop_channel ch)
]

unfoldable pub subscribe :
    (ℕ → Window)
    → List String
    → Option (List String)
    → List (SubscribeOpts → SubscribeOpts)
    → WsClient
    → Outcome
subscribe ws channels tickers opts c =
    if is_empty channels
    then (c, some (invalid_argument "channels must not be empty"))
    else if not (is_nil tickers) && is_empty (slice tickers)
    then (c, some (invalid_argument "tickers must be nil (global) or non-empty"))
    else for_channels (subscribe_channel tickers (apply_opts opts).send_initial_snapshot) ws
        channels c

unfoldable pub unsubscribe_channel : Window → String → WsClient → Outcome
unsubscribe_channel w ch c = elim (lookup ch c.channels) [
  | none ↦ (c, none)
  | some r ↦ elim (c.cells r).sid [
    | some sid ↦ and_then (send_unsubscribe w sid c) (λ c'.
        (record c' { sid_map = delete sid c'.sid_map; channels = delete ch c'.channels }, none))
    | none ↦ (drop_channel ch c, none)
  ]
]

unfoldable pub unsubscribe : (ℕ → Window) → List String → WsClient → Outcome
unsubscribe ws channels c =
    if is_empty channels
    then (c, some (invalid_argument "channels must not be empty"))
    else for_channels unsubscribe_channel ws channels c

-- `for _, t := range tickers { state.Markets[t] = struct{}{} }`, through the pointer.
unfoldable pub add_to_markets : ℕ → List String → WsClient → WsClient
add_to_markets r tickers c =
    let state = c.cells r in
    record c {
      cells = set_cell r (record state { markets = put_all tickers state.markets }) c.cells;
    }

unfoldable pub queue_markets : ℕ → List String → WsClient → WsClient
queue_markets r tickers c =
    let state = c.cells r in
    record c {
      cells =
          set_cell r (record state { pending_markets = put_all tickers state.pending_markets })
            c.cells;
    }

-- The object of the channel, narrowed or made anew, and whether the channel was there.
unfoldable pub find_or_create : String → WsClient → WsClient × ℕ × Bool
find_or_create ch c = elim (lookup ch c.channels) [
  | some r ↦
      (record c { cells = set_cell r (record (c.cells r) { global = false }) c.cells }, r, true)
  | none ↦ (new_channel ch (new_channel_state ch) c, c.next_cell, false)
]

unfoldable pub add_tickers : Bool → Window → String → List String → WsClient × ℕ × Bool → Outcome
add_tickers snapshot w ch new_tickers (c, r, existed) =
    if is_empty new_tickers then (c, none) else elim (c.cells r).sid [
      | some sid ↦
          and_then (send_update_sub w sid new_tickers add_markets snapshot c)
            (λ c'. (add_to_markets r new_tickers c', none))
      | none ↦
          if pending_init_for_channel ch c.pending_init
          then (queue_markets r new_tickers c, none)
          else and_then
              (on_error (send_subscribe w ch new_tickers snapshot c)
                (λ c'. if existed then c' else drop_channel ch c'))
              (λ c'. (add_to_markets r new_tickers c', none))
    ]

unfoldable pub add_markets_channel : List String → Bool → Window → String → WsClient → Outcome
add_markets_channel tickers snapshot w ch c =
    let found = find_or_create ch c in
    add_tickers snapshot w ch (keep (λ t. not (contains t (found.0.cells found.1).markets)) tickers)
      found

-- The checks that `AddMarkets`, `RemoveMarkets` and `GetSnapshot` begin with.
unfoldable pub with_tickers : List String → List String → WsClient → Outcome → Outcome
with_tickers tickers channels c body =
    if is_empty tickers
    then (c, some (invalid_argument "tickers must not be empty"))
    else if is_empty channels
    then (c, some (invalid_argument "channels must not be empty"))
    else body

unfoldable pub add_markets_to :
    (ℕ → Window)
    → List String
    → List String
    → List (SubscribeOpts → SubscribeOpts)
    → WsClient
    → Outcome
add_markets_to ws tickers channels opts c = with_tickers tickers channels c (
    for_channels (add_markets_channel tickers (apply_opts opts).send_initial_snapshot) ws channels
      c)

unfoldable pub drop_all : List String → List String → List String
drop_all [] set = set
drop_all (t ∷ ts) set = drop_all ts (drop_key t set)

unfoldable pub remove_from_markets : ℕ → List String → WsClient → WsClient
remove_from_markets r tickers c =
    let state = c.cells r in
    record c {
      cells = set_cell r (record state { markets = drop_all tickers state.markets }) c.cells;
    }

unfoldable pub remove_markets_channel : List String → Window → String → WsClient → Outcome
remove_markets_channel tickers w ch c = elim (lookup ch c.channels) [
  | none ↦ (c, none)
  | some r ↦ elim (c.cells r).sid [
    | none ↦ (c, none)
    | some sid ↦
        let narrowed = record c {
          cells = set_cell r (record (c.cells r) { global = false }) c.cells;
        } in
        and_then (send_update_sub w sid tickers delete_markets false narrowed)
          (λ c'. (remove_from_markets r tickers c', none))
  ]
]

unfoldable pub remove_markets : (ℕ → Window) → List String → List String → WsClient → Outcome
remove_markets ws tickers channels c =
    with_tickers tickers channels c (for_channels (remove_markets_channel tickers) ws channels c)

unfoldable pub get_snapshot_channel : List String → Window → String → WsClient → Outcome
get_snapshot_channel tickers w ch c = elim (lookup ch c.channels) [
  | none ↦ (c, none)
  | some r ↦ elim (c.cells r).sid [
    | none ↦ (c, none)
    | some sid ↦ send_update_sub w sid tickers get_snapshot_action false c
  ]
]

unfoldable pub get_snapshot : (ℕ → Window) → List String → List String → WsClient → Outcome
get_snapshot ws tickers channels c =
    with_tickers tickers channels c (for_channels (get_snapshot_channel tickers) ws channels c)
