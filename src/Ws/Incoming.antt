-- ===== src/Ws/Incoming.antt =====
-- `handleIncoming` of ws_client.go and the handlers below it. JSON is a parameter: the texts that
-- `json.Unmarshal` reads, and as what; `none` is its error.
use gokalshi.Base.{
  ℕ, zero, suc, String, ◌+◌, Bool, true, false, ◌&&◌, ◌||◌, not, Option, none, some, List, [], ◌∷◌,
  ◌++◌, lookup, insert, delete, if◌then◌else◌, ◌==◌, nat_eq, string_eq, is_empty, contains,
}
use gokalshi.Ws.State.{WsClient, WsError, ChannelState, set_cell, put_all, add_markets}
use gokalshi.Ws.Send.{Window, send_update_sub}

-- `WSMessage`. `msg` is the raw text of the body, empty if there is none.
pub record WsMessage : Type 0 where
  pub type : String
  pub id : ℕ
  pub sid : ℕ
  pub seq : ℕ
  pub msg : String

-- The result of `json.Unmarshal` into each type: the envelope, the `sid` of a `SubscribedBody`, and
-- the `market_tickers` of an `OkBody`.
pub record Json : Type 0 where
  pub message : String → Option WsMessage
  pub subscribed_body : String → Option ℕ
  pub ok_body : String → Option (List String)

-- The keys of `MsgTypeToChannel`.
abbrev pub data_message_types : List String
data_message_types =
    "cfbenchmarks_value" ∷ "cfbenchmarks_value_5hz" ∷ "cfbenchmarks_value_5hz_indexlist"
    ∷ "cfbenchmarks_value_indexlist" ∷ "event_fee_update" ∷ "event_lifecycle" ∷ "fill"
    ∷ "market_lifecycle_v2" ∷ "market_position" ∷ "multivariate_market_lifecycle"
    ∷ "order_group_updates" ∷ "orderbook_delta" ∷ "orderbook_snapshot" ∷ "pyth_value"
    ∷ "pyth_value_underlying_list" ∷ "quote_accepted" ∷ "quote_created" ∷ "quote_executed"
    ∷ "rfq_created" ∷ "rfq_deleted" ∷ "ticker" ∷ "trade" ∷ "user_order" ∷ []

-- `_, ok := MsgTypeToChannel[msg.Type]`.
unfoldable pub is_data_type : String → Bool
is_data_type type = contains type data_message_types

-- The check that `handleOK` and `handleDataMessage` share: the first number is taken as it comes.
unfoldable pub is_gap : ℕ → ℕ → Bool
is_gap last seq = not (last == 0) && not ((last + 1) == seq)

unfoldable pub note_seq : ℕ → ChannelState → ℕ → WsClient → WsClient
unfolding is_gap
note_seq r state seq c = record c {
  force_reconnect = is_gap state.seq seq || c.force_reconnect;
  cells = set_cell r (record state { seq = seq }) c.cells;
}

-- A round of the flush goes on, or breaks off and asks for a new connection.
unfoldable pub after_flush :
    WsClient × Option WsError → (WsClient → Option WsClient) → Option WsClient
after_flush (c, none) k = k c
after_flush (c, some err) k = some (record c { force_reconnect = true })

-- The loop that flushes the pending markets. Each round takes one of the windows; `none` is a loop
-- that has not ended when the fuel, one unit for each round, has run out.
unfoldable pub flush_pending : ℕ → (ℕ → Window) → ℕ → ℕ → WsClient → Option WsClient
flush_pending zero ws r sid c = none
flush_pending (suc fuel) ws r sid c =
    let state = c.cells r in
    let cleared = record c { cells = set_cell r (record state { pending_markets = [] }) c.cells } in
    let round =
      after_flush (send_update_sub (ws 0) sid state.pending_markets add_markets false cleared)
        (λ c'. flush_pending fuel (λ i. ws (suc i)) r sid c') in
    if is_empty state.pending_markets then some c else round

unfoldable pub handle_unsubscribed : WsMessage → WsClient → WsClient
handle_unsubscribed msg c = record c { sid_map = delete msg.sid c.sid_map }

-- The new state, and the text to dispatch, if any.
unfoldable pub handle_data_message : WsMessage → String → WsClient → WsClient × Option String
handle_data_message msg raw c =
    if is_data_type msg.type
    then elim (lookup msg.sid c.sid_map) [
      | none ↦ (c, none)
      | some r ↦ (note_seq r (c.cells r) msg.seq c, some raw)
    ]
    else (c, none)

-- `c.msgCh <- dispatch`. The send waits until the channel has room or the receiver takes the text;
-- `taken` tells whether that ever happens, and `none` is a send that waits for ever.
unfoldable pub dispatch : Bool → WsClient × Option String → Option WsClient
dispatch taken (c, none) = some c
dispatch taken (c, some raw) =
    if taken then some (record c { msg_ch = c.msg_ch ++ raw ∷ [] }) else none

module _ (json : Json) where
  unfoldable pub adopt_sid : ℕ → (ℕ → Window) → ℕ → ℕ → WsClient → Option WsClient
  adopt_sid fuel ws r sid c = flush_pending fuel ws r sid (record c {
    cells = set_cell r (record (c.cells r) { sid = some sid }) c.cells;
    sid_map = insert sid r c.sid_map;
  })

  unfoldable pub handle_subscribed : ℕ → (ℕ → Window) → WsMessage → WsClient → Option WsClient
  handle_subscribed fuel ws msg c = elim (lookup msg.id c.pending_init) [
    | none ↦ some c
    | some channel_name ↦
        let c' = record c { pending_init = delete msg.id c.pending_init } in
        elim (json.subscribed_body msg.msg) [
          | none ↦ some c'
          | some sid ↦ elim (lookup channel_name c.channels) [
            | none ↦ some c'
            | some r ↦ adopt_sid fuel ws r sid c'
          ]
        ]
  ]

  unfoldable pub reconcile : String → ChannelState → ChannelState
  reconcile body state = if body == "" then state else elim (json.ok_body body) [
    | none ↦ state
    | some tickers ↦
        if is_empty tickers then state else record state { markets = put_all tickers [] }
  ]

  unfoldable pub handle_ok : WsMessage → WsClient → WsClient
  handle_ok msg c = elim (lookup msg.sid c.sid_map) [
    | none ↦ c
    | some r ↦
        let c' = note_seq r (c.cells r) msg.seq c in
        record c' { cells = set_cell r (reconcile msg.msg (c'.cells r)) c'.cells }
  ]

  unfoldable pub handle_message :
      ℕ → (ℕ → Window) → Bool → WsMessage → String → WsClient → Option WsClient
  handle_message fuel ws taken msg raw c =
      if msg.type == "subscribed"
      then handle_subscribed fuel ws msg c
      else if msg.type == "ok"
      then some (handle_ok msg c)
      else if msg.type == "unsubscribed"
      then some (handle_unsubscribed msg c)
      else if msg.type == "error"
      then some c
      else dispatch taken (handle_data_message msg raw c)

  -- `none` is a handler that has not ended: its fuel has run out, or its text is never taken.
  unfoldable pub handle_incoming : ℕ → (ℕ → Window) → Bool → String → WsClient → Option WsClient
  handle_incoming fuel ws taken raw c = elim (json.message raw) [
    | none ↦ some c
    | some msg ↦ handle_message fuel ws taken msg raw c
  ]
