-- ===== src/Ws/Loop.antt =====
-- `Connect`, `Close`, `ListenLoop`, `readLoop`, `handleConnectionLoss`, `recoverSubscriptions` and
-- `nextBackoff` of ws_client.go.
--
-- The loop runs against a list of rounds, one for each turn of the `for`: what the network, the
-- timers, the context and the other goroutines do in it. Dialling and the request headers are one
-- event, which gives a connection or fails.
use gokalshi.Base.{
  ℕ, suc, String, ℤ, mul_int64, ltb_ℤ, Bool, true, false, ◌||◌, Option, none, some, List, [], ◌∷◌,
  Map, if◌then◌else◌, ltb, is_empty,
}
use gokalshi.Ws.State.{WsClient, Conn, ChannelState, set_cell, Outcome}
use gokalshi.Ws.Send.{Window, send_subscribe}
use gokalshi.Ws.Incoming.{Json, handle_incoming}
use gokalshi.Ws.Api.{and_then}

-- `Connect`, once the dial has given a connection.
unfoldable pub connect : ℕ → WsClient → WsClient
connect handle c = record c {
  conn = some (record {
    handle = handle;
    read_limit = if ltb 0 c.read_limit then some c.read_limit else none;
  });
}

-- `Close`: the client, and the connection that is to be closed.
unfoldable pub close : WsClient → WsClient × Option Conn
close c = (record c { closed = true; conn = none }, c.conn)

unfoldable pub next_backoff : WsClient → ℤ → ℤ
next_backoff c current =
    let next = mul_int64 current 2 in if ltb_ℤ c.max_backoff next then c.max_backoff else next

-- `for _, state := range c.channels { state.SID = nil; state.Seq = 0 }`.
unfoldable pub reset_cells : Map String ℕ → (ℕ → ChannelState) → ℕ → ChannelState
reset_cells [] cells = cells
reset_cells ((ch, r) ∷ m) cells =
    reset_cells m (set_cell r (record (cells r) { sid = none; seq = 0 }) cells)

-- `on_disconnect` is the callback, or the identity for nil.
unfoldable pub handle_connection_loss : (WsClient → WsClient) → WsClient → WsClient
handle_connection_loss on_disconnect c0 =
    let c = on_disconnect c0 in
    record c {
      sid_map = [];
      pending_init = [];
      cells = reset_cells c.channels c.cells;
      conn = none;
    }

unfoldable pub recover_channel : Window → ℕ → WsClient → Outcome
recover_channel w r c =
    let state = c.cells r in
    if state.global
    then send_subscribe w state.name [] false c
    else if is_empty state.markets
    then (c, none)
    else send_subscribe w state.name state.markets false c

-- The channel objects come in the order in which Go ranges over the map.
unfoldable pub recover_subscriptions : (ℕ → Window) → List ℕ → WsClient → Outcome
recover_subscriptions ws [] c = (c, none)
recover_subscriptions ws (r ∷ rs) c =
    and_then (recover_channel (ws 0) r c) (λ c'. recover_subscriptions (λ i. ws (suc i)) rs c')

-- A message that `conn.Read` returns, and what its handler meets: the fuel and the windows of the
-- flush, and whether a text sent on the message channel is taken.
pub record Arrival : Type 0 where
  pub text : String
  pub fuel : ℕ
  pub windows : ℕ → Window
  pub taken : Bool
  pub meanwhile : WsClient → WsClient

pub data ReadEnd : Type 0 where
  read_error gap_detected not_handled : ReadEnd

-- `for` of `readLoop`: after the last message `conn.Read` fails.
unfoldable pub read_from : Json → List Arrival → WsClient → WsClient × ReadEnd
read_from json [] c = (c, read_error)
read_from json (a ∷ as') c =
    elim (handle_incoming json a.fuel a.windows a.taken a.text (a.meanwhile c)) [
      | none ↦ (c, not_handled)
      | some c' ↦
          let rest = read_from json as' c' in
          if c'.force_reconnect then (record c' { force_reconnect = false }, gap_detected) else rest
    ]

pub record Callbacks : Type 0 where
  pub on_disconnect : WsClient → WsClient
  pub on_reconnect : WsClient → WsClient

-- What happens in a turn of the loop, in the order in which the loop asks for it. A dial gives the
-- handle of the connection; a wait is over by its timer (`true`) or by the context. `order` is the
-- order in which Go ranges over the registered channels of the client; it is any list, so that what
-- is proved holds for every order.
pub record Round : Type 0 where
  pub cancelled : Bool
  pub at_top : WsClient → WsClient
  pub first_dial : Option ℕ
  pub first_wait : Bool
  pub before_read : WsClient → WsClient
  pub arrivals : List Arrival
  pub at_end : WsClient → WsClient
  pub stopped : Bool
  pub second_wait : Bool
  pub waiting : WsClient → WsClient
  pub second_dial : Option ℕ
  pub recovery : ℕ → Window
  pub order : WsClient → List ℕ

-- How a turn ends: the function returns, the next turn begins, a nil connection is read, or a
-- handler has not ended.
pub data TurnEnd : Type 0 where
  returned : WsClient → TurnEnd
  again : WsClient → ℤ → TurnEnd
  nil_conn : TurnEnd
  stuck : TurnEnd

unfoldable pub next_turn : TurnEnd → (WsClient → ℤ → TurnEnd) → TurnEnd
next_turn (again c backoff) k = k c backoff
next_turn (returned c) k = returned c
next_turn nil_conn k = nil_conn
next_turn stuck k = stuck

module _ (json : Json) (callbacks : Callbacks) where
  -- From `recoverSubscriptions` on.
  unfoldable pub recovered : Round → WsClient → TurnEnd
  recovered round c =
      let (c', err) = recover_subscriptions round.recovery (round.order c) c in
      again (elim err [ none ↦ callbacks.on_reconnect c' | some e ↦ c' ]) c'.min_backoff

  unfoldable pub redial : Round → ℤ → WsClient → TurnEnd
  redial round backoff c = elim round.second_dial [
    | none ↦ again c (next_backoff c backoff)
    | some handle ↦ recovered round (connect handle c)
  ]

  -- `lost` is the client after `handleConnectionLoss`.
  unfoldable pub lost_turn : Round → ℤ → WsClient → TurnEnd
  lost_turn round backoff lost =
      if round.second_wait then redial round backoff (round.waiting lost) else returned lost

  -- From the end of `readLoop` on.
  unfoldable pub after_read : Round → ℤ → WsClient → TurnEnd
  after_read round backoff c =
      if round.stopped || c.closed
      then returned c
      else lost_turn round backoff (handle_connection_loss callbacks.on_disconnect c)

  unfoldable pub read_turn : Round → ℤ → WsClient → TurnEnd
  read_turn round backoff c = elim c.conn [
    | none ↦ nil_conn
    | some conn ↦
        let (c', end) = read_from json round.arrivals c in
        elim end [
          | not_handled ↦ stuck
          | read_error ↦ after_read round backoff (round.at_end c')
          | gap_detected ↦ after_read round backoff (round.at_end c')
        ]
  ]

  unfoldable pub listen_turn : Round → ℤ → WsClient → TurnEnd
  listen_turn round backoff c0 =
      if round.cancelled
      then returned c0
      else let c = round.at_top c0 in
        elim c.conn [
          | some conn ↦ read_turn round backoff (round.before_read c)
          | none ↦ elim round.first_dial [
            | some handle ↦ read_turn round backoff (round.before_read (connect handle c))
            | none ↦ if round.first_wait then again c (next_backoff c backoff) else returned c
          ]
        ]

  unfoldable pub listen_from : List Round → ℤ → WsClient → TurnEnd
  listen_from [] backoff c = again c backoff
  listen_from (round ∷ rounds) backoff c =
      next_turn (listen_turn round backoff c) (λ c' backoff'. listen_from rounds backoff' c')

  unfoldable pub listen_loop : List Round → WsClient → TurnEnd
  listen_loop rounds c = listen_from rounds c.min_backoff c
