-- ===== src/Ws/Deaf.antt =====
-- `ListenLoop` of ws_client.go with a client that has no subscription ids.
use gokalshi.Base.{
  Bool, ℤ, ℕ, String, ◌≡◌, ◌≢◌, refl, ap, ◌∙◌, true, false, none, some, List, [], ◌∷◌, Map, lookup,
  delete, nat_eq, string_eq, Eq, arith, inl, inr, Option-cases, Holds,
}
use gokalshi.Ws.State.{WsClient, Conn}
use gokalshi.Ws.Send.{Window}
use gokalshi.Ws.Incoming.{
  WsMessage, Json, handle_subscribed, handle_ok, handle_unsubscribed, handle_data_message, dispatch,
  handle_message, handle_incoming,
}
use gokalshi.Ws.Loop.{
  Arrival, not_handled, read_from, connect, close, next_backoff, handle_connection_loss, Callbacks,
  Round, returned, again, redial, lost_turn, after_read, read_turn, listen_turn, next_turn,
}

-- No subscription, and none under way.
pub record IsDeaf (c : WsClient) : Type 0 where
  pub no_sids : c.sid_map ≡ []
  pub no_pending : c.pending_init ≡ []

-- What a handler leaves as it was.
pub record SameOutput (c d : WsClient) : Type 0 where
  pub delivered : d.msg_ch ≡ c.msg_ch
  pub written : d.wire ≡ c.wire
  pub connected : d.conn ≡ c.conn
  pub registered : d.channels ≡ c.channels
  pub same_closed : d.closed ≡ c.closed
  pub quiet : d.force_reconnect ≡ c.force_reconnect

abbrev DeafAfter : WsClient → WsClient → Type 0
DeafAfter c d = IsDeaf d × SameOutput c d

lookup-nil {ℓ κ} :
    {K : Type ℓ} {V : Type κ} ⦃e : Eq K⦄ (k : K) (m : Map K V) → m ≡ [] → lookup k m ≡ none
unfolding lookup
lookup-nil k m h = rw h

handle_message-deaf :
    (json : Json) (fuel : ℕ) (ws : ℕ → Window) (taken : Bool) (msg : WsMessage) (raw : String)
    (c : WsClient)
    → IsDeaf c
    → Holds (DeafAfter c) (handle_message json fuel ws taken msg raw c)
unfolding handle_message handle_subscribed handle_ok handle_unsubscribed handle_data_message
    dispatch delete
handle_message-deaf json fuel ws taken msg raw c d =
    ground
      (arith, lookup-nil msg.id c.pending_init d.no_pending, lookup-nil msg.sid c.sid_map d.no_sids)

handle_incoming-deaf :
    (json : Json) (fuel : ℕ) (ws : ℕ → Window) (taken : Bool) (raw : String) (c : WsClient)
    → IsDeaf c
    → Holds (DeafAfter c) (handle_incoming json fuel ws taken raw c)
unfolding handle_incoming
handle_incoming-deaf json fuel ws taken raw c d = elim (Option-cases (json.message raw)) [
  | inl e ↦
      rw (e, handle_incoming)
        (
          d,
          record {
            delivered = refl;
            written = refl;
            connected = refl;
            registered = refl;
            same_closed = refl;
            quiet = refl;
          },
        )
  | inr (msg, e) ↦ rw (e, handle_incoming) (handle_message-deaf json fuel ws taken msg raw c d)
]

handle_incoming-deaf_ends :
    (json : Json) (fuel : ℕ) (ws : ℕ → Window) (taken : Bool) (raw : String) (c : WsClient)
    → IsDeaf c
    → handle_incoming json fuel ws taken raw c ≢ none
unfolding handle_incoming handle_message handle_subscribed handle_data_message dispatch
handle_incoming-deaf_ends json fuel ws taken raw c d = elim (Option-cases (json.message raw)) [
  | inl e ↦ rw (e, handle_incoming) (λ h. cc)
  | inr (msg, e) ↦
      rw (e, handle_incoming)
        (ground (
          arith,
          lookup-nil msg.id c.pending_init d.no_pending,
          lookup-nil msg.sid c.sid_map d.no_sids,
        ))
]

-- Nothing else touches the client while it reads.
abbrev pub AllAlone : List Arrival → Type 0
AllAlone [] = Unit
AllAlone (a ∷ rest) = ((c : WsClient) → a.meanwhile c ≡ c) × AllAlone rest

-- A deaf client delivers nothing and sends nothing, whatever the server sends, and the loop does
-- not stick in a handler.
pub read_from-deaf :
    (json : Json) (arrivals : List Arrival) (c : WsClient)
    → AllAlone arrivals
    → IsDeaf c
    → let (c', end) = read_from json arrivals c in
      (c'.msg_ch ≡ c.msg_ch)
      × (c'.wire ≡ c.wire)
      × (c'.conn ≡ c.conn)
      × (c'.channels ≡ c.channels)
      × (c'.closed ≡ c.closed)
      × (end ≢ not_handled)
unfolding read_from
read_from-deaf json [] c k d = (refl, refl, refl, refl, refl, λ h. cc)
read_from-deaf json (a ∷ rest) c (alone, k) d =
    let after = handle_incoming-deaf json a.fuel a.windows a.taken a.text c d in
    let same_text = ap (handle_incoming json a.fuel a.windows a.taken a.text) (alone c) in
    elim (Option-cases (handle_incoming json a.fuel a.windows a.taken a.text c)) [
      | inl e ↦ absurd (handle_incoming-deaf_ends json a.fuel a.windows a.taken a.text c d e)
      | inr (c', e) ↦
          let same : DeafAfter c c' = rw e at after in
          rw (same_text ∙ e, read_from) (ground (arith, same, read_from-deaf json rest c' k same.0))
    ]

-- The turn in which the connection was lost and the new dial failed.
pub record FailsToRedial (round : Round) : Type 0 where
  pub goes_on : round.stopped ≡ false
  pub waits : round.second_wait ≡ true
  pub alone : (c : WsClient) → round.waiting c ≡ c
  pub fails : round.second_dial ≡ none

-- The next turn, whose dial succeeds; it ends with the context.
pub record DialsAtTop (round : Round) (handle : ℕ) : Type 0 where
  pub goes_on : round.cancelled ≡ false
  pub alone_at_top : (c : WsClient) → round.at_top c ≡ c
  pub dials : round.first_dial ≡ some handle
  pub alone_before : (c : WsClient) → round.before_read c ≡ c
  pub alone : AllAlone round.arrivals
  pub alone_at_end : (c : WsClient) → round.at_end c ≡ c
  pub stops : round.stopped ≡ true

lost-IsDeaf : (c : WsClient) → IsDeaf (handle_connection_loss (λ d. d) c)
unfolding handle_connection_loss
lost-IsDeaf c = record { no_sids = refl; no_pending = refl }

redial-fails :
    (json : Json) (callbacks : Callbacks) (round : Round) (backoff : ℤ) (c : WsClient)
    → FailsToRedial round
    → c.closed ≡ false
    → after_read json callbacks round backoff c
      ≡ again
          (handle_connection_loss callbacks.on_disconnect c)
          (next_backoff (handle_connection_loss callbacks.on_disconnect c) backoff)
unfolding after_read lost_turn redial
redial-fails json callbacks round backoff c f not_closed =
    let lost = handle_connection_loss callbacks.on_disconnect c in
    ground (arith, f.goes_on, f.waits, f.alone lost, f.fails)

listen_turn-dials :
    (json : Json) (callbacks : Callbacks) (round : Round) (handle : ℕ) (backoff : ℤ) (c : WsClient)
    → DialsAtTop round handle
    → c.conn ≡ none
    → listen_turn json callbacks round backoff c
      ≡ read_turn json callbacks round backoff (connect handle c)
unfolding listen_turn
listen_turn-dials json callbacks round handle backoff c d e =
    ground (arith, d.goes_on, d.alone_at_top c, d.dials, d.alone_before (connect handle c))

read_turn-stops :
    (json : Json) (callbacks : Callbacks) (round : Round) (backoff : ℤ) (c : WsClient) (k : Conn)
    → c.conn ≡ some k
    → round.stopped ≡ true
    → (read_from json round.arrivals c).1 ≢ not_handled
    → read_turn json callbacks round backoff c
      ≡ returned (round.at_end (read_from json round.arrivals c).0)
unfolding read_turn after_read
read_turn-stops json callbacks round backoff c k e stops ends = ground arith

-- A turn of `ListenLoop` for a client that is not closed, without an OnDisconnect callback, ends
-- with a dial that fails after a connection loss, and the next turn, in which nothing but the
-- server acts, dials with success and reads until the loop returns: then the client has a
-- connection, but it has sent no command and delivered no message since the loss, whatever the
-- server sent, though all channels are still registered.
pub failed_redial-deaf :
    (json : Json) (up : WsClient → WsClient) (round next : Round) (handle : ℕ) (backoff : ℤ)
    (c : WsClient)
    → FailsToRedial round
    → c.closed ≡ false
    → DialsAtTop next handle
    → let callbacks : Callbacks = record { on_disconnect = λ d. d; on_reconnect = up } in
      (c' : WsClient) × (next_turn
          (after_read json callbacks round backoff c)
          (λ d backoff'. listen_turn json callbacks next backoff' d)
        ≡ returned c')
      × (c'.msg_ch ≡ c.msg_ch)
      × (c'.wire ≡ c.wire)
      × (c'.channels ≡ c.channels)
      × (c'.conn ≢ none)
unfolding next_turn connect handle_connection_loss
failed_redial-deaf json up round next handle backoff c f not_closed d =
    let callbacks : Callbacks = record { on_disconnect = λ d. d; on_reconnect = up } in
    let lost = handle_connection_loss (λ d. d) c in
    let online = connect handle lost in
    let deaf : IsDeaf online = record { no_sids = refl; no_pending = refl } in
    let heard = read_from-deaf json next.arrivals online d.alone deaf in
    let final = read_from json next.arrivals online in
    (
      final.0,
      rw (redial-fails json callbacks round backoff c f not_closed) (
          listen_turn-dials json callbacks next handle _ lost d refl
          ∙ read_turn-stops json callbacks next _ online _ refl d.stops heard.5
          ∙ ap returned (d.alone_at_end final.0)),
      heard.0,
      heard.1,
      heard.3,
      λ e. cc (heard.2),
    )

-- If a client without subscriptions is closed while `ListenLoop` is about to dial, and the dial
-- succeeds and the context ends after the read, then the loop returns with the client still closed
-- and the new connection open in it.
pub closed_client-dials :
    (json : Json) (callbacks : Callbacks) (round : Round) (handle : ℕ) (backoff : ℤ) (c : WsClient)
    → DialsAtTop round handle
    → IsDeaf c
    → let closed = (close c).0 in
      (c' : WsClient) × (listen_turn json callbacks round backoff closed ≡ returned c')
      × (c'.closed ≡ true)
      × (c'.conn ≡ (connect handle closed).conn)
      × (c'.conn ≢ none)
unfolding connect close
closed_client-dials json callbacks round handle backoff c d deaf =
    let online = connect handle (close c).0 in
    let online_deaf : IsDeaf online = record {
      no_sids = deaf.no_sids;
      no_pending = deaf.no_pending;
    } in
    let heard = read_from-deaf json round.arrivals online d.alone online_deaf in
    (
      (read_from json round.arrivals online).0,
      listen_turn-dials json callbacks round handle backoff (close c).0 d refl
          ∙ read_turn-stops json callbacks round backoff online _ refl d.stops heard.5
          ∙ ap returned (d.alone_at_end _),
      heard.4,
      heard.2,
      λ e. cc (heard.2),
    )
