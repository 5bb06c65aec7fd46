-- ===== src/Ws/Invariant/Loop.antt =====
-- The invariant across connecting, closing, losing the connection, recovering and listening.
use gokalshi.Base.{
  ℤ, ℕ, suc, String, ◌≡◌, refl, ◌∙◌, false, Option, List, [], ◌∷◌, Map, lookup, nat_eq, string_eq,
  arith, inl, inr, Option-cases,
}
use gokalshi.Ws.State.{WsClient, ChannelState, Conn}
use gokalshi.Ws.Send.{Window}
use gokalshi.Ws.Incoming.{Json, handle_incoming}
use gokalshi.Ws.Loop.{
  connect, close, reset_cells, handle_connection_loss, recover_channel, recover_subscriptions,
  Arrival, read_from, Callbacks, Round, TurnEnd, returned, again, nil_conn, stuck, recovered,
  redial, lost_turn, after_read, read_turn, listen_turn, listen_from, listen_loop, next_turn,
}
use gokalshi.Ws.Invariant.{IsValid, Keeps, name-set_cell, send_subscribe-IsValid}
use gokalshi.Ws.Invariant.Calls.{and_then-Keeps}
use gokalshi.Ws.Invariant.Handlers.{handle_incoming-IsValid, force-IsValid}

conn-IsValid : (o : Option Conn) (c : WsClient) → IsValid c → IsValid (record c { conn = o })
conn-IsValid o c v = record { named = v.named; allocated = v.allocated; fresh = v.fresh }

connect-IsValid : (handle : ℕ) (c : WsClient) → IsValid c → IsValid (connect handle c)
unfolding connect
connect-IsValid handle c v = conn-IsValid _ c v

pub close-IsValid : (c : WsClient) → IsValid c → IsValid (close c).0
unfolding close
close-IsValid c v = record { named = v.named; allocated = v.allocated; fresh = v.fresh }

pub name-reset_cells :
    (m : Map String ℕ) (cells : ℕ → ChannelState) (q : ℕ)
    → (reset_cells m cells q).name ≡ (cells q).name
unfolding reset_cells
name-reset_cells [] cells q = refl
name-reset_cells ((ch, r) ∷ m) cells q = name-reset_cells m _ q ∙ name-set_cell r q _ cells refl

handle_connection_loss-IsValid :
    (on_disconnect : WsClient → WsClient) (c : WsClient)
    → ((d : WsClient) → IsValid d → IsValid (on_disconnect d))
    → IsValid c
    → IsValid (handle_connection_loss on_disconnect c)
unfolding handle_connection_loss lookup
handle_connection_loss-IsValid on_disconnect c k v =
    let d = on_disconnect c in
    let w = k c v in
    record {
      named = λ ch r e.
          let (lt, eq) = w.named ch r e in (lt, name-reset_cells d.channels d.cells r ∙ eq);
      allocated = λ sid r e. cc;
      fresh = λ id h. refl;
    }

recover_channel-IsValid :
    (w : Window) (r : ℕ) (c : WsClient)
    → Keeps IsValid w
    → IsValid c
    → IsValid (recover_channel w r c).0
unfolding recover_channel
recover_channel-IsValid w r c k v = ground (
  arith,
  v,
  send_subscribe-IsValid w k c v (c.cells r).name [] false,
  send_subscribe-IsValid w k c v (c.cells r).name (c.cells r).markets false,
)

recover_subscriptions-IsValid :
    (ws : ℕ → Window) (rs : List ℕ) (c : WsClient)
    → ((i : ℕ) → Keeps IsValid (ws i))
    → IsValid c
    → IsValid (recover_subscriptions ws rs c).0
unfolding recover_subscriptions
recover_subscriptions-IsValid ws [] c k v = v
recover_subscriptions-IsValid ws (r ∷ rs) c k v =
    and_then-Keeps IsValid (recover_channel (ws 0) r c) _
      (recover_channel-IsValid (ws 0) r c (k 0) v)
      (λ c' h. recover_subscriptions-IsValid (λ i. ws (suc i)) rs c' (λ i. k (suc i)) h)

abbrev KeepsValid : (WsClient → WsClient) → Type 0
KeepsValid g = (c : WsClient) → IsValid c → IsValid (g c)

abbrev pub ArrivalsKeep : List Arrival → Type 0
ArrivalsKeep [] = Unit
ArrivalsKeep (a ∷ rest) =
    (((i : ℕ) → Keeps IsValid (a.windows i)) × KeepsValid a.meanwhile) × ArrivalsKeep rest

read_from-IsValid :
    (json : Json) (arrivals : List Arrival) (c : WsClient)
    → ArrivalsKeep arrivals
    → IsValid c
    → IsValid (read_from json arrivals c).0
unfolding read_from
read_from-IsValid json [] c k v = v
read_from-IsValid json (a ∷ rest) c k v =
    let handled =
      handle_incoming-IsValid json a.fuel a.windows k.0.0 a.taken a.text (a.meanwhile c)
        (k.0.1 c v) in
    elim (Option-cases (handle_incoming json a.fuel a.windows a.taken a.text (a.meanwhile c))) [
      | inl e ↦ rw (e, read_from) v
      | inr (c', e) ↦
          let v' : IsValid c' = rw e at handled in
          rw (e, read_from)
            (ground (arith, force-IsValid false c' v', read_from-IsValid json rest c' k.1 v'))
    ]

-- What the other goroutines, the callbacks and the gaps of a turn do keeps the invariant.
pub record RoundKeeps (round : Round) : Type 0 where
  pub at_top : KeepsValid round.at_top
  pub before_read : KeepsValid round.before_read
  pub arrivals : ArrivalsKeep round.arrivals
  pub at_end : KeepsValid round.at_end
  pub waiting : KeepsValid round.waiting
  pub recovery : (i : ℕ) → Keeps IsValid (round.recovery i)

-- The client that a turn leaves is valid.
abbrev pub EndsValid : TurnEnd → Type 0
EndsValid (returned c) = IsValid c
EndsValid (again c backoff) = IsValid c
EndsValid nil_conn = Unit
EndsValid stuck = Unit

abbrev pub RoundsKeep : List Round → Type 0
RoundsKeep [] = Unit
RoundsKeep (round ∷ rounds) = RoundKeeps round × RoundsKeep rounds

next_turn-EndsValid :
    (end : TurnEnd) (k : WsClient → ℤ → TurnEnd)
    → EndsValid end
    → ((c : WsClient) (backoff : ℤ) → IsValid c → EndsValid (k c backoff))
    → EndsValid (next_turn end k)
unfolding next_turn
next_turn-EndsValid (again c backoff) k v next = next c backoff v
next_turn-EndsValid (returned c) k v next = v
next_turn-EndsValid nil_conn k v next = tt
next_turn-EndsValid stuck k v next = tt

module _ (json : Json) (callbacks : Callbacks) (down : KeepsValid callbacks.on_disconnect)
    (up : KeepsValid callbacks.on_reconnect) where
  recovered-EndsValid :
      (round : Round) (c : WsClient)
      → RoundKeeps round
      → IsValid c
      → EndsValid (recovered json callbacks round c)
  unfolding recovered
  recovered-EndsValid round c k v =
      let v' = recover_subscriptions-IsValid round.recovery (round.order c) c k.recovery v in
      ground (arith, v', up (recover_subscriptions round.recovery (round.order c) c).0 v')

  redial-EndsValid :
      (round : Round) (backoff : ℤ) (c : WsClient)
      → RoundKeeps round
      → IsValid c
      → EndsValid (redial json callbacks round backoff c)
  unfolding redial
  redial-EndsValid round backoff c k v = elim (Option-cases round.second_dial) [
    | inl e ↦ rw (e, redial) v
    | inr (handle, e) ↦
        rw (e, redial) (recovered-EndsValid round (connect handle c) k (connect-IsValid handle c v))
  ]

  after_read-EndsValid :
      (round : Round) (backoff : ℤ) (c : WsClient)
      → RoundKeeps round
      → IsValid c
      → EndsValid (after_read json callbacks round backoff c)
  unfolding after_read lost_turn
  after_read-EndsValid round backoff c k v =
      let lost = handle_connection_loss-IsValid callbacks.on_disconnect c down v in
      ground (arith, v, lost, redial-EndsValid round backoff _ k (k.waiting _ lost))

  read_turn-EndsValid :
      (round : Round) (backoff : ℤ) (c : WsClient)
      → RoundKeeps round
      → IsValid c
      → EndsValid (read_turn json callbacks round backoff c)
  unfolding read_turn
  read_turn-EndsValid round backoff c k v =
      let done = read_from-IsValid json round.arrivals c k.arrivals v in
      ground (arith, after_read-EndsValid round backoff _ k (k.at_end _ done))

  listen_turn-EndsValid :
      (round : Round) (backoff : ℤ) (c : WsClient)
      → RoundKeeps round
      → IsValid c
      → EndsValid (listen_turn json callbacks round backoff c)
  unfolding listen_turn
  listen_turn-EndsValid round backoff c0 k v0 =
      let c = round.at_top c0 in
      let v = k.at_top c0 v0 in
      elim (Option-cases round.first_dial) [
        | inl e ↦
            ground (arith, v0, v, e, read_turn-EndsValid round backoff _ k (k.before_read c v))
        | inr (handle, e) ↦ ground (
          arith,
          v0,
          v,
          e,
          read_turn-EndsValid round backoff _ k (k.before_read c v),
          read_turn-EndsValid round backoff _ k
              (k.before_read (connect handle c) (connect-IsValid handle c v)),
        )
      ]

  listen_from-EndsValid :
      (rounds : List Round) (backoff : ℤ) (c : WsClient)
      → RoundsKeep rounds
      → IsValid c
      → EndsValid (listen_from json callbacks rounds backoff c)
  unfolding listen_from
  listen_from-EndsValid [] backoff c k v = v
  listen_from-EndsValid (round ∷ rounds) backoff c k v =
      next_turn-EndsValid (listen_turn json callbacks round backoff c) _
        (listen_turn-EndsValid round backoff c k.0 v)
        (λ c' backoff' h. listen_from-EndsValid rounds backoff' c' k.1 h)

  -- If the callbacks and what other goroutines do keep the invariant, then `ListenLoop` over any
  -- turns leaves a valid client: every registered channel name points to an allocated object of
  -- that name, every subscription id to an allocated object, and no request is awaited under an id
  -- that was not given out yet. A nil connection and a handler that has not ended are told apart.
  pub listen_loop-EndsValid :
      (rounds : List Round) (c : WsClient)
      → RoundsKeep rounds
      → IsValid c
      → EndsValid (listen_loop json callbacks rounds c)
  unfolding listen_loop
  listen_loop-EndsValid rounds c k v = listen_from-EndsValid rounds c.min_backoff c k v
