-- ===== src/Ws/Subscriptions.antt =====
-- What the calls of the user leave behind while no other goroutine runs: `Subscribe` of one channel
-- here, of several in `Subscriptions/Lists`, the calls that change the markets in
-- `Subscriptions/Markets`, `Unsubscribe` in `Subscriptions/Removal`.
pub mod Lists
pub mod Adding
pub mod Markets
pub mod Removal
use gokalshi.Base.{
  ℕ, zero, suc, ◌+◌, ◌≤◌, ◌<◌, String, ◌≡◌, ◌≢◌, refl, sym, ap, ◌∙◌, Bool, true, false, Option,
  none, some, List, [], ◌∷◌, ◌++◌, Map, lookup, insert, delete, if◌then◌else◌, nat_eq, string_eq,
  nat_eqb, nat_eqb_iff, Eq, lookup-insert, arith, map, inl, inr, Bool-cases, Option-cases, ◌⊎◌,
  is_empty, ◌||◌, not, All, ◌==◌, contains, put, contains-put,
}
use mathlib.Core.List.{append_assoc, append-nil}
use gokalshi.Ws.State.{
  WsClient, WsCommand, Params, subscribe_params, ChannelState, Conn, set_cell, put_all, Outcome,
  WsError, not_connected, write_failed, new_channel_state, SubscribeOpts, apply_opts,
}
use gokalshi.Ws.Send.{
  Window, pending_init_for_channel, delete_pending_init_for_channel, write_json, send_subscribe,
}
use gokalshi.Ws.Api.{
  and_then, on_error, for_channels, slice, is_nil, new_channel, drop_channel, subscribe_channel,
  subscribe,
}
use gokalshi.Ws.Recovery.{quiet}
use gokalshi.Ws.Invariant.{IsValid}

delete_pending-insert :
    (id : ℕ) (ch : String) (m : Map ℕ String)
    → lookup id m ≡ none
    → pending_init_for_channel ch m ≡ false
    → delete_pending_init_for_channel ch (insert id ch m) ≡ m
unfolding lookup insert delete_pending_init_for_channel pending_init_for_channel
delete_pending-insert id ch [] h p = ground (arith, string_eq.same_iff ch ch)
delete_pending-insert id ch ((j, name) ∷ m) h p = ground (arith, delete_pending-insert id ch m)

delete_absent {ℓ κ} :
    {K : Type ℓ} {V : Type κ} ⦃e : Eq K⦄ (k : K) (m : Map K V) → lookup k m ≡ none → delete k m ≡ m
unfolding lookup delete
delete_absent k [] h = refl
delete_absent k ((j, v) ∷ m) h = ground (arith, delete_absent k m)

delete-insert {ℓ κ} :
    {K : Type ℓ} {V : Type κ} ⦃e : Eq K⦄ (k : K) (v : V) (m : Map K V)
    → lookup k m ≡ none
    → delete k (insert k v m) ≡ m
unfolding lookup insert delete
delete-insert ⦃e⦄ k v [] h = ground (arith, e.same_iff k k)
delete-insert ⦃e⦄ k v ((j, w) ∷ m) h = ground (arith, delete-insert k v m)

-- The command cannot be written: there is no connection, or the write fails.
abbrev pub Fails : Bool → WsClient → Type 0
Fails accepted c = (c.conn ≡ none) ⊎ (accepted ≡ false)

send_subscribe-Fails :
    (accepted : Bool) (ch : String) (tickers : List String) (snapshot : Bool) (c : WsClient)
    → Fails accepted c
    → (e : WsError) × (send_subscribe (quiet accepted) ch tickers snapshot c ≡ (
      record c { msg_id = c.msg_id + 1; pending_init = insert (c.msg_id + 1) ch c.pending_init },
      some e,
    ))
unfolding send_subscribe write_json
send_subscribe-Fails accepted ch tickers snapshot c (inl h) = (not_connected, ground arith)
send_subscribe-Fails accepted ch tickers snapshot c (inr h) = elim (Option-cases c.conn) [
  | inl e ↦ (not_connected, ground arith)
  | inr (k, e) ↦ (write_failed, ground arith)
]

-- The object that `Subscribe` makes for a channel.
abbrev fresh_state : String → Option (List String) → ChannelState
fresh_state ch tickers = record (new_channel_state ch) {
  global = is_nil tickers;
  markets = put_all (slice tickers) [];
}

pub contains-put_all :
    (t : String) (ts set : List String)
    → contains t (put_all ts set) ≡ (contains t ts || contains t set)
unfolding put_all
contains-put_all t [] set = refl
contains-put_all t (u ∷ ts) set =
    ground (arith, contains-put_all t ts (put u set), contains-put t u set)

-- Subscribing a valid client to a channel that is not registered or awaited, when the command
-- cannot be written and no other goroutine runs, returns an error and leaves the channels, the
-- subscription ids, the awaited requests, the output and the connection as they were.
pub subscribe_channel-undone :
    (accepted : Bool) (tickers : Option (List String)) (snapshot : Bool) (ch : String)
    (c : WsClient)
    → IsValid c
    → lookup ch c.channels ≡ none
    → pending_init_for_channel ch c.pending_init ≡ false
    → Fails accepted c
    → let (c', err) = subscribe_channel tickers snapshot (quiet accepted) ch c in
      (err ≢ none)
      × (c'.channels ≡ c.channels)
      × (c'.sid_map ≡ c.sid_map)
      × (c'.pending_init ≡ c.pending_init)
      × (c'.wire ≡ c.wire)
      × (c'.conn ≡ c.conn)
unfolding subscribe_channel on_error drop_channel new_channel
subscribe_channel-undone accepted tickers snapshot ch c v absent idle fails =
    let (err, sent) =
      send_subscribe-Fails accepted ch (slice tickers) snapshot
        (new_channel ch (fresh_state ch tickers) c) fails in
    rw (absent, subscribe_channel)
      (rw sent (
        λ h. cc,
        delete-insert ch c.next_cell c.channels absent,
        refl,
        delete_pending-insert (c.msg_id + 1) ch c.pending_init (v.fresh _ (omega arith)) idle,
        refl,
        refl,
      ))

-- What a subscribe leaves behind when its command is taken.
abbrev pub registered : Option (List String) → Bool → String → WsClient → WsClient
registered tickers snapshot ch c = record c {
  channels = insert ch c.next_cell c.channels;
  cells = set_cell c.next_cell (fresh_state ch tickers) c.cells;
  next_cell = suc c.next_cell;
  msg_id = c.msg_id + 1;
  pending_init = insert (c.msg_id + 1) ch c.pending_init;
  wire =
      c.wire
      ++ record { id = c.msg_id + 1; params = subscribe_params (ch ∷ []) (slice tickers) snapshot }
        ∷ [];
}

pub subscribe_channel-registered :
    (tickers : Option (List String)) (snapshot : Bool) (ch : String) (c : WsClient) (k : Conn)
    → c.conn ≡ some k
    → lookup ch c.channels ≡ none
    → subscribe_channel tickers snapshot (quiet true) ch c
      ≡ (registered tickers snapshot ch c, none)
unfolding subscribe_channel on_error send_subscribe write_json new_channel
subscribe_channel-registered tickers snapshot ch c k e absent = ground arith

-- Subscribing to a channel that is not registered, on a connection that takes every command and
-- while no other goroutine runs, succeeds. It registers a new object with the channel's name and no
-- id yet, global exactly if the tickers are nil, with exactly the tickers as markets; the reply to
-- the new id is awaited; one command goes out; and the other channels and objects are as they were.
pub subscribe_channel-registers :
    (tickers : Option (List String)) (snapshot : Bool) (ch : String) (c : WsClient) (k : Conn)
    → c.conn ≡ some k
    → lookup ch c.channels ≡ none
    → let (c', err) = subscribe_channel tickers snapshot (quiet true) ch c in
      let id = c.msg_id + 1 in
      (err ≡ none)
      × (lookup ch c'.channels ≡ some c.next_cell)
      × ((c'.cells c.next_cell).name ≡ ch)
      × ((c'.cells c.next_cell).sid ≡ none)
      × ((c'.cells c.next_cell).global ≡ is_nil tickers)
      × ((t : String) → contains t (c'.cells c.next_cell).markets ≡ contains t (slice tickers))
      × (lookup id c'.pending_init ≡ some ch)
      × (c'.wire
          ≡ c.wire
            ++ record { id = id; params = subscribe_params (ch ∷ []) (slice tickers) snapshot }
              ∷ [])
      × ((j : String)
          → lookup j c'.channels ≡ (if ch == j then some c.next_cell else lookup j c.channels))
      × ((q : ℕ) → c'.cells q ≡ (if c.next_cell == q then c'.cells c.next_cell else c.cells q))
unfolding set_cell new_channel_state
subscribe_channel-registers tickers snapshot ch c k e absent =
    rw (subscribe_channel-registered tickers snapshot ch c k e absent) (
      refl,
      ground (arith, lookup-insert ch ch c.next_cell c.channels, string_eq.same_iff ch ch),
      ground (arith, nat_eqb_iff c.next_cell c.next_cell),
      ground (arith, nat_eqb_iff c.next_cell c.next_cell),
      ground (arith, nat_eqb_iff c.next_cell c.next_cell),
      λ t.
          ground
            (arith, nat_eqb_iff c.next_cell c.next_cell, contains-put_all t (slice tickers) []),
      ground (
        arith,
        lookup-insert (c.msg_id + 1) (c.msg_id + 1) ch c.pending_init,
        nat_eqb_iff (c.msg_id + 1) (c.msg_id + 1),
      ),
      refl,
      λ j. lookup-insert ch j c.next_cell c.channels,
      λ q. ground (arith, nat_eqb_iff c.next_cell q),
    )
