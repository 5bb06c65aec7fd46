-- ===== src/Ws/Recovery.antt =====
-- Losing the connection and subscribing anew, on a connection that takes every command.
use gokalshi.Base.{
  ℕ, ◌+◌, ◌≤◌, String, ◌≡◌, refl, sym, ap, ◌∙◌, Bool, true, false, none, some, List, [], ◌∷◌, ◌++◌,
  Map, lookup, insert, if◌then◌else◌, nat_eq, string_eq, nat_eqb_iff, lookup-insert, arith, map,
  inl, inr, Bool-cases, is_empty, ◌||◌, not, All,
}
use mathlib.Core.List.{append_assoc, append-nil}
use gokalshi.Ws.State.{WsClient, WsCommand, subscribe_params, ChannelState, Conn, set_cell, Outcome}
use gokalshi.Ws.Send.{Window, write_json, send_subscribe}
use gokalshi.Ws.Api.{and_then}
use gokalshi.Ws.Loop.{reset_cells, handle_connection_loss, recover_channel, recover_subscriptions}

-- A window in which no other goroutine runs.
abbrev pub quiet : Bool → Window
quiet accepted = record { before = λ c. c; between = λ c. c; after = λ c. c; accepted = accepted }

abbrev Kept : ChannelState → ChannelState → Type 0
Kept s t =
    (t.name ≡ s.name)
    × (t.markets ≡ s.markets)
    × (t.pending_markets ≡ s.pending_markets)
    × (t.global ≡ s.global)

reset_cells-Kept :
    (m : Map String ℕ) (cells : ℕ → ChannelState) (q : ℕ) → Kept (cells q) (reset_cells m cells q)
unfolding reset_cells set_cell
reset_cells-Kept [] cells q = (refl, refl, refl, refl)
reset_cells-Kept ((ch, r) ∷ m) cells q = ground (
  arith,
  nat_eqb_iff r q,
  reset_cells-Kept m (set_cell r (record (cells r) { sid = none; seq = 0 }) cells) q,
)

abbrev IsReset : ChannelState → Type 0
IsReset s = (s.sid ≡ none) × (s.seq ≡ 0)

reset_cells-stays :
    (m : Map String ℕ) (cells : ℕ → ChannelState) (q : ℕ)
    → IsReset (cells q)
    → IsReset (reset_cells m cells q)
unfolding reset_cells set_cell
reset_cells-stays [] cells q h = h
reset_cells-stays ((ch, r) ∷ m) cells q h =
    reset_cells-stays m (set_cell r (record (cells r) { sid = none; seq = 0 }) cells) q
      (ground (arith, nat_eqb_iff r q))

reset_cells-IsReset :
    (m : Map String ℕ) (cells : ℕ → ChannelState) (ch : String) (r : ℕ)
    → lookup ch m ≡ some r
    → IsReset (reset_cells m cells r)
unfolding reset_cells lookup set_cell
reset_cells-IsReset [] cells ch r e = cc
reset_cells-IsReset ((j, q) ∷ m) cells ch r e =
    let cells' = set_cell q (record (cells q) { sid = none; seq = 0 }) cells in
    ground (arith, nat_eqb_iff q r, reset_cells-stays m cells' r, reset_cells-IsReset m cells' ch r)

-- After a connection loss, without a callback, no subscription id is live: none is registered,
-- awaited or noted in the object of a registered channel, whose sequence number starts anew. The
-- channel is still registered with its name, markets, queue and scope, and there is no connection.
pub loss_forgets_sids :
    (c : WsClient) (ch : String) (r : ℕ)
    → lookup ch c.channels ≡ some r
    → let d = handle_connection_loss (λ x. x) c in
      (d.conn ≡ none)
      × (d.sid_map ≡ [])
      × (d.pending_init ≡ [])
      × (lookup ch d.channels ≡ some r)
      × IsReset (d.cells r)
      × Kept (c.cells r) (d.cells r)
unfolding handle_connection_loss
loss_forgets_sids c ch r e = (
  refl,
  refl,
  refl,
  e,
  reset_cells-IsReset c.channels c.cells ch r e,
  reset_cells-Kept c.channels c.cells r,
)

-- A channel that has something to recover, and the tickers to ask for: none if it is global.
abbrev pub is_wanted : ChannelState → Bool
is_wanted s = s.global || not (is_empty s.markets)

abbrev pub request : ℕ → ChannelState → WsCommand
request id s = record {
  id = id;
  params = subscribe_params (s.name ∷ []) (if s.global then [] else s.markets) false;
}

-- The commands that a recovery owes the server, with ids after the last one given out.
pub owed : ℕ → List ChannelState → List WsCommand
owed last [] = []
owed last (s ∷ rest) =
    let skipped = owed last rest in
    let asked = request (last + 1) s ∷ owed (last + 1) rest in
    if is_wanted s then asked else skipped

recover_channel_wanted :
    (r : ℕ) (c : WsClient) (k : Conn)
    → c.conn ≡ some k
    → is_wanted (c.cells r) ≡ true
    → recover_channel (quiet true) r c ≡ (
      record c {
        msg_id = c.msg_id + 1;
        pending_init = insert (c.msg_id + 1) (c.cells r).name c.pending_init;
        wire = c.wire ++ request (c.msg_id + 1) (c.cells r) ∷ [];
      },
      none,
    )
unfolding recover_channel send_subscribe write_json
recover_channel_wanted r c k e h = ground arith

recover_channel_unwanted :
    (r : ℕ) (c : WsClient)
    → is_wanted (c.cells r) ≡ false
    → recover_channel (quiet true) r c ≡ (c, none)
unfolding recover_channel
recover_channel_unwanted r c h = ground arith

-- The client when the subscribe of one channel has been sent.
abbrev asked : ℕ → WsClient → WsClient
asked r c = record c {
  msg_id = c.msg_id + 1;
  pending_init = insert (c.msg_id + 1) (c.cells r).name c.pending_init;
  wire = c.wire ++ request (c.msg_id + 1) (c.cells r) ∷ [];
}

abbrev recover : List ℕ → WsClient → Outcome
recover = recover_subscriptions (λ _. quiet true)

recover-cons_wanted :
    (r : ℕ) (rs : List ℕ) (c : WsClient) (k : Conn)
    → c.conn ≡ some k
    → is_wanted (c.cells r) ≡ true
    → recover (r ∷ rs) c ≡ recover rs (asked r c)
unfolding recover_subscriptions and_then
recover-cons_wanted r rs c k e h =
    ap (λ o. and_then o (recover rs)) (recover_channel_wanted r c k e h)

recover-cons_unwanted :
    (r : ℕ) (rs : List ℕ) (c : WsClient)
    → is_wanted (c.cells r) ≡ false
    → recover (r ∷ rs) c ≡ recover rs c
unfolding recover_subscriptions and_then
recover-cons_unwanted r rs c h = ap (λ o. and_then o (recover rs)) (recover_channel_unwanted r c h)

-- A recovery does not touch the entries of earlier ids.
pending-recover :
    (rs : List ℕ) (c : WsClient) (k : Conn) (id : ℕ)
    → c.conn ≡ some k
    → id ≤ c.msg_id
    → lookup id (recover rs c).0.pending_init ≡ lookup id c.pending_init
unfolding recover_subscriptions
pending-recover [] c k id e h = refl
pending-recover (r ∷ rs) c k id e h = elim (Bool-cases (is_wanted (c.cells r))) [
  | inl wanted ↦ rw (recover-cons_wanted r rs c k e wanted) (
      ground (
        arith,
        pending-recover rs (asked r c) k id e,
        lookup-insert (c.msg_id + 1) id (c.cells r).name c.pending_init,
        nat_eqb_iff (c.msg_id + 1) id,
      ))
  | inr unwanted ↦ rw (recover-cons_unwanted r rs c unwanted) (pending-recover rs c k id e h)
]

-- The reply to the command will be taken for the channel that the command asks for.
pub record IsAwaited (c : WsClient) (cmd : WsCommand) : Type 0 where
  pub state : ChannelState
  pub asks : cmd ≡ request cmd.id state
  pub awaited : lookup cmd.id c.pending_init ≡ some state.name

-- On a connection that takes every command, while no other goroutine runs, the recovery succeeds.
-- It sends, in the order in which it meets the channels, exactly the owed subscribe commands: one
-- for each channel that is global or has markets, with a new id each, with no tickers for a global
-- channel and all its markets otherwise. The replies to them are awaited.
pub recover_subscriptions-owed :
    (rs : List ℕ) (c : WsClient) (k : Conn)
    → c.conn ≡ some k
    → let (c', err) = recover_subscriptions (λ _. quiet true) rs c in
      let commands = owed c.msg_id (map c.cells rs) in
      (err ≡ none) × (c'.wire ≡ c.wire ++ commands) × All (IsAwaited c') commands
unfolding recover_subscriptions owed
recover_subscriptions-owed [] c k e = (refl, sym (append-nil c.wire), tt)
recover_subscriptions-owed (r ∷ rs) c k e = elim (Bool-cases (is_wanted (c.cells r))) [
  | inr unwanted ↦
      rw (recover-cons_unwanted r rs c unwanted, unwanted) (recover_subscriptions-owed rs c k e)
  | inl wanted ↦
      let d = asked r c in
      let (ok, written, awaited) = recover_subscriptions-owed rs d k e in
      rw (recover-cons_wanted r rs c k e wanted, wanted)
        (
          ok,
          written ∙ append_assoc c.wire _ _,
          (
            record {
              state = c.cells r;
              asks = refl;
              awaited = ground (
                arith,
                pending-recover rs d k (c.msg_id + 1) e,
                lookup-insert (c.msg_id + 1) (c.msg_id + 1) (c.cells r).name c.pending_init,
                nat_eqb_iff (c.msg_id + 1) (c.msg_id + 1),
              );
            },
            awaited,
          ),
        )
]
