-- ===== src/Ws/Subscriptions/Markets.antt =====
-- `AddMarkets` and `RemoveMarkets` on one channel, on a connection that takes every command and
-- while no other goroutine runs.
use gokalshi.Base.{
  ◌≢◌, ℕ, ◌+◌, String, ◌≡◌, refl, ap, ◌∙◌, Bool, true, false, none, some, List, [], ◌∷◌, ◌++◌,
  lookup, nat_eq, string_eq, nat_eqb_iff, arith, ◌&&◌, not, All, contains, drop_key,
  contains-drop_key,
}
use gokalshi.Ws.State.{WsClient, update_params, delete_markets, ChannelState, Conn, set_cell}
use gokalshi.Ws.Send.{write_json, send_update_sub}
use gokalshi.Ws.Api.{
  and_then, find_or_create, add_tickers, add_markets_channel, drop_all, remove_from_markets,
  remove_markets_channel,
}
use gokalshi.Ws.Recovery.{quiet}
use gokalshi.Ws.Subscriptions.Adding.{
  object, adding, missing, Covers, add_tickers-Added, nat_eqb_refl, object-listed,
  find_or_create-Found, Covers-narrowed, adding-narrowed,
}

-- On a connection that takes every command, while no other goroutine runs, adding markets to a
-- channel succeeds and leaves the channel registered, with an object that is not global. If the
-- object has an id or no subscribe is under way, then its markets are the old ones with the tickers
-- that were asked for, its queue is as it was, and one command goes out for the tickers that were
-- missing, or none if none was. If a subscribe is under way, nothing goes out, the markets are as
-- they were, and the queue is the old one with the missing tickers.
pub add_markets_channel-Covers :
    (tickers : List String) (snapshot : Bool) (ch : String) (c : WsClient) (k : Conn)
    → c.conn ≡ some k
    → let (c', err) = add_markets_channel tickers snapshot (quiet true) ch c in
      (err ≡ none)
      × (lookup ch c'.channels ≢ none)
      × Covers ch tickers c.pending_init (object ch c) (object ch c')
      × (c'.wire
          ≡ c.wire
            ++ adding ch
                (missing tickers (object ch c))
                snapshot
                (object ch c)
                c.pending_init
                (c.msg_id + 1))
unfolding add_markets_channel
add_markets_channel-Covers tickers snapshot ch c k e =
    let (d, r, existed) = find_or_create ch c in
    let f = find_or_create-Found ch c in
    let narrowed = ap (λ (s : ChannelState). s.global) f.cell in
    let added =
      add_tickers-Added tickers (missing tickers (d.cells r)) snapshot existed ch r d k
        (f.same_conn ∙ e) narrowed refl in
    let listed = ap (lookup ch) added.same_channels ∙ f.listed in
    let after =
      (add_tickers snapshot (quiet true) ch (missing tickers (d.cells r)) (d, r, existed)).0 in
    let covers =
      Covers-narrowed ch tickers d.pending_init c.pending_init (d.cells r) (object ch c)
        (after.cells r) f.same_pending f.cell added.covers in
    (
      added.succeeds,
      λ h. cc,
      rw (object-listed ch after r listed) covers,
      added.sent
          ∙ rw (f.same_wire, f.cell, f.same_pending, f.same_id)
              (ap (λ w. c.wire ++ w)
                (adding-narrowed ch (missing tickers (object ch c)) snapshot (object ch c)
                  c.pending_init (c.msg_id + 1))),
    )

contains-drop_all :
    (t : String) (ts set : List String)
    → contains t (drop_all ts set) ≡ (not (contains t ts) && contains t set)
unfolding drop_all
contains-drop_all t [] set = refl
contains-drop_all t (u ∷ ts) set = ground (
  arith,
  contains-drop_all t ts (drop_key u set),
  contains-drop_key t u set,
  string_eq.same_iff u t,
  string_eq.same_iff t u,
)

missing-none :
    (tickers : List String) (s : ChannelState)
    → All (λ t. contains t s.markets ≡ true) tickers
    → missing tickers s ≡ []
missing-none [] s h = refl
missing-none (t ∷ ts) s h = rw h.0 (missing-none ts s h.1)

-- While no other goroutine runs, adding markets that a registered channel has already succeeds,
-- sends nothing, uses up no id, and leaves the markets as they were, also if a write would fail.
pub add_markets_channel_idempotent :
    (tickers : List String) (snapshot accepted : Bool) (ch : String) (r : ℕ) (c : WsClient)
    → lookup ch c.channels ≡ some r
    → All (λ t. contains t (c.cells r).markets ≡ true) tickers
    → let (c', err) = add_markets_channel tickers snapshot (quiet accepted) ch c in
      (err ≡ none)
      × (c'.wire ≡ c.wire)
      × (c'.msg_id ≡ c.msg_id)
      × ((c'.cells r).markets ≡ (c.cells r).markets)
unfolding add_markets_channel find_or_create add_tickers set_cell
add_markets_channel_idempotent tickers snapshot accepted ch r c e h =
    rw (e, find_or_create)
      (rw (nat_eqb_refl r)
        (rw (missing-none tickers (c.cells r) h) (refl, refl, refl, rw (nat_eqb_refl r))))

-- On a connection that takes every command, while no other goroutine runs, removing markets from a
-- registered channel that has its id succeeds and sends one command for all the tickers. Afterwards
-- the object's markets are those that were there and are not among the tickers, the channel is no
-- longer global, and its queue is untouched.
pub remove_markets_channel-removes :
    (tickers : List String) (ch : String) (r sid : ℕ) (c : WsClient) (k : Conn)
    → c.conn ≡ some k
    → lookup ch c.channels ≡ some r
    → (c.cells r).sid ≡ some sid
    → let (c', err) = remove_markets_channel tickers (quiet true) ch c in
      (err ≡ none)
      × (c'.wire
          ≡ c.wire
            ++ record {
              id = c.msg_id + 1;
              params = update_params (sid ∷ []) tickers delete_markets false;
            }
              ∷ [])
      × ((c'.cells r).global ≡ false)
      × ((c'.cells r).pending_markets ≡ (c.cells r).pending_markets)
      × ((t : String)
          → contains t (c'.cells r).markets
            ≡ (not (contains t tickers) && contains t (c.cells r).markets))
unfolding remove_markets_channel and_then send_update_sub write_json remove_from_markets set_cell
remove_markets_channel-removes tickers ch r sid c k e listed h = (
  ground arith,
  ground arith,
  ground (arith, nat_eqb_iff r r),
  ground (arith, nat_eqb_iff r r),
  λ t. ground (arith, nat_eqb_iff r r, contains-drop_all t tickers (c.cells r).markets),
)
