-- ===== src/Ws/Adoption.antt =====
-- The reply to a subscribe, in `handleSubscribed` of ws_client.go, and its flush of the queue.
use gokalshi.Base.{
  Bool, ℕ, suc, ◌+◌, String, ◌≡◌, ◌≢◌, refl, sym, ap, ◌∙◌, true, false, none, some, List, [], ◌∷◌,
  ◌++◌, lookup, insert, delete, nat_eq, string_eq, nat_eqb_iff, lookup-insert, lookup-delete, arith,
  inl, inr, Option-cases, is_empty,
}
use mathlib.Core.List.{append-nil}
use gokalshi.Ws.State.{WsClient, WsCommand, update_params, add_markets, Conn, set_cell}
use gokalshi.Ws.Send.{Window, write_json, send_update_sub}
use gokalshi.Ws.Incoming.{
  handle_message, handle_incoming, handle_data_message, dispatch, WsMessage, Json, after_flush,
  flush_pending, adopt_sid, handle_subscribed,
}
use gokalshi.Ws.Invariant.{Keeps}
use gokalshi.Ws.Recovery.{quiet}

-- The object has nothing in its queue.
abbrev pub IsDrained : ℕ → WsClient → Type 0
IsDrained r c = (c.cells r).pending_markets ≡ []

flush_pending-IsDrained :
    (fuel : ℕ) (ws : ℕ → Window) (r sid : ℕ) (c : WsClient)
    → IsDrained r c
    → flush_pending (suc fuel) ws r sid c ≡ some c
unfolding flush_pending
flush_pending-IsDrained fuel ws r sid c e = ground arith

send_update_sub-IsDrained :
    (w : Window) (r sid : ℕ) (tickers : List String) (c : WsClient)
    → Keeps (IsDrained r) w
    → IsDrained r c
    → IsDrained r (send_update_sub w sid tickers add_markets false c).0
unfolding send_update_sub write_json
send_update_sub-IsDrained w r sid tickers c k e =
    let started : IsDrained r (w.before c) = k.before c e in
    let id = (w.before c).msg_id + 1 in
    let given : WsClient = record (w.before c) { msg_id = id } in
    let d = w.between given in
    let between : IsDrained r d = k.between given started in
    ground (
      arith,
      k.after d between,
      k.after
          (record d {
            wire =
                d.wire
                ++ record { id = id; params = update_params (sid ∷ []) tickers add_markets false }
                  ∷ [];
          })
          between,
    )

abbrev cleared : ℕ → WsClient → WsClient
cleared r c = record c { cells = set_cell r (record (c.cells r) { pending_markets = [] }) c.cells }

cleared-IsDrained : (r : ℕ) (c : WsClient) → IsDrained r (cleared r c)
unfolding set_cell
cleared-IsDrained r c = ground (arith, nat_eqb_iff r r)

-- The loop that flushes the queue ends in its second round at the latest, as long as nobody queues
-- more markets for the channel while the command is being sent.
flush_pending-ends :
    (fuel : ℕ) (ws : ℕ → Window) (r sid : ℕ) (c : WsClient)
    → Keeps (IsDrained r) (ws 0)
    → flush_pending (suc (suc fuel)) ws r sid c ≢ none
unfolding flush_pending after_flush
flush_pending-ends fuel ws r sid c k = ground (
  arith,
  send_update_sub-IsDrained (ws 0) r sid (c.cells r).pending_markets (cleared r c) k
      (cleared-IsDrained r c),
)

module _ (json : Json) (fuel : ℕ) (ws : ℕ → Window) (k : (r : ℕ) → Keeps (IsDrained r) (ws 0)) where
  -- With two units of fuel or more the handler of the reply to a subscribe ends, whatever the
  -- reply, if what other goroutines do while the first queue is being sent does not fill the queue
  -- of any object again.
  pub handle_subscribed-ends :
      (msg : WsMessage) (c : WsClient) → handle_subscribed json (suc (suc fuel)) ws msg c ≢ none
  unfolding handle_subscribed adopt_sid
  handle_subscribed-ends msg c = elim (Option-cases (lookup msg.id c.pending_init)) [
    | inl e ↦ rw (e, handle_subscribed) (λ h. cc)
    | inr (name, e) ↦ elim (Option-cases (json.subscribed_body msg.msg)) [
      | inl e' ↦ rw (e, handle_subscribed, e') (λ h. cc)
      | inr (sid, e') ↦ elim (Option-cases (lookup name c.channels)) [
        | inl e'' ↦ rw (e, handle_subscribed, e', e'') (λ h. cc)
        | inr (r, e'') ↦
            rw (e, handle_subscribed, e', e'') (flush_pending-ends fuel ws r sid _ (k r))
      ]
    ]
  ]

  handle_message-ends :
      (taken : Bool) (msg : WsMessage) (raw : String) (c : WsClient)
      → taken ≡ true
      → handle_message json (suc (suc fuel)) ws taken msg raw c ≢ none
  unfolding handle_message handle_data_message dispatch
  handle_message-ends taken msg raw c h = ground (arith, handle_subscribed-ends msg c)

  -- With two units of fuel or more every handler ends, whatever text arrives, if a text that it
  -- sends on the message channel is taken, and what other goroutines do while the first queue is
  -- being sent does not fill the queue of any object again.
  pub handle_incoming-ends :
      (taken : Bool) (raw : String) (c : WsClient)
      → taken ≡ true
      → handle_incoming json (suc (suc fuel)) ws taken raw c ≢ none
  unfolding handle_incoming
  handle_incoming-ends taken raw c h = elim (Option-cases (json.message raw)) [
    | inl e ↦ rw (e, handle_incoming) (λ h. cc)
    | inr (msg, e) ↦ rw (e, handle_incoming) (handle_message-ends taken msg raw c h)
  ]

-- What goes out for the queue of an object: one command for all of it, or none if it is empty.
abbrev pub flushed : ℕ → ℕ → List String → List WsCommand
flushed id sid [] = []
flushed id sid (t ∷ ts) =
    record { id = id; params = update_params (sid ∷ []) (t ∷ ts) add_markets false } ∷ []

-- What the flush of the queue `q` leaves.
record Flushed (r sid : ℕ) (q : List String) (d c : WsClient) : Type 0 where
  same_sid : (c.cells r).sid ≡ (d.cells r).sid
  same_sids : c.sid_map ≡ d.sid_map
  same_awaited : c.pending_init ≡ d.pending_init
  sent : c.wire ≡ d.wire ++ flushed (d.msg_id + 1) sid q
  drained : (c.cells r).pending_markets ≡ []
  same_markets : (c.cells r).markets ≡ (d.cells r).markets

flush_pending-step :
    (fuel r sid : ℕ) (ws : ℕ → Window) (d d' : WsClient)
    → is_empty (d.cells r).pending_markets ≡ false
    → send_update_sub (ws 0) sid (d.cells r).pending_markets add_markets false (cleared r d)
      ≡ (d', none)
    → flush_pending (suc fuel) ws r sid d ≡ flush_pending fuel (λ i. ws (suc i)) r sid d'
unfolding flush_pending after_flush
flush_pending-step fuel r sid ws d d' h sent =
    rw h (ap (λ o. after_flush o (flush_pending fuel (λ i. ws (suc i)) r sid)) sent)

-- The client when the command for the queue has been taken.
abbrev told : ℕ → ℕ → List String → WsClient → WsClient
told r sid q d = record (cleared r d) {
  msg_id = d.msg_id + 1;
  wire =
      d.wire
      ++ record { id = d.msg_id + 1; params = update_params (sid ∷ []) q add_markets false } ∷ [];
}

send_update_sub-told :
    (r sid : ℕ) (q : List String) (d : WsClient) (k : Conn)
    → d.conn ≡ some k
    → send_update_sub (quiet true) sid q add_markets false (cleared r d) ≡ (told r sid q d, none)
unfolding send_update_sub write_json
send_update_sub-told r sid q d k e = ground arith

flush_pending_quiet :
    (fuel r sid : ℕ) (d : WsClient) (k : Conn) (q : List String)
    → d.conn ≡ some k
    → (d.cells r).pending_markets ≡ q
    → (c : WsClient) × (flush_pending (suc (suc fuel)) (λ _. quiet true) r sid d ≡ some c)
      × Flushed r sid q d c
unfolding set_cell
flush_pending_quiet fuel r sid d k [] e h = (
  d,
  flush_pending-IsDrained _ _ r sid d h,
  record {
    same_sid = refl;
    same_sids = refl;
    same_awaited = refl;
    sent = sym (append-nil d.wire);
    drained = h;
    same_markets = refl;
  },
)
flush_pending_quiet fuel r sid d k (t ∷ ts) e h = (
  told r sid (t ∷ ts) d,
  flush_pending-step (suc fuel) r sid (λ _. quiet true) d _ (ap is_empty h)
        (ap (λ q. send_update_sub (quiet true) sid q add_markets false (cleared r d)) h
          ∙ send_update_sub-told r sid (t ∷ ts) d k e)
      ∙ flush_pending-IsDrained fuel _ r sid (told r sid (t ∷ ts) d) (cleared-IsDrained r d),
  record {
    same_sid = ground (arith, nat_eqb_iff r r);
    same_sids = refl;
    same_awaited = refl;
    sent = refl;
    drained = ground (arith, nat_eqb_iff r r);
    same_markets = ground (arith, nat_eqb_iff r r);
  },
)

-- The client before the flush.
abbrev adopted : ℕ → ℕ → ℕ → WsClient → WsClient
adopted r sid id c = record c {
  pending_init = delete id c.pending_init;
  cells = set_cell r (record (c.cells r) { sid = some sid }) c.cells;
  sid_map = insert sid r c.sid_map;
}

adopted-cell :
    (r sid id : ℕ) (c : WsClient)
    → let s = (adopted r sid id c).cells r in
      (s.sid ≡ some sid)
      × (s.pending_markets ≡ (c.cells r).pending_markets)
      × (s.markets ≡ (c.cells r).markets)
unfolding set_cell
adopted-cell r sid id c = ground (arith, nat_eqb_iff r r)

-- While no other goroutine runs and the connection takes every command, the reply to an awaited
-- subscribe of a registered channel is adopted, with two units of fuel at least: the channel's
-- object gets the id, the id finds the object, the request is no longer awaited, what was queued is
-- sent as one command (none if nothing was) and the queue is empty. The markets stay as they were.
pub handle_subscribed-adopts :
    (json : Json) (fuel : ℕ) (msg : WsMessage) (ch : String) (r sid : ℕ) (c : WsClient) (k : Conn)
    → c.conn ≡ some k
    → lookup msg.id c.pending_init ≡ some ch
    → json.subscribed_body msg.msg ≡ some sid
    → lookup ch c.channels ≡ some r
    → (c' : WsClient) × (handle_subscribed json (suc (suc fuel)) (λ _. quiet true) msg c ≡ some c')
      × ((c'.cells r).sid ≡ some sid)
      × (lookup sid c'.sid_map ≡ some r)
      × (lookup msg.id c'.pending_init ≡ none)
      × (c'.wire ≡ c.wire ++ flushed (c.msg_id + 1) sid (c.cells r).pending_markets)
      × ((c'.cells r).pending_markets ≡ [])
      × ((c'.cells r).markets ≡ (c.cells r).markets)
unfolding handle_subscribed adopt_sid
handle_subscribed-adopts json fuel msg ch r sid c k e asked body listed =
    let d = adopted r sid msg.id c in
    let (same_sid, same_pending, same_markets) = adopted-cell r sid msg.id c in
    let f = flush_pending_quiet fuel r sid d k (c.cells r).pending_markets e same_pending in
    let done : WsClient = f.0 in
    (
      done,
      rw (asked, handle_subscribed, body, listed) f.1,
      f.2.same_sid ∙ same_sid,
      ap (lookup sid) f.2.same_sids
          ∙ ground (arith, lookup-insert sid sid r c.sid_map, nat_eqb_iff sid sid),
      ap (lookup msg.id) f.2.same_awaited
          ∙ ground (arith, lookup-delete msg.id msg.id c.pending_init, nat_eqb_iff msg.id msg.id),
      f.2.sent,
      f.2.drained,
      f.2.same_markets ∙ same_markets,
    )
