-- ===== src/Ws/Tests/Calls.antt =====
-- The recovery, the replies, the backoff and the calls of the user at concrete inputs.
use Prim.Native.Nat.{min}
use gokalshi.Base.{
  ℕ, pos, ◌*◌, ◌^◌, ◌≡◌, ◌≢◌, refl, String, true, false, none, some, [], ◌∷◌, ◌++◌, if◌then◌else◌,
  arith, nat_eq, string_eq, lookup, inr, contains, All, not, ◌&&◌, ◌==◌,
}
use gokalshi.Ws.State.{
  WsClient, Conn, subscribe_params, update_params, delete_markets, with_initial_snapshot,
  apply_opts,
}
use gokalshi.Ws.Send.{pending_init_for_channel}
use gokalshi.Ws.Incoming.{handle_incoming, handle_subscribed}
use gokalshi.Ws.Api.{
  slice, is_nil, subscribe_channel, subscribe, unsubscribe_channel, unsubscribe,
  add_markets_channel, remove_markets_channel,
}
use gokalshi.Ws.Loop.{handle_connection_loss, recover_subscriptions, again, listen_loop}
use gokalshi.Ws.Recovery.{quiet, owed, IsAwaited, loss_forgets_sids, recover_subscriptions-owed}
use gokalshi.Ws.Adoption.{IsDrained, flushed, handle_incoming-ends, handle_subscribed-adopts}
use gokalshi.Ws.Backoff.{OnlyFails, listen_loop-fails}
use gokalshi.Ws.Subscriptions.{subscribe_channel-undone, subscribe_channel-registers}
use gokalshi.Ws.Subscriptions.Lists.{subscribe_commands, subscribe_sends_all}
use gokalshi.Ws.Subscriptions.Adding.{object, Covers, adding, missing}
use gokalshi.Ws.Subscriptions.Markets.{
  add_markets_channel-Covers, add_markets_channel_idempotent, remove_markets_channel-removes,
}
use gokalshi.Ws.Subscriptions.Removal.{unsubscribe-left, unsubscribe_channel-forgets}
use gokalshi.Ws.Tests.{
  client, client-IsValid, trade, json, callbacks, turn, lost, quiet-Keeps, subscribed_message,
}

abbrev connection : Conn
connection = record { handle = 1; read_limit = none }

loss_forgets_sids_test :
    let d = handle_connection_loss (λ x. x) client in
    (d.conn ≡ none)
    × (d.sid_map ≡ [])
    × (d.pending_init ≡ [])
    × (lookup "trade" d.channels ≡ some 0)
    × (((d.cells 0).sid ≡ none) × ((d.cells 0).seq ≡ 0))
    × (((d.cells 0).name ≡ "trade")
        × ((d.cells 0).markets ≡ trade.markets)
        × ((d.cells 0).pending_markets ≡ trade.pending_markets)
        × ((d.cells 0).global ≡ false))
unfolding lookup
loss_forgets_sids_test = loss_forgets_sids client "trade" 0 refl

recover_subscriptions-owed_example :
    let (c', err) = recover_subscriptions (λ _. quiet true) (0 ∷ []) client in
    let commands = owed 3 (trade ∷ []) in
    (err ≡ none) × (c'.wire ≡ client.wire ++ commands) × All (IsAwaited c') commands
recover_subscriptions-owed_example = recover_subscriptions-owed (0 ∷ []) client connection refl

handle_incoming-ends_example : handle_incoming json 2 (λ _. quiet true) true "sub" client ≢ none
handle_incoming-ends_example =
    handle_incoming-ends json 0 (λ _. quiet true) (λ r. quiet-Keeps (IsDrained r) true) true "sub"
      client refl

handle_subscribed-adopts_example :
    (c' : WsClient) × (handle_subscribed json 2 (λ _. quiet true) subscribed_message client
      ≡ some c')
    × ((c'.cells 0).sid ≡ some 9)
    × (lookup 9 c'.sid_map ≡ some 0)
    × (lookup 3 c'.pending_init ≡ none)
    × (c'.wire ≡ client.wire ++ flushed 4 9 ("C" ∷ []))
    × ((c'.cells 0).pending_markets ≡ [])
    × ((c'.cells 0).markets ≡ "A" ∷ "B" ∷ [])
unfolding lookup
handle_subscribed-adopts_example =
    handle_subscribed-adopts json 0 subscribed_message "trade" 0 9 client connection refl refl refl
      refl

turn-OnlyFails : OnlyFails (turn none none false)
turn-OnlyFails = record { goes_on = refl; alone = λ c. refl; fails = refl; waits = refl }

listen_loop-fails_example :
    listen_loop json callbacks (turn none none false ∷ turn none none false ∷ []) lost
    ≡ again lost (pos (min (1 * 2 ^ 2) 32))
listen_loop-fails_example =
    listen_loop-fails json callbacks (turn none none false ∷ turn none none false ∷ []) 1 32 lost
      (turn-OnlyFails, (turn-OnlyFails, tt)) refl refl refl (omega arith) (omega arith)

subscribe_channel-undone_example :
    let (c', err) = subscribe_channel none true (quiet false) "fill" client in
    (err ≢ none)
    × (c'.channels ≡ client.channels)
    × (c'.sid_map ≡ client.sid_map)
    × (c'.pending_init ≡ client.pending_init)
    × (c'.wire ≡ client.wire)
    × (c'.conn ≡ client.conn)
unfolding lookup pending_init_for_channel
subscribe_channel-undone_example =
    subscribe_channel-undone false none true "fill" client client-IsValid refl refl (inr refl)

subscribe_channel-registers_example :
    let (c', err) = subscribe_channel (some ("A" ∷ [])) true (quiet true) "fill" client in
    (err ≡ none)
    × (lookup "fill" c'.channels ≡ some 1)
    × ((c'.cells 1).name ≡ "fill")
    × ((c'.cells 1).sid ≡ none)
    × ((c'.cells 1).global ≡ is_nil (some ("A" ∷ [])))
    × ((t : String) → contains t (c'.cells 1).markets ≡ contains t (slice (some ("A" ∷ []))))
    × (lookup 4 c'.pending_init ≡ some "fill")
    × (c'.wire
        ≡ client.wire
          ++ record {
            id = 4;
            params = subscribe_params ("fill" ∷ []) (slice (some ("A" ∷ []))) true;
          }
            ∷ [])
    × ((j : String)
        → lookup j c'.channels ≡ (if "fill" == j then some 1 else lookup j client.channels))
    × ((q : ℕ) → c'.cells q ≡ (if 1 == q then c'.cells 1 else client.cells q))
unfolding lookup
subscribe_channel-registers_example =
    subscribe_channel-registers (some ("A" ∷ [])) true "fill" client connection refl refl

subscribe_sends_all_example :
    let (c', err) =
      subscribe
        (λ _. quiet true)
        ("fill" ∷ "ticker" ∷ [])
        (some ("A" ∷ []))
        (with_initial_snapshot ∷ [])
        client in
    (err ≡ none)
    × (c'.wire
        ≡ client.wire
          ++ subscribe_commands 3
              ("fill" ∷ "ticker" ∷ [])
              (slice (some ("A" ∷ [])))
              (apply_opts (with_initial_snapshot ∷ [])).send_initial_snapshot)
unfolding lookup
subscribe_sends_all_example =
    subscribe_sends_all "fill" ("ticker" ∷ []) (some ("A" ∷ [])) (with_initial_snapshot ∷ []) client
      connection refl (λ e. cc) (refl, refl, (refl, refl, tt))

add_markets_channel-Covers_example :
    let (c', err) = add_markets_channel ("B" ∷ "D" ∷ []) false (quiet true) "trade" client in
    (err ≡ none)
    × (lookup "trade" c'.channels ≢ none)
    × Covers "trade" ("B" ∷ "D" ∷ []) client.pending_init trade (object "trade" c')
    × (c'.wire
        ≡ client.wire
          ++ adding "trade" (missing ("B" ∷ "D" ∷ []) trade) false trade client.pending_init 4)
unfolding lookup
add_markets_channel-Covers_example =
    add_markets_channel-Covers ("B" ∷ "D" ∷ []) false "trade" client connection refl

add_markets_channel_idempotent_test :
    let (c', err) = add_markets_channel ("A" ∷ []) false (quiet false) "trade" client in
    (err ≡ none)
    × (c'.wire ≡ client.wire)
    × (c'.msg_id ≡ client.msg_id)
    × ((c'.cells 0).markets ≡ trade.markets)
unfolding lookup
add_markets_channel_idempotent_test =
    add_markets_channel_idempotent ("A" ∷ []) false false "trade" 0 client refl (refl, tt)

remove_markets_channel-removes_example :
    let (c', err) = remove_markets_channel ("A" ∷ []) (quiet true) "trade" client in
    (err ≡ none)
    × (c'.wire
        ≡ client.wire
          ++ record { id = 4; params = update_params (7 ∷ []) ("A" ∷ []) delete_markets false }
            ∷ [])
    × ((c'.cells 0).global ≡ false)
    × ((c'.cells 0).pending_markets ≡ trade.pending_markets)
    × ((t : String)
        → contains t (c'.cells 0).markets
          ≡ (not (contains t ("A" ∷ [])) && contains t trade.markets))
unfolding lookup
remove_markets_channel-removes_example =
    remove_markets_channel-removes ("A" ∷ []) "trade" 0 7 client connection refl refl refl

unsubscribe-left_example :
    let (c', err) = unsubscribe (λ _. quiet true) ("trade" ∷ "fill" ∷ []) client in
    (err ≡ none)
    × ((j : String)
        → lookup j c'.channels
          ≡ (if contains j ("trade" ∷ "fill" ∷ []) then none else lookup j client.channels))
unsubscribe-left_example = unsubscribe-left "trade" ("fill" ∷ []) client connection refl

unsubscribe_channel-forgets_test :
    lookup 7 (unsubscribe_channel (quiet true) "trade" client).0.sid_map ≡ none
unfolding lookup
unsubscribe_channel-forgets_test =
    unsubscribe_channel-forgets "trade" 0 7 client connection refl refl refl
