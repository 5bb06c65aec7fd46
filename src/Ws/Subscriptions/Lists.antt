-- ===== src/Ws/Subscriptions/Lists.antt =====
-- `Subscribe` of several channels, on a connection that takes every command and while no other
-- goroutine runs.
use gokalshi.Base.{
  ℕ, ◌+◌, String, ◌≡◌, ◌≢◌, refl, sym, ap, ◌∙◌, Bool, true, false, Option, none, some, List, [],
  ◌∷◌, ◌++◌, lookup, nat_eq, string_eq, lookup-insert, arith, contains,
}
use mathlib.Core.List.{append_assoc, append-nil}
use gokalshi.Ws.State.{
  WsClient, WsCommand, subscribe_params, Conn, Outcome, SubscribeOpts, apply_opts,
}
use gokalshi.Ws.Api.{and_then, for_channels, slice, subscribe_channel, subscribe}
use gokalshi.Ws.Recovery.{quiet}
use gokalshi.Ws.Subscriptions.{registered, subscribe_channel-registered}

-- The commands that a call of `Subscribe` sends, one for each channel, with the ids after `last`.
pub subscribe_commands : ℕ → List String → List String → Bool → List WsCommand
subscribe_commands last [] tickers snapshot = []
subscribe_commands last (ch ∷ chs) tickers snapshot =
    record { id = last + 1; params = subscribe_params (ch ∷ []) tickers snapshot }
    ∷ subscribe_commands (last + 1) chs tickers snapshot

-- The channels are distinct, and none is registered.
abbrev pub AreNew : List String → WsClient → Type 0
AreNew [] c = Unit
AreNew (ch ∷ chs) c = (lookup ch c.channels ≡ none) × (contains ch chs ≡ false) × AreNew chs c

AreNew-registered :
    (tickers : Option (List String)) (snapshot : Bool) (ch : String) (chs : List String)
    (c : WsClient)
    → contains ch chs ≡ false
    → AreNew chs c
    → AreNew chs (registered tickers snapshot ch c)
AreNew-registered tickers snapshot ch [] c h a = tt
AreNew-registered tickers snapshot ch (j ∷ chs) c h a = (
  ground (
    arith,
    a.0,
    lookup-insert ch j c.next_cell c.channels,
    string_eq.same_iff ch j,
    string_eq.same_iff j ch,
  ),
  a.1,
  AreNew-registered tickers snapshot ch chs c (ground arith) a.2,
)

abbrev subscribe_all : Option (List String) → Bool → List String → WsClient → Outcome
subscribe_all tickers snapshot = for_channels (subscribe_channel tickers snapshot) (λ _. quiet true)

subscribe_all-cons :
    (tickers : Option (List String)) (snapshot : Bool) (ch : String) (chs : List String)
    (c : WsClient) (k : Conn)
    → c.conn ≡ some k
    → lookup ch c.channels ≡ none
    → subscribe_all tickers snapshot (ch ∷ chs) c
      ≡ subscribe_all tickers snapshot chs (registered tickers snapshot ch c)
unfolding for_channels and_then
subscribe_all-cons tickers snapshot ch chs c k e absent =
    ap (λ o. and_then o (subscribe_all tickers snapshot chs))
      (subscribe_channel-registered tickers snapshot ch c k e absent)

subscribe_all-commands :
    (tickers : Option (List String)) (snapshot : Bool) (chs : List String) (c : WsClient) (k : Conn)
    → c.conn ≡ some k
    → AreNew chs c
    → let (c', err) = subscribe_all tickers snapshot chs c in
      (err ≡ none) × (c'.wire ≡ c.wire ++ subscribe_commands c.msg_id chs (slice tickers) snapshot)
unfolding for_channels subscribe_commands
subscribe_all-commands tickers snapshot [] c k e a = (refl, sym (append-nil c.wire))
subscribe_all-commands tickers snapshot (ch ∷ chs) c k e a =
    let d = registered tickers snapshot ch c in
    let next = AreNew-registered tickers snapshot ch chs c a.1 a.2 in
    let (ok, written) = subscribe_all-commands tickers snapshot chs d k e next in
    rw (subscribe_all-cons tickers snapshot ch chs c k e a.0)
      (ok, written ∙ append_assoc c.wire _ _)

-- While no other goroutine runs and the connection takes every command, `Subscribe` succeeds for at
-- least one, distinct channels of which none is registered, if the tickers are nil or not empty. It
-- sends one command for each channel, in order, with ids that count on.
pub subscribe_sends_all :
    (ch : String) (chs : List String) (tickers : Option (List String))
    (opts : List (SubscribeOpts → SubscribeOpts)) (c : WsClient) (k : Conn)
    → c.conn ≡ some k
    → tickers ≢ some []
    → AreNew (ch ∷ chs) c
    → let (c', err) = subscribe (λ _. quiet true) (ch ∷ chs) tickers opts c in
      (err ≡ none)
      × (c'.wire
          ≡ c.wire
            ++ subscribe_commands c.msg_id
                (ch ∷ chs)
                (slice tickers)
                (apply_opts opts).send_initial_snapshot)
unfolding subscribe
subscribe_sends_all ch chs none opts c k e h a =
    subscribe_all-commands none (apply_opts opts).send_initial_snapshot (ch ∷ chs) c k e a
subscribe_sends_all ch chs (some []) opts c k e h a = absurd (h refl)
subscribe_sends_all ch chs (some (t ∷ ts)) opts c k e h a =
    subscribe_all-commands (some (t ∷ ts)) (apply_opts opts).send_initial_snapshot (ch ∷ chs) c k e
      a
