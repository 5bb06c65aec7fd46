-- ===== src/Ws/Subscriptions/Removal.antt =====
-- `Unsubscribe`, on a connection that takes every command and while no other goroutine runs.
use gokalshi.Base.{
  ℕ, String, ◌≡◌, refl, ◌∙◌, true, none, some, List, [], ◌∷◌, lookup, if◌then◌else◌, nat_eq,
  string_eq, lookup-delete, arith, inl, inr, Option-cases, ◌==◌, contains,
}
use gokalshi.Ws.State.{WsClient, Conn, Outcome}
use gokalshi.Ws.Send.{write_json, send_unsubscribe}
use gokalshi.Ws.Api.{and_then, for_channels, drop_channel, unsubscribe_channel, unsubscribe}
use gokalshi.Ws.Recovery.{quiet}

-- What one round of the loop leaves.
record Dropped (ch : String) (c : WsClient) (o : Outcome) : Type 0 where
  succeeds : o.1 ≡ none
  same_conn : o.0.conn ≡ c.conn
  left : (j : String) → lookup j o.0.channels ≡ (if ch == j then none else lookup j c.channels)
  no_sid :
      (r sid : ℕ)
      → lookup ch c.channels ≡ some r
      → (c.cells r).sid ≡ some sid
      → lookup sid o.0.sid_map ≡ none

unsubscribe_channel-Dropped :
    (ch : String) (c : WsClient) (k : Conn)
    → c.conn ≡ some k
    → Dropped ch c (unsubscribe_channel (quiet true) ch c)
unfolding unsubscribe_channel and_then send_unsubscribe write_json drop_channel
unsubscribe_channel-Dropped ch c k e = elim (Option-cases (lookup ch c.channels)) [
  | inl absent ↦ record {
    succeeds = ground arith;
    same_conn = ground arith;
    left = λ j. ground (arith, string_eq.same_iff ch j);
    no_sid = λ r sid h g. cc;
  }
  | inr (q, listed) ↦ record {
    succeeds = ground arith;
    same_conn = ground arith;
    left = λ j. ground (arith, lookup-delete ch j c.channels);
    no_sid = λ r sid h g. ground (arith, lookup-delete sid sid c.sid_map, nat_eq.same_iff sid sid);
  }
]

and_then-ok : (o : Outcome) (k : WsClient → Outcome) → o.1 ≡ none → and_then o k ≡ k o.0
unfolding and_then
and_then-ok (c, none) k h = refl
and_then-ok (c, some e) k h = cc

abbrev unsubscribe_all : List String → WsClient → Outcome
unsubscribe_all = for_channels unsubscribe_channel (λ _. quiet true)

unsubscribe_all-left :
    (chs : List String) (c : WsClient) (k : Conn)
    → c.conn ≡ some k
    → let (c', err) = unsubscribe_all chs c in
      (err ≡ none)
      × ((j : String)
          → lookup j c'.channels ≡ (if contains j chs then none else lookup j c.channels))
unfolding for_channels
unsubscribe_all-left [] c k e = (refl, λ j. refl)
unsubscribe_all-left (ch ∷ chs) c k e =
    let o = unsubscribe_channel (quiet true) ch c in
    let d = unsubscribe_channel-Dropped ch c k e in
    let (ok, left) = unsubscribe_all-left chs o.0 k (d.same_conn ∙ e) in
    rw (and_then-ok o (unsubscribe_all chs) d.succeeds) (ok, λ j. left j ∙ ground (arith, d.left j))

-- On a connection that takes every command, while no other goroutine runs, `Unsubscribe` of at
-- least one channel succeeds and takes exactly the named channels out of the registered ones.
pub unsubscribe-left :
    (ch : String) (chs : List String) (c : WsClient) (k : Conn)
    → c.conn ≡ some k
    → let (c', err) = unsubscribe (λ _. quiet true) (ch ∷ chs) c in
      (err ≡ none)
      × ((j : String)
          → lookup j c'.channels ≡ (if contains j (ch ∷ chs) then none else lookup j c.channels))
unfolding unsubscribe
unsubscribe-left ch chs c k e = unsubscribe_all-left (ch ∷ chs) c k e

-- After a channel with an id has been unsubscribed, on a connection that takes every command and
-- while no other goroutine runs, the id no longer finds any object, so that messages of the
-- subscription are dropped.
pub unsubscribe_channel-forgets :
    (ch : String) (r sid : ℕ) (c : WsClient) (k : Conn)
    → c.conn ≡ some k
    → lookup ch c.channels ≡ some r
    → (c.cells r).sid ≡ some sid
    → lookup sid (unsubscribe_channel (quiet true) ch c).0.sid_map ≡ none
unsubscribe_channel-forgets ch r sid c k e listed h =
    (unsubscribe_channel-Dropped ch c k e).no_sid r sid listed h
