-- ===== src/Ws/Subscriptions/Adding.antt =====
-- The object of a channel before and after `AddMarkets`, on a connection that takes every command
-- and while no other goroutine runs.
use gokalshi.Base.{
  Map, ℕ, ◌+◌, String, ◌≡◌, refl, sym, ap, Bool, true, false, none, some, List, [], ◌∷◌, ◌++◌,
  lookup, if◌then◌else◌, nat_eq, string_eq, nat_eqb, nat_eqb_iff, lookup-insert, arith, inl, inr,
  Option-cases, ◌||◌, not, contains, keep, contains-keep,
}
use mathlib.Core.List.{append-nil}
use gokalshi.Ws.State.{
  WsClient, WsCommand, subscribe_params, update_params, add_markets, ChannelState,
  new_channel_state, Conn, set_cell, Outcome,
}
use gokalshi.Ws.Send.{pending_init_for_channel, write_json, send_subscribe, send_update_sub}
use gokalshi.Ws.Api.{
  and_then, on_error, new_channel, find_or_create, add_tickers, add_to_markets, queue_markets,
}
use gokalshi.Ws.Recovery.{quiet}
use gokalshi.Ws.Subscriptions.{contains-put_all}

-- The object of the channel; a fresh one if there is none.
abbrev pub object : String → WsClient → ChannelState
object ch c = elim (lookup ch c.channels) [ none ↦ new_channel_state ch | some r ↦ c.cells r ]

-- The object has no id yet, and a subscribe for the channel is under way.
abbrev pub waits : String → ChannelState → Map ℕ String → Bool
waits ch s pending = elim s.sid [ none ↦ pending_init_for_channel ch pending | some sid ↦ false ]

-- What is sent when the tickers are new to the object: nothing if there are none or a subscribe is
-- under way.
abbrev pub adding : String → List String → Bool → ChannelState → Map ℕ String → ℕ → List WsCommand
adding ch [] snapshot s pending id = []
adding ch (t ∷ ts) snapshot s pending id = elim s.sid [
  | some sid ↦
      record { id = id; params = update_params (sid ∷ []) (t ∷ ts) add_markets snapshot } ∷ []
  | none ↦
      if pending_init_for_channel ch pending
      then []
      else record { id = id; params = subscribe_params (ch ∷ []) (t ∷ ts) snapshot } ∷ []
]

-- The tickers that the object does not have among its markets.
abbrev pub missing : List String → ChannelState → List String
missing tickers s = keep (λ t. not (contains t s.markets)) tickers

-- The object before and after tickers were asked for, with the subscribes under way. The tickers
-- are noted as markets only if a command for them was sent; else the new ones are put in the queue
-- and the markets stay.
pub record Covers (ch : String) (tickers : List String) (pending : Map ℕ String)
    (before after : ChannelState) : Type 0 where
  pub narrowed : after.global ≡ false
  pub sent_queue : waits ch before pending ≡ false → after.pending_markets ≡ before.pending_markets
  pub sent_markets :
      waits ch before pending ≡ false
      → (t : String) → contains t after.markets ≡ (contains t tickers || contains t before.markets)
  pub queued_markets : waits ch before pending ≡ true → after.markets ≡ before.markets
  pub queued :
      waits ch before pending ≡ true
      → (t : String)
      → contains t after.pending_markets
        ≡ (contains t (missing tickers before) || contains t before.pending_markets)

-- What adding new tickers to an object does.
pub record Added (ch : String) (tickers : List String) (snapshot : Bool) (r : ℕ) (c : WsClient)
    (o : Outcome) : Type 0 where
  pub succeeds : o.1 ≡ none
  pub same_channels : o.0.channels ≡ c.channels
  pub sent :
      o.0.wire
      ≡ c.wire
        ++ adding ch
            (missing tickers (c.cells r))
            snapshot
            (c.cells r)
            c.pending_init
            (c.msg_id + 1)
  pub covers : Covers ch tickers c.pending_init (c.cells r) (o.0.cells r)

-- The tickers that are missing, with the markets, are the tickers with the markets.
contains-missing :
    (t : String) (tickers : List String) (s : ChannelState)
    → (contains t (missing tickers s) || contains t s.markets)
      ≡ (contains t tickers || contains t s.markets)
contains-missing t tickers s =
    ground (arith, contains-keep (λ u. not (contains u s.markets)) t tickers)

pub add_tickers-Added :
    (tickers new : List String) (snapshot existed : Bool) (ch : String) (r : ℕ) (c : WsClient)
    (k : Conn)
    → c.conn ≡ some k
    → (c.cells r).global ≡ false
    → missing tickers (c.cells r) ≡ new
    → Added ch tickers snapshot r c (add_tickers snapshot (quiet true) ch new (c, r, existed))
unfolding add_tickers and_then on_error send_update_sub send_subscribe write_json add_to_markets
    queue_markets set_cell
add_tickers-Added tickers [] snapshot existed ch r c k e g m =
    let all = λ (t : String). contains-missing t tickers (c.cells r) in
    record {
      succeeds = refl;
      same_channels = refl;
      sent = rw m (sym (append-nil c.wire));
      covers = record {
        narrowed = g;
        sent_queue = λ h. refl;
        sent_markets = λ h t. rw m at (all t);
        queued_markets = λ h. refl;
        queued = λ h t. rw m refl;
      };
    }
add_tickers-Added tickers (u ∷ us) snapshot existed ch r c k e g m =
    let all = λ (t : String). contains-missing t tickers (c.cells r) in
    record {
      succeeds = ground arith;
      same_channels = ground arith;
      sent = rw m (ground (arith, append-nil c.wire));
      covers = record {
        narrowed = ground (arith, nat_eqb_iff r r);
        sent_queue = λ h. ground (arith, nat_eqb_iff r r);
        sent_markets = λ h t. ground (
          arith,
          nat_eqb_iff r r,
          contains-put_all t (u ∷ us) (c.cells r).markets,
          rw m at (all t),
        );
        queued_markets = λ h. ground (arith, nat_eqb_iff r r);
        queued = λ h t. rw m (
            ground
              (arith, nat_eqb_iff r r, contains-put_all t (u ∷ us) (c.cells r).pending_markets));
      };
    }

pub nat_eqb_refl : (n : ℕ) → nat_eqb n n ≡ true
nat_eqb_refl n = ground arith

-- The object that is found or made.
pub record Found (ch : String) (c d : WsClient) (r : ℕ) : Type 0 where
  pub listed : lookup ch d.channels ≡ some r
  pub same_conn : d.conn ≡ c.conn
  pub same_wire : d.wire ≡ c.wire
  pub same_id : d.msg_id ≡ c.msg_id
  pub same_pending : d.pending_init ≡ c.pending_init
  pub cell : d.cells r ≡ record (object ch c) { global = false }

pub object-listed :
    (ch : String) (c : WsClient) (r : ℕ) → lookup ch c.channels ≡ some r → object ch c ≡ c.cells r
object-listed ch c r e = rw (e, object) refl

object-none :
    (ch : String) (c : WsClient) → lookup ch c.channels ≡ none → object ch c ≡ new_channel_state ch
object-none ch c e = rw (e, object) refl

pub find_or_create-Found :
    (ch : String) (c : WsClient) → let o = find_or_create ch c in Found ch c o.0 o.1
unfolding find_or_create new_channel set_cell new_channel_state
find_or_create-Found ch c = elim (Option-cases (lookup ch c.channels)) [
  | inr (r, e) ↦
      rw (e, find_or_create)
        (record {
          listed = e;
          same_conn = refl;
          same_wire = refl;
          same_id = refl;
          same_pending = refl;
          cell = rw (nat_eqb_refl r) (
              sym
                (ap (λ (s : ChannelState). record s { global = false }) (object-listed ch c r e)));
        })
  | inl e ↦
      rw (e, find_or_create)
        (record {
          listed =
              ground (arith, lookup-insert ch ch c.next_cell c.channels, string_eq.same_iff ch ch);
          same_conn = refl;
          same_wire = refl;
          same_id = refl;
          same_pending = refl;
          cell =
              rw (nat_eqb_refl c.next_cell)
                (sym (ap (λ (s : ChannelState). record s { global = false }) (object-none ch c e)));
        })
]

-- Whether the object was global before does not matter.
pub Covers-narrowed :
    (ch : String) (tickers : List String) (pending pending' : Map ℕ String)
    (s s' after : ChannelState)
    → pending ≡ pending'
    → s ≡ record s' { global = false }
    → Covers ch tickers pending s after
    → Covers ch tickers pending' s' after
Covers-narrowed ch tickers pending pending' s s' after e f h0 =
    let h : Covers ch tickers pending' (record s' { global = false }) after = rw (e, f) at h0 in
    record {
      narrowed = h.narrowed;
      sent_queue = h.sent_queue;
      sent_markets = h.sent_markets;
      queued_markets = h.queued_markets;
      queued = h.queued;
    }

pub adding-narrowed :
    (ch : String) (new : List String) (snapshot : Bool) (s : ChannelState) (pending : Map ℕ String)
    (id : ℕ)
    → adding ch new snapshot (record s { global = false }) pending id
      ≡ adding ch new snapshot s pending id
adding-narrowed ch [] snapshot s pending id = refl
adding-narrowed ch (t ∷ ts) snapshot s pending id = refl
