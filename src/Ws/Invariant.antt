-- ===== src/Ws/Invariant.antt =====
-- The well-formedness of the WebSocket client's memory, across the primitive writes.
-- `Invariant/Calls` lifts it to the calls, `Invariant/Loop` to the listening loop.
pub mod Calls
pub mod Handlers
pub mod Loop
use gokalshi.Base.{
  ℕ, suc, ◌+◌, ◌≤◌, ◌<◌, String, ◌≡◌, refl, sym, ◌∙◌, ap, Bool, true, false, Option, none, some,
  List, [], ◌∷◌, ◌++◌, Map, lookup, insert, delete, if◌then◌else◌, nat_eq, string_eq, nat_eqb,
  nat_eqb_iff, Eq, lookup-insert, lookup-delete, arith, inl, inr, Bool-cases, ◌⊎◌,
}
use gokalshi.Ws.State.{WsUpdateAction, WsClient, ChannelState, set_cell, Outcome, WsCommand}
use gokalshi.Ws.Send.{
  Window, delete_pending_init_for_channel, write_json, send_subscribe, send_unsubscribe,
  send_update_sub,
}
use gokalshi.Ws.Api.{new_channel, drop_channel, add_to_markets, queue_markets, remove_from_markets}
use mathlib.Core.Option.{some-injective}

-- Every channel has an object of its own name, every subscription an object, and no id beyond the
-- last one given out is pending.
pub record IsValid (c : WsClient) : Type 0 where
  pub named :
      (ch : String) (r : ℕ)
      → lookup ch c.channels ≡ some r
      → (r < c.next_cell) × ((c.cells r).name ≡ ch)
  pub allocated : (sid r : ℕ) → lookup sid c.sid_map ≡ some r → r < c.next_cell
  pub fresh : (id : ℕ) → c.msg_id < id → lookup id c.pending_init ≡ none

-- What other goroutines do in the window keeps `P`.
pub record Keeps (P : WsClient → Type 0) (w : Window) : Type 0 where
  pub before : (c : WsClient) → P c → P (w.before c)
  pub between : (c : WsClient) → P c → P (w.between c)
  pub after : (c : WsClient) → P c → P (w.after c)

pub name-set_cell :
    (r q : ℕ) (s : ChannelState) (cells : ℕ → ChannelState)
    → s.name ≡ (cells r).name
    → (set_cell r s cells q).name ≡ (cells q).name
unfolding set_cell
name-set_cell r q s cells h = ground (arith, nat_eqb_iff r q)

lookup-delete_pending :
    (ch : String) (id : ℕ) (m : Map ℕ String)
    → lookup id m ≡ none
    → lookup id (delete_pending_init_for_channel ch m) ≡ none
unfolding lookup delete_pending_init_for_channel
lookup-delete_pending ch id [] h = refl
lookup-delete_pending ch id ((j, name) ∷ m) h = ground (arith, lookup-delete_pending ch id m)

-- A write to an object that keeps its name.
pub set_cell-IsValid :
    (c : WsClient) (r : ℕ) (s : ChannelState)
    → s.name ≡ (c.cells r).name
    → IsValid c
    → IsValid (record c { cells = set_cell r s c.cells })
set_cell-IsValid c r s h v = record {
  named = λ ch q e. let (lt, eq) = v.named ch q e in (lt, name-set_cell r q s c.cells h ∙ eq);
  allocated = v.allocated;
  fresh = v.fresh;
}

pub new_channel-IsValid :
    (ch : String) (s : ChannelState) (c : WsClient)
    → s.name ≡ ch
    → IsValid c
    → IsValid (new_channel ch s c)
unfolding new_channel set_cell
new_channel-IsValid ch s c h v = record {
  named = λ ch' q e. ground (
    arith,
    lookup-insert ch ch' c.next_cell c.channels,
    string_eq.same_iff ch ch',
    nat_eqb_iff c.next_cell q,
    v.named ch' q,
  );
  allocated = λ sid q e. ground (arith, v.allocated sid q e);
  fresh = v.fresh;
}

pub drop_channel-IsValid : (ch : String) (c : WsClient) → IsValid c → IsValid (drop_channel ch c)
unfolding drop_channel
drop_channel-IsValid ch c v = record {
  named = λ ch' q e. ground (arith, lookup-delete ch ch' c.channels, v.named ch' q);
  allocated = v.allocated;
  fresh = λ id h. lookup-delete_pending ch id c.pending_init (v.fresh id h);
}

pub pending_init-IsValid :
    (c : WsClient) (id : ℕ) (name : String)
    → c.msg_id < id
    → IsValid c
    → IsValid (record c { msg_id = id; pending_init = insert id name c.pending_init })
pending_init-IsValid c id name h v = record {
  named = v.named;
  allocated = v.allocated;
  fresh =
      λ j lt. ground (arith, lookup-insert id j name c.pending_init, nat_eqb_iff id j, v.fresh j);
}

pub msg_id-IsValid :
    (c : WsClient) (id : ℕ) → c.msg_id < id → IsValid c → IsValid (record c { msg_id = id })
msg_id-IsValid c id h v = record {
  named = v.named;
  allocated = v.allocated;
  fresh = λ j lt. v.fresh j (omega arith);
}

wire-IsValid :
    (c : WsClient) (cmds : List WsCommand) → IsValid c → IsValid (record c { wire = cmds })
wire-IsValid c cmds v = record { named = v.named; allocated = v.allocated; fresh = v.fresh }

write_json-IsValid :
    (w : Window) (cmd : WsCommand) (c : WsClient)
    → Keeps IsValid w
    → IsValid c
    → IsValid (write_json w cmd c).0
unfolding write_json
write_json-IsValid w cmd c k v = ground (
  arith,
  k.after (w.between c) (k.between c v),
  k.after (record (w.between c) { wire = (w.between c).wire ++ cmd ∷ [] })
      (wire-IsValid (w.between c) ((w.between c).wire ++ cmd ∷ []) (k.between c v)),
)

-- The three commands keep the invariant, whatever the window does that keeps it.
module _ (w : Window) (k : Keeps IsValid w) (c : WsClient) (v : IsValid c) where
  pub send_subscribe-IsValid :
      (ch : String) (tickers : List String) (snapshot : Bool)
      → IsValid (send_subscribe w ch tickers snapshot c).0
  unfolding send_subscribe
  send_subscribe-IsValid ch tickers snapshot =
      write_json-IsValid w _ _ k
        (pending_init-IsValid (w.before c) _ ch (omega arith) (k.before c v))

  pub send_unsubscribe-IsValid : (sid : ℕ) → IsValid (send_unsubscribe w sid c).0
  unfolding send_unsubscribe
  send_unsubscribe-IsValid sid =
      write_json-IsValid w _ _ k (msg_id-IsValid (w.before c) _ (omega arith) (k.before c v))

  pub send_update_sub-IsValid :
      (sid : ℕ) (tickers : List String) (action : WsUpdateAction) (snapshot : Bool)
      → IsValid (send_update_sub w sid tickers action snapshot c).0
  unfolding send_update_sub
  send_update_sub-IsValid sid tickers action snapshot =
      write_json-IsValid w _ _ k (msg_id-IsValid (w.before c) _ (omega arith) (k.before c v))
