-- ===== src/Ws/Invariant/Handlers.antt =====
-- The invariant across the handlers of incoming messages of ws_client.go.
use gokalshi.Base.{
  ◌∷◌, ◌++◌, ℕ, zero, suc, ◌<◌, String, ◌≡◌, refl, Bool, true, false, Option, none, some, List, [],
  lookup, insert, delete, nat_eq, string_eq, lookup-insert, lookup-delete, arith, inl, inr,
  Bool-cases, Option-cases, Holds,
}
use gokalshi.Ws.State.{WsClient, ChannelState, set_cell, add_markets, Outcome}
use gokalshi.Ws.Send.{Window, send_update_sub}
use gokalshi.Ws.Incoming.{
  WsMessage, Json, is_data_type, note_seq, after_flush, flush_pending, adopt_sid, handle_subscribed,
  reconcile, handle_ok, handle_unsubscribed, handle_data_message, dispatch, handle_message,
  handle_incoming,
}
use gokalshi.Ws.Invariant.{IsValid, Keeps, set_cell-IsValid, send_update_sub-IsValid}

pub force-IsValid :
    (b : Bool) (c : WsClient) → IsValid c → IsValid (record c { force_reconnect = b })
force-IsValid b c v = record { named = v.named; allocated = v.allocated; fresh = v.fresh }

msg_ch-IsValid : (ms : List String) (c : WsClient) → IsValid c → IsValid (record c { msg_ch = ms })
msg_ch-IsValid ms c v = record { named = v.named; allocated = v.allocated; fresh = v.fresh }

delete_pending-IsValid :
    (id : ℕ) (c : WsClient)
    → IsValid c
    → IsValid (record c { pending_init = delete id c.pending_init })
delete_pending-IsValid id c v = record {
  named = v.named;
  allocated = v.allocated;
  fresh = λ j lt. ground (arith, lookup-delete id j c.pending_init, v.fresh j lt);
}

delete_sid-IsValid :
    (sid : ℕ) (c : WsClient) → IsValid c → IsValid (record c { sid_map = delete sid c.sid_map })
delete_sid-IsValid sid c v = record {
  named = v.named;
  allocated = λ s q e. ground (arith, lookup-delete sid s c.sid_map, v.allocated s q);
  fresh = v.fresh;
}

insert_sid-IsValid :
    (sid r : ℕ) (c : WsClient)
    → r < c.next_cell
    → IsValid c
    → IsValid (record c { sid_map = insert sid r c.sid_map })
insert_sid-IsValid sid r c lt v = record {
  named = v.named;
  allocated = λ s q e. ground (arith, lookup-insert sid s r c.sid_map, v.allocated s q);
  fresh = v.fresh;
}

note_seq-IsValid : (r seq : ℕ) (c : WsClient) → IsValid c → IsValid (note_seq r (c.cells r) seq c)
unfolding note_seq
note_seq-IsValid r seq c v = force-IsValid _ _ (set_cell-IsValid c r _ refl v)

after_flush-IsValid :
    (o : Outcome) (k : WsClient → Option WsClient)
    → IsValid o.0
    → ((c : WsClient) → IsValid c → Holds IsValid (k c))
    → Holds IsValid (after_flush o k)
unfolding after_flush
after_flush-IsValid (c, none) k v next = next c v
after_flush-IsValid (c, some e) k v next = force-IsValid true c v

flush_pending-IsValid :
    (fuel : ℕ) (ws : ℕ → Window) (r sid : ℕ) (c : WsClient)
    → ((i : ℕ) → Keeps IsValid (ws i))
    → IsValid c
    → Holds IsValid (flush_pending fuel ws r sid c)
unfolding flush_pending
flush_pending-IsValid zero ws r sid c k v = tt
flush_pending-IsValid (suc fuel) ws r sid c k v =
    let cleared : WsClient = record c {
      cells = set_cell r (record (c.cells r) { pending_markets = [] }) c.cells;
    } in
    let sent : Outcome =
      send_update_sub (ws 0) sid (c.cells r).pending_markets add_markets false cleared in
    let valid : IsValid sent.0 =
      send_update_sub-IsValid (ws 0) (k 0) cleared (set_cell-IsValid c r _ refl v) sid _ _ false in
    ground (
      arith,
      v,
      after_flush-IsValid sent (flush_pending fuel (λ i. ws (suc i)) r sid) valid
          (λ c' h. flush_pending-IsValid fuel (λ i. ws (suc i)) r sid c' (λ i. k (suc i)) h),
    )

handle_data_message-IsValid :
    (msg : WsMessage) (raw : String) (c : WsClient)
    → IsValid c
    → IsValid (handle_data_message msg raw c).0
unfolding handle_data_message
handle_data_message-IsValid msg raw c v = elim (Bool-cases (is_data_type msg.type)) [
  | inr unknown ↦ rw (unknown, handle_data_message) v
  | inl known ↦ elim (Option-cases (lookup msg.sid c.sid_map)) [
    | inl e ↦ rw (known, handle_data_message, e) v
    | inr (r, e) ↦ rw (known, handle_data_message, e) (note_seq-IsValid r msg.seq c v)
  ]
]

dispatch-IsValid :
    (taken : Bool) (o : WsClient × Option String) → IsValid o.0 → Holds IsValid (dispatch taken o)
unfolding dispatch
dispatch-IsValid taken (c, none) v = v
dispatch-IsValid taken (c, some raw) v = ground (arith, msg_ch-IsValid (c.msg_ch ++ raw ∷ []) c v)

module _ (json : Json) where
  name-reconcile : (body : String) (s : ChannelState) → (reconcile json body s).name ≡ s.name
  unfolding reconcile
  name-reconcile body s = ground arith

  handle_ok-IsValid : (msg : WsMessage) (c : WsClient) → IsValid c → IsValid (handle_ok json msg c)
  unfolding handle_ok
  handle_ok-IsValid msg c v = elim (Option-cases (lookup msg.sid c.sid_map)) [
    | inl e ↦ rw (e, handle_ok) v
    | inr (r, e) ↦
        rw (e, handle_ok)
          (set_cell-IsValid (note_seq r (c.cells r) msg.seq c) r _ (name-reconcile msg.msg _)
            (note_seq-IsValid r msg.seq c v))
  ]

  module _ (fuel : ℕ) (ws : ℕ → Window) (k : (i : ℕ) → Keeps IsValid (ws i)) where
    adopt_sid-IsValid :
        (r sid : ℕ) (c : WsClient)
        → r < c.next_cell
        → IsValid c
        → Holds IsValid (adopt_sid json fuel ws r sid c)
    unfolding adopt_sid
    adopt_sid-IsValid r sid c lt v =
        flush_pending-IsValid fuel ws r sid _ k
          (insert_sid-IsValid sid r _ lt (set_cell-IsValid c r _ refl v))

    handle_subscribed-IsValid :
        (msg : WsMessage) (c : WsClient)
        → IsValid c
        → Holds IsValid (handle_subscribed json fuel ws msg c)
    unfolding handle_subscribed
    handle_subscribed-IsValid msg c v = elim (Option-cases (lookup msg.id c.pending_init)) [
      | inl e ↦ rw (e, handle_subscribed) v
      | inr (name, e) ↦
          let v' = delete_pending-IsValid msg.id c v in
          elim (Option-cases (json.subscribed_body msg.msg)) [
            | inl e' ↦ rw (e, handle_subscribed, e') v'
            | inr (sid, e') ↦ elim (Option-cases (lookup name c.channels)) [
              | inl e'' ↦ rw (e, handle_subscribed, e', e'') v'
              | inr (r, e'') ↦
                  rw (e, handle_subscribed, e', e'')
                    (adopt_sid-IsValid r sid _ (v.named name r e'').0 v')
            ]
          ]
    ]

    handle_message-IsValid :
        (taken : Bool) (msg : WsMessage) (raw : String) (c : WsClient)
        → IsValid c
        → Holds IsValid (handle_message json fuel ws taken msg raw c)
    unfolding handle_message handle_unsubscribed
    handle_message-IsValid taken msg raw c v = ground (
      arith,
      handle_subscribed-IsValid msg c v,
      handle_ok-IsValid msg c v,
      delete_sid-IsValid msg.sid c v,
      v,
      dispatch-IsValid taken (handle_data_message msg raw c)
          (handle_data_message-IsValid msg raw c v),
    )

    -- Whatever text arrives, the handler leaves a valid client valid if it ends, as long as what
    -- other goroutines do while the lock is free keeps it so.
    pub handle_incoming-IsValid :
        (taken : Bool) (raw : String) (c : WsClient)
        → IsValid c
        → Holds IsValid (handle_incoming json fuel ws taken raw c)
    unfolding handle_incoming
    handle_incoming-IsValid taken raw c v = elim (Option-cases (json.message raw)) [
      | inl e ↦ rw (e, handle_incoming) v
      | inr (msg, e) ↦ rw (e, handle_incoming) (handle_message-IsValid taken msg raw c v)
    ]
