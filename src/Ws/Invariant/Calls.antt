-- ===== src/Ws/Invariant/Calls.antt =====
-- The invariant across the five calls of the user of ws_client.go.
use gokalshi.Base.{
  ℕ, suc, String, ◌≡◌, refl, Bool, true, false, Option, none, some, List, [], ◌∷◌, lookup, delete,
  if◌then◌else◌, nat_eq, string_eq, lookup-delete, arith, inl, inr, Bool-cases, Option-cases,
}
use gokalshi.Ws.State.{
  WsClient, new_channel_state, add_markets, delete_markets, apply_opts, Outcome, SubscribeOpts,
}
use gokalshi.Ws.Send.{pending_init_for_channel, Window}
use gokalshi.Ws.Api.{
  and_then, on_error, for_channels, slice, drop_channel, subscribe_channel, subscribe,
  unsubscribe_channel, unsubscribe, add_to_markets, queue_markets, find_or_create, add_tickers,
  add_markets_channel, add_markets_to, remove_from_markets, remove_markets_channel, remove_markets,
  get_snapshot_channel, get_snapshot, with_tickers,
}
use gokalshi.Ws.Invariant.{
  IsValid, Keeps, set_cell-IsValid, new_channel-IsValid, drop_channel-IsValid,
  send_subscribe-IsValid, send_unsubscribe-IsValid, send_update_sub-IsValid,
}

module _ (P : WsClient → Type 0) where
  pub and_then-Keeps :
      (o : Outcome) (k : WsClient → Outcome)
      → P o.0
      → ((c : WsClient) → P c → P (k c).0)
      → P (and_then o k).0
  unfolding and_then
  and_then-Keeps (c, none) k h next = next c h
  and_then-Keeps (c, some e) k h next = h

  on_error-Keeps :
      (o : Outcome) (k : WsClient → WsClient)
      → P o.0
      → ((c : WsClient) → P c → P (k c))
      → P (on_error o k).0
  unfolding on_error
  on_error-Keeps (c, none) k h undo = h
  on_error-Keeps (c, some e) k h undo = undo c h

  -- What the body keeps, the loop over the channels keeps.
  for_channels-Keeps :
      (body : Window → String → WsClient → Outcome)
      → ((w : Window) (ch : String) (c : WsClient) → Keeps P w → P c → P (body w ch c).0)
      → (ws : ℕ → Window) (chs : List String) (c : WsClient) → ((i : ℕ) → Keeps P (ws i))
      → P c
      → P (for_channels body ws chs c).0
  unfolding for_channels
  for_channels-Keeps body step ws [] c k h = h
  for_channels-Keeps body step ws (ch ∷ chs) c k h =
      and_then-Keeps (body (ws 0) ch c) _ (step (ws 0) ch c (k 0) h)
        (λ c' h'. for_channels-Keeps body step (λ i. ws (suc i)) chs c' (λ i. k (suc i)) h')

name_fresh : (ch : String) → (new_channel_state ch).name ≡ ch
unfolding new_channel_state
name_fresh ch = refl

forget-IsValid :
    (ch : String) (sid : ℕ) (c : WsClient)
    → IsValid c
    → IsValid (record c { sid_map = delete sid c.sid_map; channels = delete ch c.channels })
forget-IsValid ch sid c v = record {
  named = λ ch' q e. ground (arith, lookup-delete ch ch' c.channels, v.named ch' q);
  allocated = λ s q e. ground (arith, lookup-delete sid s c.sid_map, v.allocated s q);
  fresh = v.fresh;
}

if-IsValid : (b : Bool) (c d : WsClient) → IsValid c → IsValid d → IsValid (if b then c else d)
if-IsValid true c d v w = v
if-IsValid false c d v w = w

module _ (r : ℕ) (tickers : List String) (c : WsClient) (v : IsValid c) where
  add_to_markets-IsValid : IsValid (add_to_markets r tickers c)
  unfolding add_to_markets
  add_to_markets-IsValid = set_cell-IsValid c r _ refl v

  queue_markets-IsValid : IsValid (queue_markets r tickers c)
  unfolding queue_markets
  queue_markets-IsValid = set_cell-IsValid c r _ refl v

  remove_from_markets-IsValid : IsValid (remove_from_markets r tickers c)
  unfolding remove_from_markets
  remove_from_markets-IsValid = set_cell-IsValid c r _ refl v

module _ (w : Window) (ch : String) (c : WsClient) (k : Keeps IsValid w) (v : IsValid c) where
  subscribe_channel-IsValid :
      (tickers : Option (List String)) (snapshot : Bool)
      → IsValid (subscribe_channel tickers snapshot w ch c).0
  unfolding subscribe_channel
  subscribe_channel-IsValid tickers snapshot = elim (Option-cases (lookup ch c.channels)) [
    | inr (r, e) ↦ rw (e, subscribe_channel) v
    | inl e ↦
        rw (e, subscribe_channel)
          (on_error-Keeps IsValid _ (drop_channel ch)
            (send_subscribe-IsValid w k _ (new_channel-IsValid ch _ c (name_fresh ch) v) ch
              (slice tickers) snapshot)
            (drop_channel-IsValid ch))
  ]

  unsubscribe_channel-IsValid : IsValid (unsubscribe_channel w ch c).0
  unfolding unsubscribe_channel
  unsubscribe_channel-IsValid = elim (Option-cases (lookup ch c.channels)) [
    | inl e ↦ rw (e, unsubscribe_channel) v
    | inr (r, e) ↦ elim (Option-cases (c.cells r).sid) [
      | inl e' ↦ rw (e, unsubscribe_channel, e') (drop_channel-IsValid ch c v)
      | inr (sid, e') ↦
          rw (e, unsubscribe_channel, e')
            (and_then-Keeps IsValid _ _ (send_unsubscribe-IsValid w k c v sid)
              (λ c' h. forget-IsValid ch sid c' h))
    ]
  ]

  get_snapshot_channel-IsValid :
      (tickers : List String) → IsValid (get_snapshot_channel tickers w ch c).0
  unfolding get_snapshot_channel
  get_snapshot_channel-IsValid tickers = elim (Option-cases (lookup ch c.channels)) [
    | inl e ↦ rw (e, get_snapshot_channel) v
    | inr (r, e) ↦ elim (Option-cases (c.cells r).sid) [
      | inl e' ↦ rw (e, get_snapshot_channel, e') v
      | inr (sid, e') ↦
          rw (e, get_snapshot_channel, e') (send_update_sub-IsValid w k c v sid tickers _ false)
    ]
  ]

  remove_markets_channel-IsValid :
      (tickers : List String) → IsValid (remove_markets_channel tickers w ch c).0
  unfolding remove_markets_channel
  remove_markets_channel-IsValid tickers = elim (Option-cases (lookup ch c.channels)) [
    | inl e ↦ rw (e, remove_markets_channel) v
    | inr (r, e) ↦ elim (Option-cases (c.cells r).sid) [
      | inl e' ↦ rw (e, remove_markets_channel, e') v
      | inr (sid, e') ↦
          rw (e, remove_markets_channel, e')
            (and_then-Keeps IsValid _ _
              (send_update_sub-IsValid w k _ (set_cell-IsValid c r _ refl v) sid tickers
                delete_markets false)
              (λ c' h. remove_from_markets-IsValid r tickers c' h))
    ]
  ]

  find_or_create-IsValid : IsValid (find_or_create ch c).0
  unfolding find_or_create
  find_or_create-IsValid = elim (Option-cases (lookup ch c.channels)) [
    | inl e ↦ rw (e, find_or_create) (new_channel-IsValid ch _ c (name_fresh ch) v)
    | inr (r, e) ↦ rw (e, find_or_create) (set_cell-IsValid c r _ refl v)
  ]

  add_tickers-IsValid :
      (snapshot : Bool) (new_tickers : List String) (r : ℕ) (existed : Bool)
      → IsValid (add_tickers snapshot w ch new_tickers (c, r, existed)).0
  unfolding add_tickers
  add_tickers-IsValid snapshot [] r existed = v
  add_tickers-IsValid snapshot (t ∷ ts) r existed = elim (Option-cases (c.cells r).sid) [
    | inr (sid, e) ↦
        rw (e, add_tickers)
          (and_then-Keeps IsValid _ _
            (send_update_sub-IsValid w k c v sid (t ∷ ts) add_markets snapshot)
            (λ c' h. add_to_markets-IsValid r (t ∷ ts) c' h))
    | inl e ↦ elim (Bool-cases (pending_init_for_channel ch c.pending_init)) [
      | inl p ↦ rw (e, add_tickers, p) (queue_markets-IsValid r (t ∷ ts) c v)
      | inr p ↦
          rw (e, add_tickers, p)
            (and_then-Keeps IsValid _ _
              (on_error-Keeps IsValid _ _ (send_subscribe-IsValid w k c v ch (t ∷ ts) snapshot)
                (λ c' h.
                  if-IsValid existed c' (drop_channel ch c') h (drop_channel-IsValid ch c' h)))
              (λ c' h. add_to_markets-IsValid r (t ∷ ts) c' h))
    ]
  ]

add_markets_channel-IsValid :
    (w : Window) (ch : String) (c : WsClient) (tickers : List String) (snapshot : Bool)
    → Keeps IsValid w
    → IsValid c
    → IsValid (add_markets_channel tickers snapshot w ch c).0
unfolding add_markets_channel
add_markets_channel-IsValid w ch c tickers snapshot k v =
    add_tickers-IsValid w ch _ k (find_or_create-IsValid w ch c k v) snapshot _ _ _

-- A call of the user, with the windows of its sends.
pub data Call : Type 0 where
  subscribes : List String → Option (List String) → List (SubscribeOpts → SubscribeOpts) → Call
  unsubscribes : List String → Call
  adds_markets : List String → List String → List (SubscribeOpts → SubscribeOpts) → Call
  removes_markets : List String → List String → Call
  gets_snapshot : List String → List String → Call

unfoldable pub perform : (ℕ → Window) → Call → WsClient → Outcome
perform ws (subscribes channels tickers opts) = subscribe ws channels tickers opts
perform ws (unsubscribes channels) = unsubscribe ws channels
perform ws (adds_markets tickers channels opts) = add_markets_to ws tickers channels opts
perform ws (removes_markets tickers channels) = remove_markets ws tickers channels
perform ws (gets_snapshot tickers channels) = get_snapshot ws tickers channels

module _ (ws : ℕ → Window) (k : (i : ℕ) → Keeps IsValid (ws i)) (c : WsClient) (v : IsValid c) where
  loop-IsValid :
      (body : Window → String → WsClient → Outcome)
      → ((w : Window) (ch : String) (c : WsClient)
          → Keeps IsValid w
          → IsValid c
          → IsValid (body w ch c).0)
      → (chs : List String) → IsValid (for_channels body ws chs c).0
  loop-IsValid body step chs = for_channels-Keeps IsValid body step ws chs c k v

  -- Every call of the user (Subscribe, Unsubscribe, AddMarkets, RemoveMarkets, GetSnapshot), with
  -- any arguments, refused ones included, leaves a valid client, if the client was valid and what
  -- other goroutines do while the lock is free keeps it so.
  pub perform-IsValid : (call : Call) → IsValid (perform ws call c).0
  unfolding perform subscribe unsubscribe add_markets_to remove_markets get_snapshot with_tickers
  perform-IsValid (subscribes channels tickers opts) = ground (
    arith,
    loop-IsValid (subscribe_channel tickers (apply_opts opts).send_initial_snapshot)
        (λ w ch c' kw h. subscribe_channel-IsValid w ch c' kw h tickers _) channels,
  )
  perform-IsValid (unsubscribes channels) =
      ground (arith, loop-IsValid unsubscribe_channel unsubscribe_channel-IsValid channels)
  perform-IsValid (adds_markets tickers channels opts) = ground (
    arith,
    loop-IsValid (add_markets_channel tickers (apply_opts opts).send_initial_snapshot)
        (λ w ch c' kw h. add_markets_channel-IsValid w ch c' tickers _ kw h) channels,
  )
  perform-IsValid (removes_markets tickers channels) = ground (
    arith,
    loop-IsValid (remove_markets_channel tickers)
        (λ w ch c' kw h. remove_markets_channel-IsValid w ch c' kw h tickers) channels,
  )
  perform-IsValid (gets_snapshot tickers channels) = ground (
    arith,
    loop-IsValid (get_snapshot_channel tickers)
        (λ w ch c' kw h. get_snapshot_channel-IsValid w ch c' kw h tickers) channels,
  )
