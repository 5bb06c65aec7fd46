-- ===== src/Ws/Send.antt =====
-- `sendSubscribe`, `sendUnsubscribe`, `sendUpdateSub` and `writeJSON` of ws_client.go, and the two
-- helpers over `pendingInit`.
--
-- The calls give up the lock while they send. A `Window` says what happens in one such gap: what
-- other goroutines do to the client before the command has its id, between that and the write, and
-- during the write, until the caller has the lock again; and whether `conn.Write` succeeds.
use gokalshi.Base.{
  ℕ, String, ◌+◌, Bool, false, ◌||◌, none, some, List, [], ◌∷◌, ◌++◌, Map, insert, if◌then◌else◌,
  ◌==◌, nat_eq, string_eq,
}
use gokalshi.Ws.State.{
  WsClient, WsCommand, subscribe_params, unsubscribe_params, update_params, WsUpdateAction,
  not_connected, write_failed, Outcome,
}

pub record Window : Type 0 where
  pub before : WsClient → WsClient
  pub between : WsClient → WsClient
  pub after : WsClient → WsClient
  pub accepted : Bool

-- `pendingInitForChannel`, as far as its callers use it: whether an entry names the channel.
unfoldable pub pending_init_for_channel : String → Map ℕ String → Bool
pending_init_for_channel ch [] = false
pending_init_for_channel ch ((id, name) ∷ m) = name == ch || pending_init_for_channel ch m

-- One entry for the channel goes, the others stay.
unfoldable pub delete_pending_init_for_channel : String → Map ℕ String → Map ℕ String
delete_pending_init_for_channel ch [] = []
delete_pending_init_for_channel ch ((id, name) ∷ m) =
    if name == ch then m else (id, name) ∷ delete_pending_init_for_channel ch m

unfoldable pub write_json : Window → WsCommand → WsClient → Outcome
write_json w cmd c =
    let c' = w.between c in
    elim c'.conn [
      | none ↦ (w.after c', some not_connected)
      | some conn ↦
          if w.accepted
          then (w.after (record c' { wire = c'.wire ++ cmd ∷ [] }), none)
          else (w.after c', some write_failed)
    ]

unfoldable pub send_subscribe : Window → String → List String → Bool → WsClient → Outcome
send_subscribe w channel_name tickers send_snapshot c0 =
    let c = w.before c0 in
    let id = c.msg_id + 1 in
    write_json w
      (record { id = id; params = subscribe_params (channel_name ∷ []) tickers send_snapshot })
      (record c { msg_id = id; pending_init = insert id channel_name c.pending_init })

unfoldable pub send_unsubscribe : Window → ℕ → WsClient → Outcome
send_unsubscribe w sid c0 =
    let c = w.before c0 in
    let id = c.msg_id + 1 in
    write_json w (record { id = id; params = unsubscribe_params (sid ∷ []) })
      (record c { msg_id = id })

unfoldable pub send_update_sub :
    Window → ℕ → List String → WsUpdateAction → Bool → WsClient → Outcome
send_update_sub w sid tickers action send_snapshot c0 =
    let c = w.before c0 in
    let id = c.msg_id + 1 in
    write_json w
      (record { id = id; params = update_params (sid ∷ []) tickers action send_snapshot })
      (record c { msg_id = id })
