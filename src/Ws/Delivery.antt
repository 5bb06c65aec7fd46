-- ===== src/Ws/Delivery.antt =====
-- Which messages reach the user, and when the reading loop asks for a new connection.
use gokalshi.Base.{
  ℕ, ◌+◌, String, ◌≡◌, ◌≢◌, refl, sym, ap, ◌∙◌, Bool, true, false, none, some, List, [], ◌∷◌, ◌++◌,
  lookup, if◌then◌else◌, nat_eq, string_eq, nat_eqb_iff, arith, inl, inr, Bool-cases, Option-cases,
  ◌⊎◌, not, ◌==◌, ◌||◌, not,
}
use mathlib.Core.List.{append_assoc, append-nil}
use gokalshi.Ws.State.{WsClient, ChannelState, set_cell}
use gokalshi.Ws.Send.{Window}
use gokalshi.Ws.Incoming.{
  WsMessage, Json, is_data_type, is_gap, note_seq, handle_data_message, dispatch, handle_message,
  handle_incoming,
}
use gokalshi.Ws.Loop.{Arrival, read_error, gap_detected, read_from}

-- A message is delivered if its type is a known data type and its subscription id is registered. If
-- one of the two fails, nothing is delivered and the client is as it was.
pub handle_data_message-delivers :
    (msg : WsMessage) (raw : String) (c : WsClient)
    → ((is_data_type msg.type ≡ true)
        × (lookup msg.sid c.sid_map ≢ none)
        × ((handle_data_message msg raw c).1 ≡ some raw))
      ⊎ (((is_data_type msg.type ≡ false) ⊎ (lookup msg.sid c.sid_map ≡ none))
          × (handle_data_message msg raw c ≡ (c, none)))
unfolding handle_data_message
handle_data_message-delivers msg raw c = elim (Bool-cases (is_data_type msg.type)) [
  | inr unknown ↦ inr (inl unknown, rw unknown refl)
  | inl known ↦ elim (Option-cases (lookup msg.sid c.sid_map)) [
    | inl missed ↦ inr (inr missed, rw (known, handle_data_message, missed) refl)
    | inr (r, found) ↦ inl (known, rw found (λ e. cc), rw (known, handle_data_message, found) refl)
  ]
]

-- The two lists that the types of a message's dispatch are told apart by do not overlap.
known-ne :
    (type other : String)
    → is_data_type other ≡ false
    → is_data_type type ≡ true
    → (type == other) ≡ false
unfolding is_data_type
known-ne type other h k = elim (Bool-cases (type == other)) [
  | inr e ↦ e
  | inl e ↦ let same = (string_eq.same_iff type other).0 e in cc
]

handle_message_known :
    (json : Json) (fuel : ℕ) (ws : ℕ → Window) (taken : Bool) (msg : WsMessage) (raw : String)
    (c : WsClient)
    → is_data_type msg.type ≡ true
    → handle_message json fuel ws taken msg raw c ≡ dispatch taken (handle_data_message msg raw c)
unfolding handle_message is_data_type
handle_message_known json fuel ws taken msg raw c k = rw (
  known-ne msg.type "subscribed" refl k,
  known-ne msg.type "ok" refl k,
  known-ne msg.type "unsubscribed" refl k,
  known-ne msg.type "error" refl k,
)

-- An arrival that is a data message of the subscription and whose text is taken, while nothing else
-- happens.
pub record IsData (json : Json) (sid : ℕ) (a : Arrival) (msg : WsMessage) : Type 0 where
  pub decoded : json.message a.text ≡ some msg
  pub known : is_data_type msg.type ≡ true
  pub taken : a.taken ≡ true
  pub of_sid : msg.sid ≡ sid
  pub alone : (c : WsClient) → a.meanwhile c ≡ c

-- What a run of messages should do, by the sequence numbers alone: which texts are delivered, and
-- whether the run breaks off at a gap. The message that shows the gap is delivered.
unfoldable pub until_gap : ℕ → List (ℕ × String) → List String × Bool
until_gap last [] = ([], false)
until_gap last ((seq, text) ∷ rest) =
    let (texts, gap) = until_gap seq rest in
    if last == 0 || seq == last + 1 then (text ∷ texts, gap) else (text ∷ [], true)

is_gap-consecutive : (last seq : ℕ) → (last == 0 || seq == last + 1) ≡ not (is_gap last seq)
unfolding is_gap
is_gap-consecutive last seq = ground arith

abbrev pub AllData : Json → ℕ → List (Arrival × WsMessage) → Type 0
AllData json sid [] = Unit
AllData json sid ((a, msg) ∷ rest) = IsData json sid a msg × AllData json sid rest

abbrev pub arrivals_of : List (Arrival × WsMessage) → List Arrival
arrivals_of [] = []
arrivals_of ((a, msg) ∷ rest) = a ∷ arrivals_of rest

abbrev pub numbered : List (Arrival × WsMessage) → List (ℕ × String)
numbered [] = []
numbered ((a, msg) ∷ rest) = (msg.seq, a.text) ∷ numbered rest

handle_data_message_known :
    (msg : WsMessage) (raw : String) (r : ℕ) (c : WsClient)
    → is_data_type msg.type ≡ true
    → lookup msg.sid c.sid_map ≡ some r
    → handle_data_message msg raw c ≡ (note_seq r (c.cells r) msg.seq c, some raw)
unfolding handle_data_message
handle_data_message_known msg raw r c k e = rw (k, handle_data_message, e)

-- The client after a data message of the object `r`.
abbrev received : ℕ → ℕ → String → WsClient → WsClient
received r seq text c = record c {
  msg_ch = c.msg_ch ++ text ∷ [];
  force_reconnect = is_gap (c.cells r).seq seq || c.force_reconnect;
  cells = set_cell r (record (c.cells r) { seq = seq }) c.cells;
}

handle_incoming_decoded :
    (json : Json) (fuel : ℕ) (ws : ℕ → Window) (taken : Bool) (msg : WsMessage) (raw : String)
    (c : WsClient)
    → json.message raw ≡ some msg
    → handle_incoming json fuel ws taken raw c ≡ handle_message json fuel ws taken msg raw c
unfolding handle_incoming
handle_incoming_decoded json fuel ws taken msg raw c e = rw (e, handle_incoming)

handle_incoming_data :
    (json : Json) (sid r : ℕ) (a : Arrival) (msg : WsMessage) (c : WsClient)
    → IsData json sid a msg
    → lookup sid c.sid_map ≡ some r
    → handle_incoming json a.fuel a.windows a.taken a.text (a.meanwhile c)
      ≡ some (received r msg.seq a.text c)
unfolding dispatch note_seq
handle_incoming_data json sid r a msg c d e =
    let registered : lookup msg.sid c.sid_map ≡ some r = rw d.of_sid e in
    ap (handle_incoming json a.fuel a.windows a.taken a.text) (d.alone c)
    ∙ handle_incoming_decoded json a.fuel a.windows a.taken msg a.text c d.decoded
    ∙ handle_message_known json a.fuel a.windows a.taken msg a.text c d.known
    ∙ ap (dispatch a.taken) (handle_data_message_known msg a.text r c d.known registered)
    ∙ rw d.taken refl

seq-set_cell :
    (r seq : ℕ) (cells : ℕ → ChannelState)
    → (set_cell r (record (cells r) { seq = seq }) cells r).seq ≡ seq
unfolding set_cell
seq-set_cell r seq cells = ground (arith, nat_eqb_iff r r)

-- The reading loop over data messages of one registered subscription whose texts the receiver
-- takes, while nothing else changes the client and no reconnect is asked for, does what the
-- sequence numbers alone say (`until_gap`): it delivers the texts in order up to the first gap, the
-- text at the gap included; it ends with a gap exactly if there is one, and otherwise when the
-- connection fails; and no reconnect is left asked for.
pub read_from-until_gap :
    (json : Json) (sid r : ℕ) (run : List (Arrival × WsMessage)) (c : WsClient)
    → AllData json sid run
    → lookup sid c.sid_map ≡ some r
    → c.force_reconnect ≡ false
    → let (c', end) = read_from json (arrivals_of run) c in
      let (texts, gap) = until_gap (c.cells r).seq (numbered run) in
      (c'.msg_ch ≡ c.msg_ch ++ texts)
      × (end ≡ (if gap then gap_detected else read_error))
      × (c'.force_reconnect ≡ false)
unfolding read_from until_gap
read_from-until_gap json sid r [] c d e f = (sym (append-nil _), refl, f)
read_from-until_gap json sid r ((a, msg) ∷ run) c (d, ds) e f =
    let c' = received r msg.seq a.text c in
    let ih = read_from-until_gap json sid r run c' ds e in
    rw (handle_incoming_data json sid r a msg c d e, read_from)
      (elim (Bool-cases (is_gap (c.cells r).seq msg.seq)) [
        | inl gap ↦ ground (arith, is_gap-consecutive (c.cells r).seq msg.seq)
        | inr next ↦ ground (
          arith,
          ih (ground arith),
          is_gap-consecutive (c.cells r).seq msg.seq,
          seq-set_cell r msg.seq c.cells,
          append_assoc c.msg_ch (a.text ∷ []) (until_gap msg.seq (numbered run)).0,
        )
      ])
