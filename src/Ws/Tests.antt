-- ===== src/Ws/Tests.antt =====
-- Runs of the WebSocket client at concrete inputs, on a client that has subscribed to one channel.
mod Calls
use gokalshi.Base.{
  ℕ, pos, zero, suc, ◌≡◌, ◌≢◌, refl, String, Bool, true, false, Option, none, some, List, [], ◌∷◌,
  ◌++◌, if◌then◌else◌, arith, ◌==◌, nat_eq, string_eq, lookup, nat_eqb, nat_eqb_iff, ◌<◌, ◌≤◌, ◌⊎◌,
  inl, inr, Holds, contains, All, map, delete, insert,
}
use gokalshi.Ws.State.{
  ChannelState, WsClient, Conn, Params, WsCommand, SubscribeOpts, with_initial_snapshot, apply_opts,
}
use gokalshi.Ws.Send.{Window, send_subscribe, write_json}
use gokalshi.Ws.Incoming.{
  WsMessage, Json, is_data_type, is_gap, handle_data_message, handle_incoming, handle_subscribed,
}
use gokalshi.Ws.Loop.{
  connect, close, Arrival, ReadEnd, read_error, gap_detected, not_handled, read_from, Callbacks,
  Round, TurnEnd, returned, again, next_turn, after_read, listen_turn, listen_loop,
}
use gokalshi.Ws.Invariant.{IsValid, Keeps}
use gokalshi.Ws.Invariant.Calls.{Call, subscribes, perform, perform-IsValid}
use gokalshi.Ws.Invariant.Handlers.{handle_incoming-IsValid}
use gokalshi.Ws.Invariant.Loop.{RoundKeeps, EndsValid, listen_loop-EndsValid}
use gokalshi.Ws.Delivery.{
  AllData, arrivals_of, numbered, until_gap, handle_data_message-delivers, read_from-until_gap,
}
use gokalshi.Ws.Deaf.{
  IsDeaf, DialsAtTop, FailsToRedial, read_from-deaf, failed_redial-deaf, closed_client-dials,
}
use gokalshi.Ws.Recovery.{quiet}

abbrev trade : ChannelState
trade = record {
  name = "trade";
  markets = "A" ∷ "B" ∷ [];
  pending_markets = "C" ∷ [];
  sid = some 7;
  seq = 4;
  global = false;
}

-- The request 3 to subscribe to "trade" is still noted, and so is the id 7.
abbrev client : WsClient
client = record {
  conn = some (record { handle = 1; read_limit = none });
  msg_ch = "m4" ∷ [];
  msg_id = 3;
  channels = ("trade", 0) ∷ [];
  sid_map = (7, 0) ∷ [];
  pending_init = (3, "trade") ∷ [];
  cells = λ _. trade;
  next_cell = 1;
  read_limit = 0;
  min_backoff = pos 1;
  max_backoff = pos 32;
  closed = false;
  force_reconnect = false;
  wire = [];
}

client-IsValid : IsValid client
unfolding lookup
client-IsValid = record {
  named = λ ch r e. ground (arith, string_eq.same_iff "trade" ch);
  allocated = λ sid r e. ground arith;
  fresh = λ id h. ground arith;
}

quiet-Keeps : (P : WsClient → Type 0) (accepted : Bool) → Keeps P (quiet accepted)
quiet-Keeps P accepted = record { before = λ c h. h; between = λ c h. h; after = λ c h. h }

abbrev data_message : ℕ → WsMessage
data_message seq = record { type = "trade"; id = 0; sid = 7; seq = seq; msg = "{}" }

abbrev subscribed_message : WsMessage
subscribed_message = record { type = "subscribed"; id = 3; sid = 0; seq = 0; msg = "sid 9" }

abbrev json : Json
json = record {
  message = λ text.
      if text == "m5"
      then some (data_message 5)
      else if text == "m7"
      then some (data_message 7)
      else if text == "sub"
      then some subscribed_message
      else none;
  subscribed_body = λ text. if text == "sid 9" then some 9 else none;
  ok_body = λ text. none;
}

abbrev arrival : String → Arrival
arrival text = record {
  text = text;
  fuel = 2;
  windows = λ _. quiet true;
  taken = true;
  meanwhile = λ c. c;
}

abbrev callbacks : Callbacks
callbacks = record { on_disconnect = λ c. c; on_reconnect = λ c. c }

-- A turn that reads one message and loses the connection.
abbrev turn : Option ℕ → Option ℕ → Bool → Round
turn first second stopped = record {
  cancelled = false;
  at_top = λ c. c;
  first_dial = first;
  first_wait = true;
  before_read = λ c. c;
  arrivals = arrival "m5" ∷ [];
  at_end = λ c. c;
  stopped = stopped;
  second_wait = true;
  waiting = λ c. c;
  second_dial = second;
  recovery = λ _. quiet true;
  order = λ _. 0 ∷ [];
}

turn-RoundKeeps :
    (first second : Option ℕ) (stopped : Bool) → RoundKeeps (turn first second stopped)
turn-RoundKeeps first second stopped = record {
  at_top = λ c v. v;
  before_read = λ c v. v;
  arrivals = ((λ i. quiet-Keeps IsValid true, λ c v. v), tt);
  at_end = λ c v. v;
  waiting = λ c v. v;
  recovery = λ i. quiet-Keeps IsValid true;
}

-- A gap is told from the next message.
is_gap_tests : (is_gap 4 5 ≡ false) × (is_gap 4 7 ≡ true) × (is_gap 0 7 ≡ false)
unfolding is_gap
is_gap_tests = (refl, refl, refl)

perform-IsValid_example :
    IsValid (perform (λ _. quiet true) (subscribes ("fill" ∷ []) none []) client).0
perform-IsValid_example =
    perform-IsValid (λ _. quiet true) (λ i. quiet-Keeps IsValid true) client client-IsValid
      (subscribes ("fill" ∷ []) none [])

handle_incoming-IsValid_test :
    Holds IsValid (handle_incoming json 2 (λ _. quiet true) true "sub" client)
handle_incoming-IsValid_test =
    handle_incoming-IsValid json 2 (λ _. quiet true) (λ i. quiet-Keeps IsValid true) true "sub"
      client client-IsValid

listen_loop-EndsValid_example :
    EndsValid (listen_loop json callbacks (turn none (some 2) false ∷ []) client)
listen_loop-EndsValid_example =
    listen_loop-EndsValid json callbacks (λ c v. v) (λ c v. v) (turn none (some 2) false ∷ [])
      client (turn-RoundKeeps none (some 2) false, tt) client-IsValid

handle_data_message-delivers_test :
    ((is_data_type "trade" ≡ true)
      × (lookup 7 client.sid_map ≢ none)
      × ((handle_data_message (data_message 5) "m5" client).1 ≡ some "m5"))
    ⊎ (((is_data_type "trade" ≡ false) ⊎ (lookup 7 client.sid_map ≡ none))
        × (handle_data_message (data_message 5) "m5" client ≡ (client, none)))
handle_data_message-delivers_test = handle_data_message-delivers (data_message 5) "m5" client

-- Message 5, then 7: both are delivered, and the gap is seen.
abbrev run : List (Arrival × WsMessage)
run = (arrival "m5", data_message 5) ∷ (arrival "m7", data_message 7) ∷ []

run-AllData : AllData json 7 run
unfolding is_data_type
run-AllData = (
  record { decoded = refl; known = refl; taken = refl; of_sid = refl; alone = λ c. refl },
  (record { decoded = refl; known = refl; taken = refl; of_sid = refl; alone = λ c. refl }, tt),
)

read_from-until_gap_example :
    let (c', end) = read_from json (arrivals_of run) client in
    let (texts, gap) = until_gap 4 (numbered run) in
    (c'.msg_ch ≡ client.msg_ch ++ texts)
    × (end ≡ (if gap then gap_detected else read_error))
    × (c'.force_reconnect ≡ false)
unfolding lookup
read_from-until_gap_example = read_from-until_gap json 7 0 run client run-AllData refl refl

-- The client after its connection was lost.
abbrev lost : WsClient
lost = record client { conn = none; sid_map = []; pending_init = [] }

lost-IsDeaf : IsDeaf lost
lost-IsDeaf = record { no_sids = refl; no_pending = refl }

turn-DialsAtTop : DialsAtTop (turn (some 3) none true) 3
turn-DialsAtTop = record {
  goes_on = refl;
  alone_at_top = λ c. refl;
  dials = refl;
  alone_before = λ c. refl;
  alone = (λ c. refl, tt);
  alone_at_end = λ c. refl;
  stops = refl;
}

failed_redial-deaf_example :
    (c' : WsClient) × (next_turn
        (after_read json callbacks (turn none none false) (pos 1) client)
        (λ d backoff. listen_turn json callbacks (turn (some 3) none true) backoff d)
      ≡ returned c')
    × (c'.msg_ch ≡ client.msg_ch)
    × (c'.wire ≡ client.wire)
    × (c'.channels ≡ client.channels)
    × (c'.conn ≢ none)
failed_redial-deaf_example =
    failed_redial-deaf json (λ c. c) (turn none none false) (turn (some 3) none true) 3 (pos 1)
      client (record { goes_on = refl; waits = refl; alone = λ c. refl; fails = refl }) refl
      turn-DialsAtTop

closed_client-dials_example :
    (c' : WsClient) × (listen_turn json callbacks (turn (some 3) none true) (pos 1) (close lost).0
      ≡ returned c')
    × (c'.closed ≡ true)
    × (c'.conn ≡ some (record { handle = 3; read_limit = none }))
    × (c'.conn ≢ none)
unfolding connect close
closed_client-dials_example =
    closed_client-dials json callbacks (turn (some 3) none true) 3 (pos 1) lost turn-DialsAtTop
      lost-IsDeaf
