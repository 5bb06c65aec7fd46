-- ===== src/Client/Tests.antt =====
-- The HTTP client over whole numbers, against a server that says 429 once.
use gokalshi.Base.{
  ℕ, ◌*◌, ◌^◌, ◌≤◌, ◌≡◌, ◌≢◌, refl, pos, Option, none, some, [], ◌∷◌, ◌++◌, true, false,
  if◌then◌else◌, ltb, Text, codes, text_eqb, Map, All, length, arith,
}
use gokalshi.Float.{whole, whole-IsOrdered}
use gokalshi.RateLimit.{
  ReadWriteTokenBucket, granted, acquire, read_cap, write_cap, can_proceed, refill, consume,
  try_acquire_or_wait, acquire_from,
}
use gokalshi.Client.{
  Client, response, Exchange, ok, failed, unfinished, rate_limited, retry_wait, build_url,
  body_bytes, resolve_costs, Call, send_from, do_request, do_json, charge_by_table, after_acquire,
  send_bytes, requested, build_auth_request, signed_request,
}
use gokalshi.Client.Costs.{times, IsOneSided, resolve_costs-units, resolve_costs-IsOneSided}
use gokalshi.Client.Limits.{retry_wait-exact}
use gokalshi.Client.Retry.{IsFor}
use gokalshi.Client.Patience.{IsLimited, waits_from, send_from-recovers, send_from-gives_up}
use gokalshi.Client.Requests.{costs, do_request-granted, do_request-ends}
use gokalshi.Client.Configure.{AccountLimits, EndpointCosts, Fetch, get_call, configure_rate_limits}
use gokalshi.Client.Setup.{costs_reply, IsAllOrNothing, configure_rate_limits-IsAllOrNothing}

abbrev bucket : ReadWriteTokenBucket ℕ
bucket = record {
  cfg = record {
    read_rate = 20;
    write_rate = 20;
    read_capacity = 20;
    write_capacity = 20;
    window_size = 1;
    safety_padding = 1;
  };
  read_tokens = 20;
  write_tokens = 20;
  last_refill = 5;
}

-- One retry, after 100 ms.
abbrev client : Client ℕ
client = record {
  base_url = codes "h";
  max_retries = pos 1;
  base_delay = pos 100_000_000;
  limiter = bucket;
  cost_routes = none;
  default_cost = 0;
}

abbrev exchange : ℕ → Exchange
exchange status = record {
  new_request = true;
  request_headers = some [];
  reply = response (codes "x") status;
  timer_first = true;
}

abbrev no_error : Text → Option (Text × Text)
no_error text = none

abbrev encode : Map Text Text → Text
encode q = []

abbrev marshal : Text → Option Text
marshal = some

abbrev call : Call ℕ Text
call = record {
  call_method = codes "GET";
  path = codes "/p";
  read_cost = 10;
  write_cost = 0;
  units = pos 1;
  body = none;
  params = [];
  attempts = record { cancelled = false; others = λ b. b; now = 5; woken = true } ∷ [];
  exchanges = exchange 429 ∷ exchange 200 ∷ [];
}

exchange-IsLimited : IsLimited (exchange 429)
exchange-IsLimited = record {
  text = codes "x";
  answered = record { headers = []; made = refl; signed = refl; replied = refl };
  woken = refl;
}

resolve_costs-units_test :
    resolve_costs whole client (codes "GET") (codes "/p") 10 0 (pos 3)
    ≡ times whole whole-IsOrdered
        (resolve_costs whole client (codes "GET") (codes "/p") 10 0 (pos 1))
        (pos 3)
resolve_costs-units_test =
    resolve_costs-units whole whole-IsOrdered client (codes "GET") (codes "/p") 10 0 (pos 3)

resolve_costs-IsOneSided_example :
    IsOneSided whole whole-IsOrdered
      (codes "GET")
      (resolve_costs whole client (codes "GET") (codes "/p") 10 0 (pos 3))
unfolding text_eqb
resolve_costs-IsOneSided_example =
    resolve_costs-IsOneSided whole whole-IsOrdered client (codes "GET") (codes "/p") 10 0 (pos 3)
      refl

retry_wait-exact_example :
    retry_wait (pos 100_000_000) 40 ≡ pos (100_000_000 * 2 ^ (if ltb 30 40 then 30 else 40))
retry_wait-exact_example = retry_wait-exact 100_000_000 40 (omega arith)

send_from-recovers_example :
    ((send_from no_error no_error client
        (codes "GET")
        (codes "/p")
        (codes "h/p")
        none
        0
        ((exchange 429 ∷ []) ++ exchange 200 ∷ [])).answer
      ≡ ok (codes "x"))
    × ((send_from no_error no_error client
          (codes "GET")
          (codes "/p")
          (codes "h/p")
          none
          0
          ((exchange 429 ∷ []) ++ exchange 200 ∷ [])).waits
        ≡ waits_from (pos 100_000_000) 0 (exchange 429 ∷ []))
    × (length
          (send_from no_error no_error client
            (codes "GET")
            (codes "/p")
            (codes "h/p")
            none
            0
            ((exchange 429 ∷ []) ++ exchange 200 ∷ [])).sent
        ≡ 2)
send_from-recovers_example =
    send_from-recovers no_error no_error client (codes "GET") (codes "/p") (codes "h/p") none
      (exchange 429 ∷ []) [] (exchange 200) (codes "x") 200 (exchange-IsLimited, tt) (omega arith)
      (record { headers = []; made = refl; signed = refl; replied = refl }) (omega arith)

send_from-gives_up_test :
    (send_from no_error no_error client
      (codes "GET")
      (codes "/p")
      (codes "h/p")
      none
      0
      ((exchange 429 ∷ []) ++ exchange 429 ∷ [])).answer
    ≡ failed (rate_limited (codes "GET") (codes "/p") 1)
send_from-gives_up_test =
    send_from-gives_up no_error no_error client (codes "GET") (codes "/p") (codes "h/p") none
      (exchange 429 ∷ []) [] (exchange 429) (exchange-IsLimited, tt) refl exchange-IsLimited

-- The bucket after the request.
abbrev paid : ReadWriteTokenBucket ℕ
paid = record bucket { read_tokens = 10 }

granted_once : acquire whole call.attempts 10 0 bucket ≡ granted paid
unfolding acquire acquire_from try_acquire_or_wait can_proceed refill consume read_cap write_cap
granted_once = refl

call_costs : resolve_costs whole client (codes "GET") (codes "/p") 10 0 (pos 1) ≡ (10, 0)
unfolding resolve_costs charge_by_table
call_costs = refl

do_request-ends_example :
    let t = (do_request whole no_error no_error encode marshal client call).1 in
    (t.answer ≢ unfinished)
    × (length t.sent ≤ 2)
    × (length t.waits ≤ 1)
    × All (IsFor (codes "GET") (build_url encode (codes "h") (codes "/p") []) none) t.sent
unfolding body_bytes resolve_costs charge_by_table
do_request-ends_example =
    do_request-ends whole no_error no_error encode marshal client call none paid refl granted_once
      (omega arith)

call_sends : (do_request whole no_error no_error encode marshal client call).1.sent ≢ []
unfolding do_request after_acquire send_bytes body_bytes send_from requested build_auth_request
    signed_request acquire acquire_from try_acquire_or_wait can_proceed refill consume read_cap
    write_cap resolve_costs charge_by_table
call_sends = λ e. cc

do_request-granted_example :
    (b : ReadWriteTokenBucket ℕ) × (acquire whole call.attempts
        (costs whole no_error no_error encode marshal client call).0
        (costs whole no_error no_error encode marshal client call).1
        bucket
      ≡ granted b)
    × ((do_request whole no_error no_error encode marshal client call).0
        ≡ record client { limiter = b })
do_request-granted_example =
    do_request-granted whole no_error no_error encode marshal client call call_sends

abbrev fetch : Fetch ℕ
fetch = record { fetch_attempts = call.attempts; fetch_exchanges = exchange 200 ∷ [] }

abbrev decode_limits : Text → Option (AccountLimits ℕ)
decode_limits text = some (record {
  read_refill_rate = 30;
  read_bucket_capacity = 60;
  write_refill_rate = 20;
  write_bucket_capacity = 40;
})

abbrev decode_costs : Text → Option (EndpointCosts ℕ)
decode_costs text = some (record {
  endpoint_costs =
      record {
        endpoint_method = codes "POST";
        endpoint_path = codes "/portfolio/orders";
        token_cost = 2;
      }
      ∷ [];
  endpoint_default_cost = 10;
})

configure_rate_limits-IsAllOrNothing_example :
    IsAllOrNothing whole whole-IsOrdered no_error no_error encode marshal decode_limits decode_costs
      client
      (do_json whole no_error no_error encode marshal decode_limits client
        (get_call whole (codes "/trade-api/v2/account/limits") fetch)).1
      (costs_reply whole whole-IsOrdered no_error no_error encode marshal decode_limits decode_costs
        fetch
        (do_json whole no_error no_error encode marshal decode_limits client
          (get_call whole (codes "/trade-api/v2/account/limits") fetch)).0)
      6
      (configure_rate_limits whole no_error no_error encode marshal decode_limits decode_costs fetch
        fetch 6 client)
configure_rate_limits-IsAllOrNothing_example =
    configure_rate_limits-IsAllOrNothing whole whole-IsOrdered no_error no_error encode marshal
      decode_limits decode_costs fetch fetch 6 client
