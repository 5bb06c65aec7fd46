-- ===== src/Client.antt =====
-- client.go: the HTTP client, which resolves what a request costs, waits for the rate limiter, sends
-- the request, and retries it after a 429. `Client.Errors` has the errors, `Client.Configure` the
-- set-up from the account's limits. net/http, the signature, encoding/json and net/url are not
-- modelled: what they return is an argument, or part of an `Exchange`.
pub mod Errors
pub mod Configure
pub mod Costs
pub mod Retry
pub mod Patience
pub mod Requests
pub mod Setup
pub mod Create
pub mod Limits
mod Tests
use gokalshi.Base.{
  mul_int64, ℕ, zero, suc, ◌+◌, ◌*◌, ◌%◌, ◌-◌, ◌^◌, ◌≡◌, ℤ, pos, negsuc, ltb_ℤ, Bool, true, false,
  not, Option, none, some, List, [], ◌∷◌, ◌++◌, ◌⊎◌, inl, inr, if◌then◌else◌, ltb, leb, ◌==◌,
  nat_eq, is_empty, Text, codes, text_eq, Map, insert,
}
use gokalshi.Float.{Float}
use gokalshi.RateLimit.{
  ReadWriteTokenBucket, Attempt, Acquired, granted, over_capacity, cancelled, waiting, acquire,
}
use gokalshi.EndpointCost.{CostRoute, lookup_cost}
use gokalshi.Client.Errors.{ApiError, new_api_error}

-- The fields that the requests depend on. `cost_routes` is `none` for the nil slice.
pub record Client (F : Type 0) : Type 0 where
  pub base_url : Text
  pub max_retries : ℤ
  pub base_delay : ℤ
  pub limiter : ReadWriteTokenBucket F
  pub cost_routes : Option (List (CostRoute F))
  pub default_cost : F

-- `if units < 1 { units = 1 }`.
abbrev pub at_least_one : ℤ → ℕ
at_least_one (pos zero) = 1
at_least_one (pos (suc n)) = suc n
at_least_one (negsuc n) = 1

pub data RequestError : Type 0 where
  acquire_cancelled : RequestError
  beyond_capacity : RequestError
  marshal_failed : RequestError
  build_failed : RequestError
  headers_failed : RequestError
  http_failed : RequestError
  rate_limited : Text → Text → ℕ → RequestError
  retry_cancelled : RequestError
  api_error : ApiError → RequestError
  unmarshal_failed : RequestError

pub record Request : Type 0 where
  pub request_method : Text
  pub url : Text
  pub header : Map Text Text
  pub request_body : Option Text

-- What `http.Client.Do` and `io.ReadAll` give: an error, a body that cannot be read, or a response.
pub data Reply : Type 0 where
  no_response : Reply
  unread : ℕ → Reply
  response : Text → ℕ → Reply

-- What a round of the loop meets: whether the request can be made, the signed headers, the reply,
-- and whether the wait before a retry runs out before the context is done.
pub record Exchange : Type 0 where
  pub new_request : Bool
  pub request_headers : Option (Map Text Text)
  pub reply : Reply
  pub timer_first : Bool

pub data Answer : Type 0 where
  ok : Text → Answer
  failed : RequestError → Answer
  -- No round is left.
  unfinished : Answer

-- The requests that were sent, the waits between them in nanoseconds, and the result.
pub record Trace : Type 0 where
  pub sent : List Request
  pub waits : List ℤ
  pub answer : Answer

abbrev pub stopped : Answer → Trace
stopped answer = record { sent = []; waits = []; answer = answer }

abbrev pub send_first : Request → Trace → Trace
send_first request rest = record rest { sent = request ∷ rest.sent }

abbrev pub wait_first : ℤ → Trace → Trace
wait_first wait rest = record rest { waits = wait ∷ rest.waits }

-- `d * (1 << shift)` on int64.
unfoldable pub shift_left : ℤ → ℕ → ℤ
shift_left d shift = mul_int64 d (2 ^ shift)

unfoldable pub retry_wait : ℤ → ℕ → ℤ
retry_wait base_delay retries = shift_left base_delay (if ltb 30 retries then 30 else retries)

-- The non-empty parameters, as `url.Values`.
unfoldable pub set_params : Map Text Text → Map Text Text → Map Text Text
set_params [] q = q
set_params ((k, v) ∷ params) q = set_params params (if is_empty v then q else insert k v q)

-- `encode` is `url.Values.Encode`.
unfoldable pub build_url : (Map Text Text → Text) → Text → Text → Map Text Text → Text
unfolding set_params
build_url encode base_url path params =
    if is_empty params
    then base_url ++ path
    else base_url ++ path ++ codes "?" ++ encode (set_params params [])

unfoldable pub set_headers : Map Text Text → Map Text Text → Map Text Text
set_headers [] header = header
set_headers ((k, v) ∷ headers) header = set_headers headers (insert k v header)

unfoldable pub with_content_type : Option Text → Map Text Text → Map Text Text
with_content_type none header = header
with_content_type (some bytes) header =
    insert (codes "Content-Type") (codes "application/json") header

-- Without the headers there is no request.
unfoldable pub signed_request :
    Text → Text → Option Text → Option (Map Text Text) → RequestError ⊎ Request
unfolding set_headers with_content_type
signed_request method url body none = inl headers_failed
signed_request method url body (some headers) = inr (record {
  request_method = method;
  url = url;
  header = with_content_type body (set_headers headers []);
  request_body = body;
})

unfoldable pub build_auth_request : Exchange → Text → Text → Option Text → RequestError ⊎ Request
build_auth_request x method url body =
    if x.new_request then signed_request method url body x.request_headers else inl build_failed

unfoldable pub execute_request : Reply → Option (Text × ℕ)
execute_request no_response = none
execute_request (unread status) = none
execute_request (response text status) = some (text, status)

module _ {F : Type 0} where
  -- The wait after which the request is sent again, or the error.
  unfoldable pub handle_retry : Client F → Text → Text → Bool → ℕ → RequestError ⊎ ℤ
  handle_retry c method path timer_first retries =
      if not (ltb_ℤ (pos retries) c.max_retries)
      then inl (rate_limited method path retries)
      else if timer_first
      then inr (retry_wait c.base_delay retries)
      else inl retry_cancelled

module _ (float : Float) where
  open float use {F, le, mul, zero, of_ℕ}

  -- The table's figure for the request, on the side that its method reads or writes.
  unfoldable pub billed : Text → F → ℤ → F × F
  billed method unit units =
      let cost = mul unit (of_ℕ (at_least_one units)) in
      if method == codes "GET" then (cost, float.zero) else (float.zero, cost)

  -- With the table's figure for one unit, if it has one.
  unfoldable pub charge : F × F → Text → F → ℤ → Option F → F × F
  charge callers method default units (some unit) = billed method unit units
  charge callers method default units none =
      if le default float.zero then callers else billed method default units

  unfoldable pub charge_by_table : F × F → Text → Text → F → ℤ → Option (List (CostRoute F)) → F × F
  charge_by_table callers method path default units none = callers
  charge_by_table callers method path default units (some routes) =
      charge callers method default units (lookup_cost routes method path)

  unfoldable pub resolve_costs : Client F → Text → Text → F → F → ℤ → F × F
  unfolding charge_by_table
  resolve_costs c method path read_cost write_cost units =
      let n = of_ℕ (at_least_one units) in
      charge_by_table (mul read_cost n, mul write_cost n) method path c.default_cost units
        c.cost_routes

-- What `handle_retry` says: an error, or a wait before the rest of the loop.
unfoldable pub retried : RequestError ⊎ ℤ → Trace → Trace
retried (inl e) rest = stopped (failed e)
retried (inr wait) rest = wait_first wait rest

-- What building the request says: an error, or the request that goes out first.
unfoldable pub requested : RequestError ⊎ Request → Trace → Trace
requested (inl e) rest = stopped (failed e)
requested (inr request) rest = send_first request rest

-- `nested` and `flat` are the two calls of `json.Unmarshal` in `newAPIError`.
module _ {F : Type 0} (nested flat : Text → Option (Text × Text)) where
  -- After the reply: the results that end the loop, or the wait before the rest of it.
  unfoldable pub after_reply : Client F → Text → Text → Bool → ℕ → Trace → Option (Text × ℕ) → Trace
  after_reply c method path timer_first retries rest none = stopped (failed http_failed)
  after_reply c method path timer_first retries rest (some (text, status)) =
      if status == 429
      then retried (handle_retry c method path timer_first retries) rest
      else if leb 400 status
      then stopped (failed (api_error (new_api_error nested flat status method path text)))
      else stopped (ok text)

  -- The loop of `do`, one exchange for each round.
  unfoldable pub send_from : Client F → Text → Text → Text → Option Text → ℕ → List Exchange → Trace
  send_from c method path url body retries [] = stopped unfinished
  send_from c method path url body retries (x ∷ rounds) =
      let rest = send_from c method path url body (suc retries) rounds in
      requested (build_auth_request x method url body)
        (after_reply c method path x.timer_first retries rest (execute_request x.reply))

-- A call of `do`: its arguments, and what it meets.
pub record Call (F : Type 0) (B : Type 0) : Type 0 where
  pub call_method : Text
  pub path : Text
  pub read_cost : F
  pub write_cost : F
  pub units : ℤ
  pub body : Option B
  pub params : Map Text Text
  pub attempts : List (Attempt F)
  pub exchanges : List Exchange

-- `none` is the marshalling error.
module _ {B : Type 0} (marshal : B → Option Text) where
  unfoldable pub body_bytes : Option B → Option (Option Text)
  body_bytes none = some none
  body_bytes (some b) = elim (marshal b) [ none ↦ none | some bytes ↦ some (some bytes) ]

module _ (float : Float) {B : Type 0} (nested flat : Text → Option (Text × Text))
    (encode : Map Text Text → Text) (marshal : B → Option Text) where
  open float use {F}

  unfoldable pub send_bytes : Client F → Call F B → Option (Option Text) → Trace
  send_bytes c call none = stopped (failed marshal_failed)
  send_bytes c call (some bytes) =
      send_from nested flat c call.call_method call.path
        (build_url encode c.base_url call.path call.params) bytes 0 call.exchanges

  -- What `do` does once it knows how `Acquire` ends.
  unfoldable pub after_acquire : Client F → Call F B → Acquired F → Client F × Trace
  unfolding send_bytes body_bytes
  after_acquire c call (granted b) =
      (record c { limiter = b }, send_bytes c call (body_bytes marshal call.body))
  after_acquire c call (over_capacity b) =
      (record c { limiter = b }, stopped (failed beyond_capacity))
  after_acquire c call (cancelled b) =
      (record c { limiter = b }, stopped (failed acquire_cancelled))
  after_acquire c call (waiting b) = (record c { limiter = b }, stopped unfinished)

  unfoldable pub do_request : Client F → Call F B → Client F × Trace
  unfolding after_acquire
  do_request c call =
      let (read_cost, write_cost) =
        resolve_costs float c call.call_method call.path call.read_cost call.write_cost
          call.units in
      after_acquire c call (acquire float call.attempts read_cost write_cost c.limiter)

  -- `decode` is `json.Unmarshal` into the result type. `none` is a call that has not ended.
  unfoldable pub decoded {ℓ} : {T : Type ℓ} → (Text → Option T) → Answer → Option (RequestError ⊎ T)
  decoded decode (ok text) = elim (decode text) [
    | none ↦ some (inl unmarshal_failed)
    | some t ↦ some (inr t)
  ]
  decoded decode (failed e) = some (inl e)
  decoded decode unfinished = none

  unfoldable pub do_json {ℓ} :
      {T : Type ℓ} → (Text → Option T) → Client F → Call F B → Client F × Option (RequestError ⊎ T)
  unfolding decoded
  do_json decode c call =
      let (after, trace) = do_request c call in (after, decoded decode trace.answer)
