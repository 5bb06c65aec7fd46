-- ===== src/Client/Requests.antt =====
-- A whole call of `do`: the limiter first, then the loop.
use gokalshi.Base.{
  suc, ◌≡◌, ◌≢◌, refl, pos_part, Option, some, [], arith, Text, Map, length, All, ◌<◌, ◌≤◌,
}
use gokalshi.Float.{Float}
use gokalshi.RateLimit.{
  ReadWriteTokenBucket, Acquired, granted, over_capacity, cancelled, waiting, acquire,
}
use gokalshi.Client.{
  Client, unfinished, build_url, Call, body_bytes, resolve_costs, send_bytes, after_acquire,
  do_request,
}
use gokalshi.Client.Retry.{IsFor, send_from-IsBounded}

module _ (float : Float) {B : Type 0} (nested flat : Text → Option (Text × Text))
    (encode : Map Text Text → Text) (marshal : B → Option Text) where
  open float use {F}

  IsCharged : Client F → Call F B → Acquired F → Type 0
  IsCharged c call acquired =
      (after_acquire float nested flat encode marshal c call acquired).1.sent ≢ []
      → (b : ReadWriteTokenBucket F) × (acquired ≡ granted b)
        × ((after_acquire float nested flat encode marshal c call acquired).0
            ≡ record c { limiter = b })

  after_acquire-granted :
      (c : Client F) (call : Call F B) (acquired : Acquired F) → IsCharged c call acquired
  unfolding after_acquire IsCharged
  after_acquire-granted c call (granted b) h = (b, refl, refl)
  after_acquire-granted c call (over_capacity b) h = absurd (h refl)
  after_acquire-granted c call (cancelled b) h = absurd (h refl)
  after_acquire-granted c call (waiting b) h = absurd (h refl)

  -- What the call costs.
  abbrev pub costs : Client F → Call F B → F × F
  costs c call =
      resolve_costs float c call.call_method call.path call.read_cost call.write_cost call.units

  -- If a call sends any request, then the limiter has granted the resolved costs, and the client
  -- afterwards differs only in its limiter, which is the bucket of that one grant: retries are not
  -- charged again.
  pub do_request-granted :
      (c : Client F) (call : Call F B)
      → (do_request float nested flat encode marshal c call).1.sent ≢ []
      → (b : ReadWriteTokenBucket F) × (acquire float call.attempts
            (costs c call).0
            (costs c call).1
            c.limiter
          ≡ granted b)
        × ((do_request float nested flat encode marshal c call).0 ≡ record c { limiter = b })
  unfolding do_request IsCharged
  do_request-granted c call h =
      after_acquire-granted c call
        (acquire float call.attempts (costs c call).0 (costs c call).1 c.limiter) h

  -- If the body can be marshalled, the limiter grants the request, and there are more rounds than
  -- retries allowed, then the call ends with an answer. It sends at most one request more than the
  -- retries allowed, waits at most as often as retries are allowed, and all requests that it sends
  -- have the method, the URL and the body of the call.
  pub do_request-ends :
      (c : Client F) (call : Call F B) (bytes : Option Text) (b : ReadWriteTokenBucket F)
      → body_bytes marshal call.body ≡ some bytes
      → acquire float call.attempts (costs c call).0 (costs c call).1 c.limiter ≡ granted b
      → pos_part c.max_retries < length call.exchanges
      → let t = (do_request float nested flat encode marshal c call).1 in
        (t.answer ≢ unfinished)
        × (length t.sent ≤ suc (pos_part c.max_retries))
        × (length t.waits ≤ pos_part c.max_retries)
        × All
            (IsFor call.call_method (build_url encode c.base_url call.path call.params) bytes)
            t.sent
  unfolding do_request after_acquire send_bytes
  do_request-ends c call bytes b marshalled go fuel =
      let loop =
        send_from-IsBounded nested flat c call.call_method call.path
          (build_url encode c.base_url call.path call.params) bytes (pos_part c.max_retries) 0
          call.exchanges (omega arith) in
      rw (go, marshalled) (loop.ends fuel, loop.few, loop.waits_between, loop.same)
