-- ===== src/Client/Patience.antt =====
-- The retry loop of client.go against a server that answers 429 for a while.
use mathlib.Core.List.{append-nil}
use gokalshi.Base.{
  ℕ, suc, ◌+◌, ◌<◌, ◌≤◌, ◌≡◌, refl, ap, ◌∙◌, ℤ, pos, pos_part, true, false, Option, some, List, [],
  ◌∷◌, ◌++◌, arith, Text, Map, All, length, ltb_ℤ, leb, ◌==◌, nat_eq,
}
use gokalshi.Client.{
  Client, Request, response, Exchange, ok, failed, Trace, stopped, retry_wait, build_auth_request,
  signed_request, execute_request, handle_retry, retried, requested, after_reply, send_from,
  rate_limited, send_first, wait_first, with_content_type, set_headers,
}

-- A round in which the request is sent and answered.
pub record IsAnswered (text : Text) (status : ℕ) (x : Exchange) : Type 0 where
  pub headers : Map Text Text
  pub made : x.new_request ≡ true
  pub signed : x.request_headers ≡ some headers
  pub replied : x.reply ≡ response text status

-- The server says 429, and the wait runs out.
pub record IsLimited (x : Exchange) : Type 0 where
  pub text : Text
  pub answered : IsAnswered text 429 x
  pub woken : x.timer_first ≡ true

-- The waits from this retry on.
pub waits_from : ℤ → ℕ → List Exchange → List ℤ
waits_from base_delay retries [] = []
waits_from base_delay retries (x ∷ xs) =
    retry_wait base_delay retries ∷ waits_from base_delay (suc retries) xs

module _ {F : Type 0} (nested flat : Text → Option (Text × Text)) (c : Client F)
    (method path url : Text) (body : Option Text) where
  abbrev signed : Map Text Text → Request
  signed headers = record {
    request_method = method;
    url = url;
    header = with_content_type body (set_headers headers []);
    request_body = body;
  }

  IsLimited-send_from :
      (retries : ℕ) (x : Exchange) (rounds : List Exchange)
      → IsLimited x
      → retries < pos_part c.max_retries
      → (request : Request) × (send_from nested flat c method path url body retries (x ∷ rounds)
          ≡ send_first request (
              wait_first
                (retry_wait c.base_delay retries)
                (send_from nested flat c method path url body (suc retries) rounds)))
  unfolding send_from requested retried build_auth_request signed_request execute_request
      after_reply handle_retry
  IsLimited-send_from retries x rounds l h =
      let a = l.answered in
      let allowed : ltb_ℤ (pos retries) c.max_retries ≡ true = ground (arith, h) in
      (signed a.headers, rw (a.made, a.signed, a.replied, l.woken, allowed) refl)

  answered-send_from :
      (retries : ℕ) (x : Exchange) (rounds : List Exchange) (text : Text) (status : ℕ)
      → (a : IsAnswered text status x) → status < 400
      → send_from nested flat c method path url body retries (x ∷ rounds)
        ≡ send_first (signed a.headers) (stopped (ok text))
  unfolding send_from requested retried build_auth_request signed_request execute_request
      after_reply
  answered-send_from retries x rounds text status a good =
      let other : (status == 429) ≡ false = ground (arith, good) in
      let fine : leb 400 status ≡ false = ground (arith, good) in
      rw (a.made, a.signed, a.replied, other, fine) refl

  last_retry :
      (retries : ℕ) (x : Exchange) (rounds : List Exchange)
      → IsLimited x
      → retries ≡ pos_part c.max_retries
      → (send_from nested flat c method path url body retries (x ∷ rounds)).answer
        ≡ failed (rate_limited method path retries)
  unfolding send_from requested retried build_auth_request signed_request execute_request
      after_reply handle_retry
  last_retry retries x rounds l h =
      let a = l.answered in
      let spent : ltb_ℤ (pos retries) c.max_retries ≡ false = ground (arith, h) in
      rw (a.made, a.signed, a.replied, spent) refl

  -- The rest of the loop, after so many rounds.
  record Continues (retries : ℕ) (limited rest : List Exchange) : Type 0 where
    answer :
        (send_from nested flat c method path url body retries (limited ++ rest)).answer
        ≡ (send_from nested flat c method path url body (length limited + retries) rest).answer
    waits :
        (send_from nested flat c method path url body retries (limited ++ rest)).waits
        ≡ waits_from c.base_delay retries limited
          ++ (send_from nested flat c method path url body (length limited + retries) rest).waits
    sent :
        length (send_from nested flat c method path url body retries (limited ++ rest)).sent
        ≡ length limited
          + length
              (send_from nested flat c method path url body (length limited + retries) rest).sent

  send_from-Continues :
      (retries : ℕ) (limited rest : List Exchange)
      → length limited + retries ≤ pos_part c.max_retries
      → All IsLimited limited
      → Continues retries limited rest
  unfolding waits_from
  send_from-Continues retries [] rest h l =
      let here : 0 + retries ≡ retries = omega arith in
      record { answer = rw here refl; waits = rw here refl; sent = rw here (omega arith) }
  send_from-Continues retries (x ∷ limited) rest h l =
      let next = send_from-Continues (suc retries) limited rest (omega (arith, h)) l.1 in
      let (request, step) =
        IsLimited-send_from retries x (limited ++ rest) l.0 (omega (arith, h)) in
      let later : length (x ∷ limited) + retries ≡ length limited + suc retries = omega arith in
      record {
        answer = rw later (ap (λ (t : Trace). t.answer) step ∙ next.answer);
        waits = rw later (
            ap (λ (t : Trace). t.waits) step
            ∙ ap (λ ws. retry_wait c.base_delay retries ∷ ws) next.waits);
        sent = rw later (ap (λ (t : Trace). length t.sent) step ∙ ap suc next.sent ∙ omega arith);
      }

  -- If the server answers 429 for no more rounds than retries are allowed, every wait runs out, and
  -- the next round is answered with a status below 400, then the loop returns that answer's body;
  -- it has waited by the backoff formula before each retry, in order, and sent one request more
  -- than it was refused.
  pub send_from-recovers :
      (limited rest : List Exchange) (x : Exchange) (text : Text) (status : ℕ)
      → All IsLimited limited
      → length limited ≤ pos_part c.max_retries
      → IsAnswered text status x
      → status < 400
      → ((send_from nested flat c method path url body 0 (limited ++ x ∷ rest)).answer ≡ ok text)
        × ((send_from nested flat c method path url body 0 (limited ++ x ∷ rest)).waits
            ≡ waits_from c.base_delay 0 limited)
        × (length (send_from nested flat c method path url body 0 (limited ++ x ∷ rest)).sent
            ≡ suc (length limited))
  send_from-recovers limited rest x text status l h a good =
      let all = send_from-Continues 0 limited (x ∷ rest) (omega (arith, h)) l in
      let last = answered-send_from (length limited + 0) x rest text status a good in
      (
        all.answer ∙ ap (λ (t : Trace). t.answer) last,
        all.waits
            ∙ ap (λ (t : Trace). waits_from c.base_delay 0 limited ++ t.waits) last
            ∙ append-nil (waits_from c.base_delay 0 limited),
        all.sent ∙ ap (λ (t : Trace). length limited + length t.sent) last ∙ omega arith,
      )

  -- If the server answers 429 in as many rounds as retries are allowed and once more, and every
  -- wait runs out, then the loop returns the rate limit error with the method, the path and the
  -- number of retries.
  pub send_from-gives_up :
      (limited rest : List Exchange) (x : Exchange)
      → All IsLimited limited
      → length limited ≡ pos_part c.max_retries
      → IsLimited x
      → (send_from nested flat c method path url body 0 (limited ++ x ∷ rest)).answer
        ≡ failed (rate_limited method path (pos_part c.max_retries))
  send_from-gives_up limited rest x l h last =
      let all = send_from-Continues 0 limited (x ∷ rest) (omega (arith, h)) l in
      let spent : length limited + 0 ≡ pos_part c.max_retries = omega (arith, h) in
      all.answer
      ∙ last_retry (length limited + 0) x rest last spent
      ∙ ap (λ n. failed (rate_limited method path n)) spent
