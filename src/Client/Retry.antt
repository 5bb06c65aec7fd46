-- ===== src/Client/Retry.antt =====
-- The traces of the retry loop of `do` in client.go: their length, their end, and their requests.
use gokalshi.Base.{
  ℕ, zero, suc, ◌+◌, ◌<◌, ◌≤◌, ◌≡◌, ◌≢◌, refl, ℤ, pos, pos_part, ltb_ℤ, Bool, Option, none, some,
  List, [], ◌∷◌, ◌⊎◌, inl, inr, arith, Bool-cases, Option-cases, Text, All, length, leb, ◌==◌,
  nat_eq,
}
use gokalshi.Client.{
  Client, RequestError, Request, Exchange, Answer, unfinished, Trace, stopped, wait_first,
  build_auth_request, signed_request, execute_request, handle_retry, retried, requested,
  after_reply, send_from,
}

-- The request that the call is for.
pub record IsFor (method url : Text) (body : Option Text) (request : Request) : Type 0 where
  pub same_method : request.request_method ≡ method
  pub same_url : request.url ≡ url
  pub same_body : request.request_body ≡ body

predecessor : (n : ℕ) → 0 < n → (l : ℕ) × (n ≡ suc l)
predecessor zero h = absurd (omega arith)
predecessor (suc n) h = (n, refl)

module _ (method url : Text) (body : Option Text) where
  -- What holds of every trace of the loop that has so many retries left.
  pub record IsBounded (left : ℕ) (rounds : ℕ) (t : Trace) : Type 0 where
    pub few : length t.sent ≤ suc left
    pub waits_between : length t.waits ≤ left
    pub ends : left < rounds → t.answer ≢ unfinished
    pub same : All (IsFor method url body) t.sent

module _ {F : Type 0} (nested flat : Text → Option (Text × Text)) (c : Client F)
    (method path url : Text) (body : Option Text) where
  -- The same without the request that the round has sent.
  record IsTail (left : ℕ) (rounds : ℕ) (t : Trace) : Type 0 where
    few : length t.sent ≤ left
    waits_between : length t.waits ≤ left
    ends : left < rounds → t.answer ≢ unfinished
    same : All (IsFor method url body) t.sent

  stopped-IsTail : (left rounds : ℕ) (a : Answer) → a ≢ unfinished → IsTail left rounds (stopped a)
  stopped-IsTail left rounds a h = record {
    few = omega arith;
    waits_between = omega arith;
    ends = λ fuel. h;
    same = tt;
  }

  wait_first-IsTail :
      (left l rounds : ℕ) (wait : ℤ) (rest : Trace)
      → left ≡ suc l
      → IsBounded method url body l rounds rest
      → IsTail left (suc rounds) (wait_first wait rest)
  wait_first-IsTail left l rounds wait rest s b = record {
    few = omega (arith, s, b.few);
    waits_between = omega (arith, s, b.waits_between);
    ends = λ fuel. b.ends (omega (arith, s, fuel));
    same = b.same;
  }

  handle_retry-IsTail :
      (left retries rounds : ℕ) (timer_first : Bool) (rest : Trace)
      → left + retries ≡ pos_part c.max_retries
      → ((l : ℕ) → left ≡ suc l → IsBounded method url body l rounds rest)
      → IsTail left (suc rounds) (retried (handle_retry c method path timer_first retries) rest)
  unfolding handle_retry retried
  handle_retry-IsTail left retries rounds timer_first rest e h =
      elim (Bool-cases (ltb_ℤ (pos retries) c.max_retries)) [
        | inr spent ↦ rw spent (stopped-IsTail left (suc rounds) _ (λ p. cc))
        | inl allowed ↦ elim (Bool-cases timer_first) [
          | inr gone ↦ rw (allowed, gone) (stopped-IsTail left (suc rounds) _ (λ p. cc))
          | inl woken ↦
              let (l, s) = predecessor left (ground (arith, e, allowed)) in
              rw (allowed, woken) (wait_first-IsTail left l rounds _ rest s (h l s))
        ]
      ]

  after_reply-IsTail :
      (left retries rounds : ℕ) (timer_first : Bool) (rest : Trace) (reply : Option (Text × ℕ))
      → left + retries ≡ pos_part c.max_retries
      → ((l : ℕ) → left ≡ suc l → IsBounded method url body l rounds rest)
      → IsTail left
          (suc rounds)
          (after_reply nested flat c method path timer_first retries rest reply)
  unfolding after_reply
  after_reply-IsTail left retries rounds timer_first rest none e h =
      stopped-IsTail left (suc rounds) _ (λ p. cc)
  after_reply-IsTail left retries rounds timer_first rest (some (text, status)) e h =
      elim (Bool-cases (status == 429)) [
        | inl limited ↦ rw limited (handle_retry-IsTail left retries rounds timer_first rest e h)
        | inr other ↦ elim (Bool-cases (leb 400 status)) [
          | inl bad ↦ rw (other, bad) (stopped-IsTail left (suc rounds) _ (λ p. cc))
          | inr good ↦ rw (other, good) (stopped-IsTail left (suc rounds) _ (λ p. cc))
        ]
      ]

  Builds : RequestError ⊎ Request → Type 0
  Builds (inl e) = Unit
  Builds (inr request) = IsFor method url body request

  build_auth_request-Builds : (x : Exchange) → Builds (build_auth_request x method url body)
  unfolding build_auth_request signed_request Builds
  build_auth_request-Builds x = elim (Bool-cases x.new_request) [
    | inr refused ↦ rw refused tt
    | inl made ↦ elim (Option-cases x.request_headers) [
      | inl unsigned ↦ rw (made, unsigned) tt
      | inr (headers, signed) ↦
          rw (made, signed) (record { same_method = refl; same_url = refl; same_body = refl })
    ]
  ]

  requested-IsBounded :
      (left rounds : ℕ) (built : RequestError ⊎ Request) (t : Trace)
      → Builds built
      → IsTail left rounds t
      → IsBounded method url body left rounds (requested built t)
  unfolding requested Builds
  requested-IsBounded left rounds (inl e) t b h = record {
    few = omega arith;
    waits_between = omega arith;
    ends = λ fuel. λ p. cc;
    same = tt;
  }
  requested-IsBounded left rounds (inr request) t b h = record {
    few = omega (arith, h.few);
    waits_between = h.waits_between;
    ends = h.ends;
    same = (b, h.same);
  }

  pub send_from-IsBounded :
      (left retries : ℕ) (rounds : List Exchange)
      → left + retries ≡ pos_part c.max_retries
      → IsBounded method url body left
          (length rounds)
          (send_from nested flat c method path url body retries rounds)
  unfolding send_from
  send_from-IsBounded left retries [] e = record {
    few = omega arith;
    waits_between = omega arith;
    ends = λ fuel. absurd (omega (arith, fuel));
    same = tt;
  }
  send_from-IsBounded left retries (x ∷ rounds) e =
      requested-IsBounded left (suc (length rounds)) _ _ (build_auth_request-Builds x) (
        after_reply-IsTail left retries (length rounds) x.timer_first _ (execute_request x.reply) e
          (λ l s. send_from-IsBounded l (suc retries) rounds (omega (arith, e, s))))
