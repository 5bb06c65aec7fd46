-- ===== src/Ws/Backoff.antt =====
-- The pause between attempts to connect: how `ListenLoop` lets it grow.
use gokalshi.Base.{
  ℕ, ℤ, pos, mul_int64-pos, ◌<◌, ◌*◌, ◌^◌, ◌≤◌, ◌≡◌, ap, ◌∙◌, true, false, none, List, [], ◌∷◌,
  arith, length,
}
use Prim.Native.Nat.{min}
use native.Mathlib.Nat.{pow-suc, min-eq_left, min-eq_right, one-le-pow}
use native.Mathlib.Decide.{dec_le}
use gokalshi.Ws.State.{WsClient}
use gokalshi.Ws.Incoming.{Json}
use gokalshi.Ws.Loop.{
  next_backoff, Callbacks, Round, again, listen_turn, next_turn, listen_from, listen_loop,
}

-- A turn in which nothing happens but a dial that fails, and a wait that runs out.
pub record OnlyFails (round : Round) : Type 0 where
  pub goes_on : round.cancelled ≡ false
  pub alone : (c : WsClient) → round.at_top c ≡ c
  pub fails : round.first_dial ≡ none
  pub waits : round.first_wait ≡ true

abbrev pub AllFail : List Round → Type 0
AllFail [] = Unit
AllFail (round ∷ rounds) = OnlyFails round × AllFail rounds

-- A pause that can be doubled without overflow.
next_backoff-min :
    (c : WsClient) (backoff most : ℕ)
    → c.max_backoff ≡ pos most
    → backoff < 2 ^ 62
    → next_backoff c (pos backoff) ≡ pos (min (backoff * 2) most)
unfolding next_backoff
next_backoff-min c backoff most e h = rw (mul_int64-pos backoff 2 (omega arith), e) (ground arith)

le_scaled : (m p : ℕ) → 1 ≤ p → m ≤ m * p
le_scaled m p h = grind arith

-- One more failure on top of a cap: it swallows what lies above it.
capped : (b m p : ℕ) → 1 ≤ p → min (min (b * 2) m * p) m ≡ min (b * (p * 2)) m
capped b m p h = elim (dec_le (b * 2) m) [
  | yes low ↦ rw (min-eq_left {n = b * 2} {m = m} low) (omega arith)
  | no high ↦
      rw (min-eq_right {n = m} {m = b * 2} (omega arith))
        (omega (arith, le_scaled m p h, le_scaled (b * 2) p h))
]

module _ (json : Json) (callbacks : Callbacks) where
  listen_turn-fails :
      (round : Round) (backoff : ℤ) (c : WsClient)
      → OnlyFails round
      → c.conn ≡ none
      → listen_turn json callbacks round backoff c ≡ again c (next_backoff c backoff)
  unfolding listen_turn
  listen_turn-fails round backoff c f e = ground (arith, f.goes_on, f.alone c, f.fails, f.waits)

  listen_from-fails :
      (rounds : List Round) (backoff most : ℕ) (c : WsClient)
      → AllFail rounds
      → c.conn ≡ none
      → c.max_backoff ≡ pos most
      → backoff ≤ most
      → most < 2 ^ 62
      → listen_from json callbacks rounds (pos backoff) c
        ≡ again c (pos (min (backoff * 2 ^ length rounds) most))
  unfolding listen_from next_turn
  listen_from-fails [] backoff most c f e max h fits = ap (λ n. again c (pos n)) (omega arith)
  listen_from-fails (round ∷ rounds) backoff most c f e max h fits =
      rw (listen_turn-fails round (pos backoff) c f.0 e, next_turn)
        (rw (next_backoff-min c backoff most max (omega arith)) (
          listen_from-fails rounds (min (backoff * 2) most) most c f.1 e max (omega arith) fits
          ∙ ap (λ n. again c (pos n))
              (rw (pow-suc 2 (length rounds)) (
                capped backoff most (2 ^ length rounds)
                  (one-le-pow (length rounds) 2 (omega arith))))))

-- After any number n of turns in which nothing happens but a dial that fails and a wait that runs
-- out, the client is as it was, and the next pause is the minimum times 2 to the n, at most the
-- maximum, if the two are not negative, the minimum is not above the maximum, and the maximum is
-- below 2^62 nanoseconds.
pub listen_loop-fails :
    (json : Json) (callbacks : Callbacks) (rounds : List Round) (least most : ℕ) (c : WsClient)
    → AllFail rounds
    → c.conn ≡ none
    → c.min_backoff ≡ pos least
    → c.max_backoff ≡ pos most
    → least ≤ most
    → most < 2 ^ 62
    → listen_loop json callbacks rounds c ≡ again c (pos (min (least * 2 ^ length rounds) most))
unfolding listen_loop
listen_loop-fails json callbacks rounds least most c f e start max h fits =
    ap (λ b. listen_from json callbacks rounds b c) start
    ∙ listen_from-fails json callbacks rounds least most c f e max h fits
