-- ===== src/RateLimit/Charges.antt =====
-- What a refill, a refusal and a payment of ratelimit.go do to the two kinds of tokens, and the
-- buckets that `Acquire` meets.
use gokalshi.Base.{◌≡◌, refl, ◌&&◌, true, false, List, [], ◌∷◌, arith, Bool-cases, ◌⊎◌, inl, inr}
use gokalshi.Float.{Float}
use gokalshi.RateLimit.{
  ReadWriteTokenBucket, read_cap, write_cap, top_up, refill, can_proceed, consume,
  calculate_wait_time, Attempt, is_zero,
}

module _ (float : Float) where
  open float use {F, lt, le, add, sub, mul, zero}

  -- So many tokens, but no more than the capacity.
  abbrev pub IsCapped : F → F → F → Type 0
  IsCapped tokens cap kept =
      (lt cap tokens ≡ true → kept ≡ cap) × (lt cap tokens ≡ false → kept ≡ tokens)

  -- A refill at a time: nothing if no time has passed since the last one, else what the rates bring
  -- in that time.
  pub record IsRefill (now : F) (b c : ReadWriteTokenBucket F) : Type 0 where
    pub same_cfg : c.cfg ≡ b.cfg
    pub too_early : le (sub now b.last_refill) zero ≡ true → c ≡ b
    pub stamped : le (sub now b.last_refill) zero ≡ false → c.last_refill ≡ now
    pub read_filled :
        le (sub now b.last_refill) zero ≡ false
        → IsCapped
            (add b.read_tokens (mul (sub now b.last_refill) b.cfg.read_rate))
            (read_cap float b.cfg)
            c.read_tokens
    pub write_filled :
        le (sub now b.last_refill) zero ≡ false
        → IsCapped
            (add b.write_tokens (mul (sub now b.last_refill) b.cfg.write_rate))
            (write_cap float b.cfg)
            c.write_tokens

  -- One kind of tokens before and after a request that takes so many of them: there were enough,
  -- and they are gone. A cost that is not positive takes none.
  abbrev pub IsPaid : F → F → F → Type 0
  IsPaid cost before after =
      (lt zero cost ≡ true → (lt before cost ≡ false) × (after ≡ sub before cost))
      × (lt zero cost ≡ false → after ≡ before)

  -- One kind of tokens is missing.
  abbrev pub IsShort : F → F → ReadWriteTokenBucket F → Type 0
  IsShort read_cost write_cost b =
      ((lt zero read_cost ≡ true) × (lt b.read_tokens read_cost ≡ true))
      ⊎ ((lt zero write_cost ≡ true) × (lt b.write_tokens write_cost ≡ true))

  -- A bucket that `Acquire` meets: as it is refilled in a round at whose top the context is not
  -- done, where the bucket was short in all rounds before it and the wait ran out.
  abbrev pub IsMet :
      F → F → List (Attempt F) → ReadWriteTokenBucket F → ReadWriteTokenBucket F → Type 0
  IsMet read_cost write_cost [] b c = ⊥
  IsMet read_cost write_cost (a ∷ rounds) b c =
      (a.cancelled ≡ false)
      × (IsRefill a.now (a.others b) c
          ⊎ ((d : ReadWriteTokenBucket F) × IsRefill a.now (a.others b) d
              × IsShort read_cost write_cost d
              × (a.woken ≡ true)
              × IsMet read_cost write_cost rounds d c))

  -- The bucket after a request that was granted in it: either both kinds of tokens are paid, or the
  -- bucket is short, the wait was computed as zero, and nothing is paid.
  abbrev pub IsCharged : F → F → ReadWriteTokenBucket F → ReadWriteTokenBucket F → Type 0
  IsCharged read_cost write_cost c b =
      (b.cfg ≡ c.cfg)
      × (b.last_refill ≡ c.last_refill)
      × ((IsPaid read_cost c.read_tokens b.read_tokens
            × IsPaid write_cost c.write_tokens b.write_tokens)
          ⊎ (IsShort read_cost write_cost c
              × (is_zero (calculate_wait_time float read_cost write_cost c) ≡ true)
              × (b ≡ c)))

  top_up-IsCapped : (tokens cap : F) → IsCapped tokens cap (top_up float tokens cap)
  unfolding top_up
  top_up-IsCapped tokens cap = (λ h. rw h refl, λ h. rw h refl)

  pub refill-IsRefill : (now : F) (b : ReadWriteTokenBucket F) → IsRefill now b (refill float now b)
  unfolding refill
  refill-IsRefill now b = elim (Bool-cases (le (sub now b.last_refill) zero)) [
    | inl early ↦ rw early (record {
      same_cfg = refl;
      too_early = λ h. refl;
      stamped = λ h. cc;
      read_filled = λ h. cc;
      write_filled = λ h. cc;
    })
    | inr late ↦ rw late (record {
      same_cfg = refl;
      too_early = λ h. cc;
      stamped = λ h. refl;
      read_filled = λ h. top_up-IsCapped _ _;
      write_filled = λ h. top_up-IsCapped _ _;
    })
  ]

  pub can_proceed-IsShort :
      (read_cost write_cost : F) (b : ReadWriteTokenBucket F)
      → can_proceed float read_cost write_cost b ≡ false
      → IsShort read_cost write_cost b
  unfolding can_proceed
  can_proceed-IsShort read_cost write_cost b h =
      elim (Bool-cases (lt zero read_cost && lt b.read_tokens read_cost)) [
        | inl read ↦ inl (ground (arith, read))
        | inr enough ↦ inr (ground (arith, enough))
      ]

  pub consume-IsPaid :
      (read_cost write_cost : F) (b : ReadWriteTokenBucket F)
      → can_proceed float read_cost write_cost b ≡ true
      → let after = consume float read_cost write_cost b in
        IsPaid read_cost b.read_tokens after.read_tokens
        × IsPaid write_cost b.write_tokens after.write_tokens
  unfolding can_proceed consume
  consume-IsPaid read_cost write_cost b h = (
    (λ p. (ground (arith, p), rw p refl), λ p. rw p refl),
    (λ p. (ground (arith, p), rw p refl), λ p. rw p refl),
  )
