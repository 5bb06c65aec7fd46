-- ===== src/RateLimit/Acquire.antt =====
-- The ends of `Acquire` of ratelimit.go: grants, refusals, and the time that passes.
use gokalshi.Base.{◌≡◌, refl, ◌∙◌, true, false, ◌||◌, List, [], ◌∷◌, arith, Bool-cases, inl, inr}
use gokalshi.Float.{Float, IsOrdered}
use gokalshi.RateLimit.{
  ReadWriteTokenBucket, read_cap, write_cap, top_up, refill, can_proceed, consume,
  calculate_wait_time, try_acquire_or_wait, Attempt, Acquired, granted, over_capacity, cancelled,
  waiting, acquire_from, acquire, is_zero,
}
use gokalshi.RateLimit.Bounds.{IsValid, refill-IsValid}
use gokalshi.RateLimit.Charges.{
  IsCapped, IsRefill, IsPaid, IsShort, IsMet, IsCharged, refill-IsRefill, can_proceed-IsShort,
  consume-IsPaid,
}

module _ (float : Float) where
  open float use {F, lt, le, add, sub, mul, zero}

  -- A grant is charged to a bucket that was met.
  abbrev pub IsGranted : List (Attempt F) → F → F → ReadWriteTokenBucket F → Acquired F → Type 0
  IsGranted rounds read_cost write_cost b0 (granted b) =
      (c : ReadWriteTokenBucket F) × IsMet float read_cost write_cost rounds b0 c
      × IsCharged float read_cost write_cost c b
  IsGranted rounds read_cost write_cost b0 (over_capacity b) = Unit
  IsGranted rounds read_cost write_cost b0 (cancelled b) = Unit
  IsGranted rounds read_cost write_cost b0 (waiting b) = Unit

  IsGranted-later :
      (a : Attempt F) (rounds : List (Attempt F)) (read_cost write_cost : F)
      (b0 b : ReadWriteTokenBucket F) (end : Acquired F)
      → a.cancelled ≡ false
      → IsRefill float a.now (a.others b0) b
      → IsShort float read_cost write_cost b
      → a.woken ≡ true
      → IsGranted rounds read_cost write_cost b end
      → IsGranted (a ∷ rounds) read_cost write_cost b0 end
  IsGranted-later a rounds rc wc b0 b (granted after) going filled short woken (c, met, charged) =
      (c, (going, inr (b, filled, short, woken, met)), charged)
  IsGranted-later a rounds rc wc b0 b (over_capacity after) going filled short woken h = tt
  IsGranted-later a rounds rc wc b0 b (cancelled after) going filled short woken h = tt
  IsGranted-later a rounds rc wc b0 b (waiting after) going filled short woken h = tt

  acquire_from-IsGranted :
      (rounds : List (Attempt F)) (read_cost write_cost : F) (b : ReadWriteTokenBucket F)
      → IsGranted rounds read_cost write_cost b (acquire_from float rounds read_cost write_cost b)
  unfolding acquire_from try_acquire_or_wait consume
  acquire_from-IsGranted [] read_cost write_cost b = tt
  acquire_from-IsGranted (a ∷ rounds) read_cost write_cost b0 =
      let b = refill float a.now (a.others b0) in
      let filled = refill-IsRefill float a.now (a.others b0) in
      let rest = acquire_from-IsGranted rounds read_cost write_cost b in
      elim (Bool-cases a.cancelled) [
        | inl stop ↦ rw stop tt
        | inr going ↦ elim (Bool-cases (can_proceed float read_cost write_cost b)) [
          | inl go ↦
              rw (going, go)
                (
                  b,
                  (refl, inl filled),
                  (refl, refl, inl (consume-IsPaid float read_cost write_cost b go)),
                )
          | inr lacking ↦
              let short = can_proceed-IsShort float read_cost write_cost b lacking in
              elim (Bool-cases (is_zero (calculate_wait_time float read_cost write_cost b))) [
                | inl free ↦
                    rw (going, lacking, free)
                      (b, (refl, inl filled), (refl, refl, inr (short, free, refl)))
                | inr wait ↦ elim (Bool-cases a.woken) [
                  | inl woken ↦
                      simp (going, lacking, wait, woken)
                        (IsGranted-later a rounds read_cost write_cost b0 b _ going filled short
                          woken rest)
                  | inr gone ↦ rw (going, lacking, wait, gone) tt
                ]
              ]
        ]
      ]

  -- Whatever happens during `Acquire`: if it returns nil, then there is a round at whose top the
  -- context is not done, which comes after rounds that found the bucket short and whose waits ran
  -- out, and in which the bucket, as the others left it and refilled for the time that has passed
  -- up to its capacities, either has the tokens and is left with those less the costs, or is short
  -- while its wait was computed as zero and is left as it is.
  pub acquire-IsGranted :
      (rounds : List (Attempt F)) (read_cost write_cost : F) (b : ReadWriteTokenBucket F)
      → IsGranted rounds read_cost write_cost b (acquire float rounds read_cost write_cost b)
  unfolding acquire
  acquire-IsGranted rounds read_cost write_cost b =
      elim (Bool-cases
        (lt (read_cap float b.cfg) read_cost || lt (write_cap float b.cfg) write_cost)) [
          | inl too_much ↦ rw too_much tt
          | inr fits ↦ rw fits (acquire_from-IsGranted rounds read_cost write_cost b)
        ]

module _ (float : Float) (laws : IsOrdered float) where
  open float use {F, lt, le, add, sub, mul, zero}

  low-stays :
      (tokens cap cost : F)
      → le zero tokens ≡ true
      → le tokens cap ≡ true
      → lt cap cost ≡ true
      → (lt zero cost ≡ true) × (lt tokens cost ≡ true)
  low-stays tokens cap cost low high over =
      let below = laws.lt_of_le_of_lt tokens cap cost high over in
      (laws.lt_of_le_of_lt zero tokens cost low below, below)

  refill-cfg : (now : F) (b : ReadWriteTokenBucket F) → (refill float now b).cfg ≡ b.cfg
  unfolding refill
  refill-cfg now b = elim (Bool-cases (le (sub now b.last_refill) zero)) [
    | inl early ↦ rw early refl
    | inr late ↦ rw late refl
  ]

  -- In a valid bucket, a request that costs more than a capacity is refused at once with the bucket
  -- unchanged, and rightly: it could not proceed at any later time, however much the bucket is
  -- refilled.
  pub acquire-over_capacity :
      (rounds : List (Attempt F)) (read_cost write_cost now : F) (b : ReadWriteTokenBucket F)
      → IsValid float b
      → (lt (read_cap float b.cfg) read_cost || lt (write_cap float b.cfg) write_cost) ≡ true
      → (acquire float rounds read_cost write_cost b ≡ over_capacity b)
        × (can_proceed float read_cost write_cost (refill float now b) ≡ false)
  unfolding acquire can_proceed
  acquire-over_capacity rounds read_cost write_cost now b v over =
      let after = refill float now b in
      let w = refill-IsValid float laws now b v in
      let same = refill-cfg now b in
      let read_high : le after.read_tokens (read_cap float b.cfg) ≡ true = rw same at w.read_high in
      let write_high : le after.write_tokens (write_cap float b.cfg) ≡ true =
        rw same at w.write_high in
      (
        rw over refl,
        ground (
          arith,
          over,
          low-stays after.read_tokens (read_cap float b.cfg) read_cost w.read_low read_high,
          low-stays after.write_tokens (write_cap float b.cfg) write_cost w.write_low write_high,
        ),
      )

  top_up-enough :
      (tokens cap cost : F)
      → lt cap cost ≡ false
      → lt tokens cost ≡ false
      → lt (top_up float tokens cap) cost ≡ false
  unfolding top_up
  top_up-enough tokens cap cost fits enough = ground arith

  -- The time that has passed has brought enough tokens.
  pub record IsRefilled (now read_cost write_cost : F) (b : ReadWriteTokenBucket F) : Type 0 where
    pub passed : le (sub now b.last_refill) zero ≡ false
    pub read_fits : lt (read_cap float b.cfg) read_cost ≡ false
    pub write_fits : lt (write_cap float b.cfg) write_cost ≡ false
    pub read_enough :
        lt (add b.read_tokens (mul (sub now b.last_refill) b.cfg.read_rate)) read_cost ≡ false
    pub write_enough :
        lt (add b.write_tokens (mul (sub now b.last_refill) b.cfg.write_rate)) write_cost ≡ false

  IsRefilled-can_proceed :
      (now read_cost write_cost : F) (b : ReadWriteTokenBucket F)
      → IsRefilled now read_cost write_cost b
      → can_proceed float read_cost write_cost (refill float now b) ≡ true
  unfolding refill can_proceed
  IsRefilled-can_proceed now read_cost write_cost b r =
      let read = top_up-enough _ _ read_cost r.read_fits r.read_enough in
      let write = top_up-enough _ _ write_cost r.write_fits r.write_enough in
      rw r.passed (ground (arith, read, write))

  -- What is left of one kind of tokens when so many had come together, at most the capacity was
  -- kept, and the cost was paid.
  abbrev pub IsLeft : F → F → F → F → Type 0
  IsLeft cost brought cap left =
      (kept : F) × IsCapped float brought cap kept × IsPaid float cost kept left

  -- If the context is not done, the costs are within the capacities, and the time since the last
  -- refill has brought enough tokens, then `Acquire` returns nil in this round. Of each kind of
  -- tokens there is then what the rate has brought in addition, at most the capacity, less the
  -- cost; the time of the refill is the present one.
  pub acquire-grants :
      (a : Attempt F) (rounds : List (Attempt F)) (read_cost write_cost : F)
      (b : ReadWriteTokenBucket F)
      → a.cancelled ≡ false
      → (a.others b).cfg ≡ b.cfg
      → IsRefilled a.now read_cost write_cost (a.others b)
      → let found = a.others b in
        let elapsed = sub a.now found.last_refill in
        (after : ReadWriteTokenBucket F) × (acquire float (a ∷ rounds) read_cost write_cost b
          ≡ granted after)
        × (after.cfg ≡ b.cfg)
        × (after.last_refill ≡ a.now)
        × IsLeft read_cost
            (add found.read_tokens (mul elapsed found.cfg.read_rate))
            (read_cap float found.cfg)
            after.read_tokens
        × IsLeft write_cost
            (add found.write_tokens (mul elapsed found.cfg.write_rate))
            (write_cap float found.cfg)
            after.write_tokens
  unfolding acquire acquire_from try_acquire_or_wait consume
  acquire-grants a rounds read_cost write_cost b going same r =
      let found = a.others b in
      let filled = refill-IsRefill float a.now found in
      let go = IsRefilled-can_proceed a.now read_cost write_cost found r in
      let paid = consume-IsPaid float read_cost write_cost (refill float a.now found) go in
      let read : lt (read_cap float b.cfg) read_cost ≡ false = rw same at r.read_fits in
      let write : lt (write_cap float b.cfg) write_cost ≡ false = rw same at r.write_fits in
      (
        consume float read_cost write_cost (refill float a.now found),
        rw (read, write, going, go) refl,
        filled.same_cfg ∙ same,
        filled.stamped r.passed,
        (_, filled.read_filled r.passed, paid.0),
        (_, filled.write_filled r.passed, paid.1),
      )
