-- ===== src/RateLimit/Bounds.antt =====
-- The invariant of the bucket of ratelimit.go: what its tokens lie between.
use gokalshi.Base.{
  ◌≡◌, true, false, ◌&&◌, some, List, [], ◌∷◌, if◌then◌else◌, arith, Bool-cases, inl, inr,
}
use mathlib.Core.Option.{some-injective}
use mathlib.Core.Path.{subst}
use gokalshi.Float.{Float, IsOrdered}
use gokalshi.RateLimit.{
  TokenBucketConfig, ReadWriteTokenBucket, read_cap, write_cap, new_read_write_token_bucket, top_up,
  refill, can_proceed, consume, try_acquire, get_wait_time, status, try_acquire_or_wait, Attempt,
  Acquired, granted, over_capacity, cancelled, waiting, acquire_from, acquire,
}

module _ (float : Float) where
  open float use {F, lt, le, add, sub, mul, zero}

  -- The rates are not negative.
  pub record IsConfig (cfg : TokenBucketConfig F) : Type 0 where
    pub read_rate : le zero cfg.read_rate ≡ true
    pub write_rate : le zero cfg.write_rate ≡ true

  pub record IsValid (b : ReadWriteTokenBucket F) : Type 0 where
    pub config : IsConfig b.cfg
    pub read_low : le zero b.read_tokens ≡ true
    pub read_high : le b.read_tokens (read_cap float b.cfg) ≡ true
    pub write_low : le zero b.write_tokens ≡ true
    pub write_high : le b.write_tokens (write_cap float b.cfg) ≡ true

module _ (float : Float) (laws : IsOrdered float) where
  open float use {F, lt, le, add, sub, mul, zero}

  -- A range for one kind of tokens.
  abbrev Within : F → F → Type 0
  Within cap tokens = (le zero tokens ≡ true) × (le tokens cap ≡ true)

  pub cap-nonneg :
      (capacity rate : F)
      → le zero rate ≡ true
      → le zero (if lt zero capacity then capacity else rate) ≡ true
  cap-nonneg capacity rate h = ground (arith, laws.le_of_lt zero capacity)

  top_up-Within :
      (cap tokens : F)
      → le zero cap ≡ true
      → le zero tokens ≡ true
      → Within cap (top_up float tokens cap)
  unfolding top_up
  top_up-Within cap tokens h k = ground (arith, laws.le_refl cap, laws.le_of_not_lt cap tokens)

  -- What a cost takes away.
  spend-Within :
      (cap cost tokens : F)
      → (lt zero cost && lt tokens cost) ≡ false
      → Within cap tokens
      → Within cap (if lt zero cost then sub tokens cost else tokens)
  spend-Within cap cost tokens h w = ground (
    arith,
    laws.le_of_not_lt tokens cost,
    laws.sub_nonneg tokens cost,
    laws.le_of_lt zero cost,
    laws.sub-le tokens cost,
    laws.le_trans (sub tokens cost) tokens cap,
  )

  pub refill-IsValid :
      (now : F) (b : ReadWriteTokenBucket F) → IsValid float b → IsValid float (refill float now b)
  unfolding refill read_cap write_cap
  refill-IsValid now b v = elim (Bool-cases (le (sub now b.last_refill) zero)) [
    | inl early ↦ rw early v
    | inr late ↦
        let elapsed = sub now b.last_refill in
        let positive = laws.le_of_not_le elapsed zero late in
        let read_in =
          top_up-Within (read_cap float b.cfg) (add b.read_tokens (mul elapsed b.cfg.read_rate))
            (cap-nonneg _ _ v.config.read_rate)
            (laws.add_nonneg _ _ v.read_low (laws.mul_nonneg _ _ positive v.config.read_rate)) in
        let write_in =
          top_up-Within (write_cap float b.cfg) (add b.write_tokens (mul elapsed b.cfg.write_rate))
            (cap-nonneg _ _ v.config.write_rate)
            (laws.add_nonneg _ _ v.write_low (laws.mul_nonneg _ _ positive v.config.write_rate)) in
        rw late (record {
          config = v.config;
          read_low = read_in.0;
          read_high = read_in.1;
          write_low = write_in.0;
          write_high = write_in.1;
        })
  ]

  consume-IsValid :
      (read_cost write_cost : F) (b : ReadWriteTokenBucket F)
      → can_proceed float read_cost write_cost b ≡ true
      → IsValid float b
      → IsValid float (consume float read_cost write_cost b)
  unfolding consume can_proceed
  consume-IsValid read_cost write_cost b h v =
      let read_in =
        spend-Within (read_cap float b.cfg) read_cost b.read_tokens (ground arith)
          (v.read_low, v.read_high) in
      let write_in =
        spend-Within (write_cap float b.cfg) write_cost b.write_tokens (ground arith)
          (v.write_low, v.write_high) in
      record {
        config = v.config;
        read_low = read_in.0;
        read_high = read_in.1;
        write_low = write_in.0;
        write_high = write_in.1;
      }

  -- `TryAcquire` leaves a valid bucket valid, on both branches.
  pub try_acquire-IsValid :
      (now read_cost write_cost : F) (b : ReadWriteTokenBucket F)
      → IsValid float b
      → IsValid float (try_acquire float now read_cost write_cost b).0
  unfolding try_acquire
  try_acquire-IsValid now read_cost write_cost b v =
      let w = refill-IsValid now b v in
      elim (Bool-cases (can_proceed float read_cost write_cost (refill float now b))) [
        | inl go ↦ rw go (consume-IsValid read_cost write_cost (refill float now b) go w)
        | inr stay ↦ rw stay w
      ]

  try_acquire_or_wait-IsValid :
      (now read_cost write_cost : F) (b : ReadWriteTokenBucket F)
      → IsValid float b
      → IsValid float (try_acquire_or_wait float now read_cost write_cost b).0
  unfolding try_acquire_or_wait
  try_acquire_or_wait-IsValid now read_cost write_cost b v =
      let w = refill-IsValid now b v in
      elim (Bool-cases (can_proceed float read_cost write_cost (refill float now b))) [
        | inl go ↦ rw go (consume-IsValid read_cost write_cost (refill float now b) go w)
        | inr stay ↦ rw stay w
      ]

  pub get_wait_time-IsValid :
      (now read_cost write_cost : F) (b : ReadWriteTokenBucket F)
      → IsValid float b
      → IsValid float (get_wait_time float now read_cost write_cost b).0
  unfolding get_wait_time
  get_wait_time-IsValid now read_cost write_cost b v = ground (arith, refill-IsValid now b v)

  pub status-IsValid :
      (now : F) (b : ReadWriteTokenBucket F)
      → IsValid float b
      → IsValid float (status float now b).0
  unfolding status
  status-IsValid now b v = refill-IsValid now b v

  -- A bucket that the constructor returns is valid: its rates are not negative, and its tokens are
  -- at their capacity.
  pub new_read_write_token_bucket-IsValid :
      (cfg : TokenBucketConfig F) (now : F) (b : ReadWriteTokenBucket F)
      → new_read_write_token_bucket float cfg now ≡ some b
      → IsValid float b
  unfolding new_read_write_token_bucket read_cap write_cap
  new_read_write_token_bucket-IsValid cfg now b e =
      let made : ReadWriteTokenBucket F = record {
        cfg = cfg;
        read_tokens = read_cap float cfg;
        write_tokens = write_cap float cfg;
        last_refill = now;
      } in
      let read_ok : le cfg.read_rate zero ≡ false = ground arith in
      let write_ok : le cfg.write_rate zero ≡ false = ground arith in
      let read = laws.le_of_not_le cfg.read_rate zero read_ok in
      let write = laws.le_of_not_le cfg.write_rate zero write_ok in
      let some_made : some made ≡ some b = ground (arith, read_ok, write_ok) in
      subst (IsValid float) (some-injective _ _ some_made) (record {
        config = record { read_rate = read; write_rate = write };
        read_low = cap-nonneg _ _ read;
        read_high = laws.le_refl _;
        write_low = cap-nonneg _ _ write;
        write_high = laws.le_refl _;
      })

  abbrev pub Attempts : List (Attempt F) → Type 0
  Attempts [] = Unit
  Attempts (a ∷ rounds) =
      ((b : ReadWriteTokenBucket F) → IsValid float b → IsValid float (a.others b))
      × Attempts rounds

  abbrev pub EndsValid : Acquired F → Type 0
  EndsValid (granted b) = IsValid float b
  EndsValid (over_capacity b) = IsValid float b
  EndsValid (cancelled b) = IsValid float b
  EndsValid (waiting b) = IsValid float b

  acquire_from-EndsValid :
      (rounds : List (Attempt F)) (read_cost write_cost : F) (b : ReadWriteTokenBucket F)
      → Attempts rounds
      → IsValid float b
      → EndsValid (acquire_from float rounds read_cost write_cost b)
  unfolding acquire_from
  acquire_from-EndsValid [] read_cost write_cost b k v = v
  acquire_from-EndsValid (a ∷ rounds) read_cost write_cost b k v =
      let found = k.0 b v in
      let tried = try_acquire_or_wait-IsValid a.now read_cost write_cost (a.others b) found in
      ground (
        arith,
        found,
        tried,
        acquire_from-EndsValid rounds read_cost write_cost
            (try_acquire_or_wait float a.now read_cost write_cost (a.others b)).0 k.1 tried,
      )

  -- If the bucket is valid (rates not negative, tokens between zero and the capacity), and what
  -- others do to it keeps it valid, then it is valid however `Acquire` ends.
  pub acquire-EndsValid :
      (rounds : List (Attempt F)) (read_cost write_cost : F) (b : ReadWriteTokenBucket F)
      → Attempts rounds
      → IsValid float b
      → EndsValid (acquire float rounds read_cost write_cost b)
  unfolding acquire
  acquire-EndsValid rounds read_cost write_cost b k v =
      ground (arith, v, acquire_from-EndsValid rounds read_cost write_cost b k v)
