-- ===== src/RateLimit.antt =====
-- ratelimit.go: the token bucket with disjoint read and write tokens. The lock makes each method one
-- step; what the injected clock returns is an argument, and so are the events that `Acquire` meets.
pub mod Bounds
pub mod Charges
pub mod Acquire
mod Tests
use gokalshi.Base.{
  ℕ, ℤ, pos, negsuc, ◌≡◌, Bool, true, false, ◌&&◌, ◌||◌, not, Option, none, some, zero, suc, List,
  [], ◌∷◌, if◌then◌else◌, ltb_ℤ,
}
use gokalshi.Float.{Float}

pub record TokenBucketConfig (F : Type 0) : Type 0 where
  pub read_rate : F
  pub write_rate : F
  pub read_capacity : F
  pub write_capacity : F
  pub window_size : F
  pub safety_padding : F

pub record TokenBucketStatus (F : Type 0) : Type 0 where
  pub status_read_tokens : F
  pub status_write_tokens : F

pub record ReadWriteTokenBucket (F : Type 0) : Type 0 where
  pub cfg : TokenBucketConfig F
  pub read_tokens : F
  pub write_tokens : F
  pub last_refill : F

-- `wait == 0`.
abbrev pub is_zero : ℤ → Bool
is_zero (pos zero) = true
is_zero (pos (suc n)) = false
is_zero (negsuc n) = false

-- What happens in a round of `Acquire`: whether the context is done at its top, what other
-- goroutines have done to the bucket since, the clock's value, and whether the wait runs out.
pub record Attempt (F : Type 0) : Type 0 where
  pub cancelled : Bool
  pub others : ReadWriteTokenBucket F → ReadWriteTokenBucket F
  pub now : F
  pub woken : Bool

-- How `Acquire` ends: it returns nil, one of its two errors, or it has not returned after the
-- rounds that were given.
pub data Acquired (F : Type 0) : Type 0 where
  granted : ReadWriteTokenBucket F → Acquired F
  over_capacity : ReadWriteTokenBucket F → Acquired F
  cancelled : ReadWriteTokenBucket F → Acquired F
  waiting : ReadWriteTokenBucket F → Acquired F

module _ (float : Float) where
  open float use {F, lt, le, add, sub, mul, div, zero, to_duration}

  unfoldable pub read_cap : TokenBucketConfig F → F
  read_cap cfg = if lt zero cfg.read_capacity then cfg.read_capacity else cfg.read_rate

  unfoldable pub write_cap : TokenBucketConfig F → F
  write_cap cfg = if lt zero cfg.write_capacity then cfg.write_capacity else cfg.write_rate

  -- `none` is the panic.
  unfoldable pub new_read_write_token_bucket :
      TokenBucketConfig F → F → Option (ReadWriteTokenBucket F)
  new_read_write_token_bucket cfg now =
      if le cfg.read_rate zero || le cfg.write_rate zero
      then none
      else some (record {
        cfg = cfg;
        read_tokens = read_cap cfg;
        write_tokens = write_cap cfg;
        last_refill = now;
      })

  -- More tokens, up to the capacity.
  unfoldable pub top_up : F → F → F
  top_up tokens cap = if lt cap tokens then cap else tokens

  unfoldable pub refill : F → ReadWriteTokenBucket F → ReadWriteTokenBucket F
  refill now b =
      let elapsed = sub now b.last_refill in
      let filled = record b {
        last_refill = now;
        read_tokens = top_up (add b.read_tokens (mul elapsed b.cfg.read_rate)) (read_cap b.cfg);
        write_tokens = top_up (add b.write_tokens (mul elapsed b.cfg.write_rate)) (write_cap b.cfg);
      } in
      if le elapsed zero then b else filled

  unfoldable pub can_proceed : F → F → ReadWriteTokenBucket F → Bool
  can_proceed read_cost write_cost b =
      if lt zero read_cost && lt b.read_tokens read_cost
      then false
      else if lt zero write_cost && lt b.write_tokens write_cost
      then false
      else true

  unfoldable pub consume : F → F → ReadWriteTokenBucket F → ReadWriteTokenBucket F
  consume read_cost write_cost b = record b {
    read_tokens = if lt zero read_cost then sub b.read_tokens read_cost else b.read_tokens;
    write_tokens = if lt zero write_cost then sub b.write_tokens write_cost else b.write_tokens;
  }

  -- The wait for one kind of tokens, if it is longer than the wait so far.
  unfoldable pub longer_wait : F → F → F → F → F
  longer_wait cost tokens rate max_wait =
      let wait = div (sub cost tokens) rate in
      if lt zero cost && lt tokens cost
      then (if lt max_wait wait then wait else max_wait)
      else max_wait

  unfoldable pub calculate_wait_time : F → F → ReadWriteTokenBucket F → ℤ
  calculate_wait_time read_cost write_cost b = to_duration (
      add
        (longer_wait write_cost b.write_tokens b.cfg.write_rate
          (longer_wait read_cost b.read_tokens b.cfg.read_rate zero))
        b.cfg.safety_padding)

  unfoldable pub try_acquire : F → F → F → ReadWriteTokenBucket F → ReadWriteTokenBucket F × Bool
  try_acquire now read_cost write_cost b0 =
      let b = refill now b0 in
      if can_proceed read_cost write_cost b
      then (consume read_cost write_cost b, true)
      else (b, false)

  unfoldable pub get_wait_time : F → F → F → ReadWriteTokenBucket F → ReadWriteTokenBucket F × ℤ
  get_wait_time now read_cost write_cost b0 =
      let b = refill now b0 in
      if can_proceed read_cost write_cost b
      then (b, pos 0)
      else (b, calculate_wait_time read_cost write_cost b)

  unfoldable pub status : F → ReadWriteTokenBucket F → ReadWriteTokenBucket F × TokenBucketStatus F
  status now b0 =
      let b = refill now b0 in
      (b, record { status_read_tokens = b.read_tokens; status_write_tokens = b.write_tokens })

  unfoldable pub try_acquire_or_wait :
      F → F → F → ReadWriteTokenBucket F → ReadWriteTokenBucket F × ℤ
  try_acquire_or_wait now read_cost write_cost b0 =
      let b = refill now b0 in
      if can_proceed read_cost write_cost b
      then (consume read_cost write_cost b, pos 0)
      else (b, calculate_wait_time read_cost write_cost b)

  -- The loop of `Acquire`, one attempt for each round.
  unfoldable pub acquire_from : List (Attempt F) → F → F → ReadWriteTokenBucket F → Acquired F
  acquire_from [] read_cost write_cost b = waiting b
  acquire_from (a ∷ rounds) read_cost write_cost b0 =
      let found = a.others b0 in
      let (b, wait) = try_acquire_or_wait a.now read_cost write_cost found in
      let rest = acquire_from rounds read_cost write_cost b in
      if a.cancelled
      then cancelled found
      else if is_zero wait
      then granted b
      else if a.woken
      then rest
      else cancelled b

  unfoldable pub acquire : List (Attempt F) → F → F → ReadWriteTokenBucket F → Acquired F
  acquire rounds read_cost write_cost b =
      if lt (read_cap b.cfg) read_cost || lt (write_cap b.cfg) write_cost
      then over_capacity b
      else acquire_from rounds read_cost write_cost b
