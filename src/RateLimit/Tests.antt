-- ===== src/RateLimit/Tests.antt =====
-- The token bucket over whole numbers, with two tokens a second for reading and ten for writing.
use gokalshi.Base.{ℕ, ◌+◌, ◌*◌, ◌≡◌, refl, true, false, [], ◌∷◌}
use gokalshi.Float.{whole, whole-IsOrdered}
use gokalshi.RateLimit.{
  TokenBucketConfig, ReadWriteTokenBucket, read_cap, write_cap, new_read_write_token_bucket, refill,
  can_proceed, try_acquire, Attempt, granted, over_capacity, acquire,
}
use gokalshi.RateLimit.Bounds.{
  IsValid, EndsValid, try_acquire-IsValid, new_read_write_token_bucket-IsValid, acquire-EndsValid,
}
use gokalshi.RateLimit.Acquire.{
  IsGranted, acquire-IsGranted, acquire-over_capacity, IsLeft, acquire-grants,
}

abbrev config : TokenBucketConfig ℕ
config = record {
  read_rate = 2;
  write_rate = 10;
  read_capacity = 0;
  write_capacity = 20;
  window_size = 1;
  safety_padding = 0;
}

-- All the read tokens have been taken at second 5.
abbrev bucket : ReadWriteTokenBucket ℕ
bucket = record { cfg = config; read_tokens = 0; write_tokens = 20; last_refill = 5 }

bucket-IsValid : IsValid whole bucket
unfolding read_cap write_cap
bucket-IsValid = record {
  config = record { read_rate = refl; write_rate = refl };
  read_low = refl;
  read_high = refl;
  write_low = refl;
  write_high = refl;
}

abbrev at_second : ℕ → Attempt ℕ
at_second now = record { cancelled = false; others = λ b. b; now = now; woken = true }

try_acquire-IsValid_test : IsValid whole (try_acquire whole 6 2 0 bucket).0
try_acquire-IsValid_test = try_acquire-IsValid whole whole-IsOrdered 6 2 0 bucket bucket-IsValid

new_read_write_token_bucket-IsValid_test :
    IsValid whole (record { cfg = config; read_tokens = 2; write_tokens = 20; last_refill = 5 })
unfolding new_read_write_token_bucket read_cap write_cap
new_read_write_token_bucket-IsValid_test =
    new_read_write_token_bucket-IsValid whole whole-IsOrdered config 5
      (record { cfg = config; read_tokens = 2; write_tokens = 20; last_refill = 5 }) refl

acquire-EndsValid_example :
    EndsValid whole whole-IsOrdered (acquire whole (at_second 5 ∷ at_second 6 ∷ []) 2 0 bucket)
acquire-EndsValid_example =
    acquire-EndsValid whole whole-IsOrdered (at_second 5 ∷ at_second 6 ∷ []) 2 0 bucket
      (λ b v. v, (λ b v. v, tt)) bucket-IsValid

acquire-IsGranted_example :
    IsGranted whole
      (at_second 5 ∷ at_second 6 ∷ [])
      2
      0
      bucket
      (acquire whole (at_second 5 ∷ at_second 6 ∷ []) 2 0 bucket)
acquire-IsGranted_example = acquire-IsGranted whole (at_second 5 ∷ at_second 6 ∷ []) 2 0 bucket

acquire-over_capacity_example :
    (acquire whole [] 3 0 bucket ≡ over_capacity bucket)
    × (can_proceed whole 3 0 (refill whole 100 bucket) ≡ false)
unfolding read_cap write_cap
acquire-over_capacity_example =
    acquire-over_capacity whole whole-IsOrdered [] 3 0 100 bucket bucket-IsValid refl

acquire-grants_example :
    (after : ReadWriteTokenBucket ℕ) × (acquire whole (at_second 6 ∷ []) 2 0 bucket ≡ granted after)
    × (after.cfg ≡ config)
    × (after.last_refill ≡ 6)
    × IsLeft whole whole-IsOrdered 2 (0 + 1 * 2) (read_cap whole config) after.read_tokens
    × IsLeft whole whole-IsOrdered 0 (20 + 1 * 10) (write_cap whole config) after.write_tokens
unfolding read_cap write_cap
acquire-grants_example =
    acquire-grants whole whole-IsOrdered (at_second 6) [] 2 0 bucket refl refl (record {
      passed = refl;
      read_fits = refl;
      write_fits = refl;
      read_enough = refl;
      write_enough = refl;
    })
