-- ===== src/Client/Limits.antt =====
-- The waits of `handleRetry` of client.go as 64-bit numbers.
use gokalshi.Base.{ℕ, ◌-◌, ◌*◌, ◌^◌, ◌<◌, ◌≤◌, ◌≡◌, pos, if◌then◌else◌, ltb, arith, mul_int64-pos}
use native.Mathlib.Nat.{pow-le-pow_right, mul-le-mul}
use gokalshi.Client.{shift_left, retry_wait}

-- If the base delay is not negative and below 2^33 nanoseconds, then the wait before a retry does
-- not overflow int64: it is the base delay times 2 to the number of retries, 30 at most.
pub retry_wait-exact :
    (delay retries : ℕ)
    → delay < 2 ^ 33
    → retry_wait (pos delay) retries ≡ pos (delay * 2 ^ (if ltb 30 retries then 30 else retries))
unfolding retry_wait shift_left
retry_wait-exact delay retries h =
    let shift = if ltb 30 retries then 30 else retries in
    let small : shift ≤ 30 = ground arith in
    let power : 2 ^ shift ≤ 2 ^ 30 =
      pow-le-pow_right {n = 2} (omega arith) {i = shift} {j = 30} small in
    let product : delay * 2 ^ shift ≤ (2 ^ 33 - 1) * 2 ^ 30 =
      mul-le-mul {n₁ = delay} {m₁ = 2 ^ shift} {n₂ = 2 ^ 33 - 1} {m₂ = 2 ^ 30} (omega arith)
        power in
    mul_int64-pos delay (2 ^ shift) (omega (arith, product))
