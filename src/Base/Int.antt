-- ===== src/Base/Int.antt =====
-- Signed integers over the native numbers, as far as the code compares them, and products
-- of 64-bit integers, which wrap.
use Prim.Native.Nat.{ℕ, suc, ◌+◌, ◌-◌, ◌*◌, ◌%◌, ◌^◌, ◌<◌}
use mathlib.Core.Bool.{Bool}
use mathlib.Core.Path.{◌≡◌}
use native.Mathlib.Omega.{arith}
use native.Mathlib.Nat.{mod-eq_of_lt}
use gokalshi.Base.Tests.{ltb, if◌then◌else◌}

-- `negsuc n` is -(n + 1).
pub data ℤ : Type 0 where
  pos : ℕ → ℤ
  negsuc : ℕ → ℤ

abbrev pub pos_part : ℤ → ℕ
pos_part (pos n) = n
pos_part (negsuc n) = 0

abbrev pub neg_part : ℤ → ℕ
neg_part (pos n) = 0
neg_part (negsuc n) = suc n

infix 50 ◌<ℤ◌
abbrev pub ◌<ℤ◌ : ℤ → ℤ → Type 0
a <ℤ b = pos_part a + neg_part b < pos_part b + neg_part a

abbrev pub ltb_ℤ : ℤ → ℤ → Bool
ltb_ℤ a b = ltb (pos_part a + neg_part b) (pos_part b + neg_part a)

-- An int64 with these bits.
unfoldable pub to_int64 : ℕ → ℤ
to_int64 n =
    let bits = n % 2 ^ 64 in if ltb bits (2 ^ 63) then pos bits else negsuc (2 ^ 64 - 1 - bits)

-- The product with a number that is not negative, on int64.
unfoldable pub mul_int64 : ℤ → ℕ → ℤ
mul_int64 (pos m) n = to_int64 (m * n)
mul_int64 (negsuc m) n = to_int64 (2 ^ 64 - (suc m * n) % 2 ^ 64)

-- A product that fits does not wrap.
pub mul_int64-pos : (m n : ℕ) → m * n < 2 ^ 63 → mul_int64 (pos m) n ≡ pos (m * n)
unfolding mul_int64 to_int64
mul_int64-pos m n h =
    let small : (m * n) % 2 ^ 64 ≡ m * n = mod-eq_of_lt {n = m * n} {m = 2 ^ 64} (omega arith) in
    ground (arith, small)
