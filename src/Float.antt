-- ===== src/Float.antt =====
-- Go's float64, as far as the code computes with it: a parameter of the model. `Float` has the
-- operations, `IsOrdered` what the code relies on for the numbers that occur: none is a NaN, and no
-- result overflows. These are facts of IEEE 754 with rounding to nearest, also where it rounds.
use gokalshi.Base.{ℕ, ℤ, pos, ◌+◌, ◌-◌, ◌*◌, ◌/◌, ◌≡◌, Bool, true, false, ltb, leb, arith}

pub record Float : Type 1 where
  pub F : Type 0
  pub lt : F → F → Bool
  pub le : F → F → Bool
  pub add : F → F → F
  pub sub : F → F → F
  pub mul : F → F → F
  pub div : F → F → F
  pub zero : F
  pub of_ℕ : ℕ → F
  -- `time.Duration(x * float64(time.Second))`.
  pub to_duration : F → ℤ

module _ (float : Float) where
  open float use {F, lt, le, add, sub, mul, zero, of_ℕ}

  pub record IsOrdered : Type 0 where
    pub le_of_not_lt : (a b : F) → lt a b ≡ false → le b a ≡ true
    pub le_of_not_le : (a b : F) → le a b ≡ false → le b a ≡ true
    pub le_of_lt : (a b : F) → lt a b ≡ true → le a b ≡ true
    pub le_refl : (a : F) → le a a ≡ true
    pub le_trans : (a b c : F) → le a b ≡ true → le b c ≡ true → le a c ≡ true
    pub not_lt_of_le : (a b : F) → le b a ≡ true → lt a b ≡ false
    pub lt_of_le_of_lt : (a b c : F) → le a b ≡ true → lt b c ≡ true → lt a c ≡ true
    pub add_nonneg : (a b : F) → le zero a ≡ true → le zero b ≡ true → le zero (add a b) ≡ true
    pub mul_nonneg : (a b : F) → le zero a ≡ true → le zero b ≡ true → le zero (mul a b) ≡ true
    pub sub_nonneg : (a b : F) → le b a ≡ true → le zero (sub a b) ≡ true
    pub sub-le : (a b : F) → le zero b ≡ true → le (sub a b) a ≡ true
    pub mul-one : (a : F) → mul a (of_ℕ 1) ≡ a
    pub zero-mul : (n : ℕ) → mul zero (of_ℕ n) ≡ zero

-- Whole numbers, which show that the assumptions can be met. A duration is in whole seconds.
abbrev pub whole : Float
whole = record {
  F = ℕ;
  lt = ltb;
  le = leb;
  add = ◌+◌;
  sub = ◌-◌;
  mul = ◌*◌;
  div = ◌/◌;
  zero = 0;
  of_ℕ = λ n. n;
  to_duration = pos;
}

ltb_of_leb_of_ltb : (a b c : ℕ) → leb a b ≡ true → ltb b c ≡ true → ltb a c ≡ true
ltb_of_leb_of_ltb a b c h k = ground arith

le_of_not_ltb : (a b : ℕ) → ltb a b ≡ false → leb b a ≡ true
le_of_not_ltb a b h = ground arith

le_of_not_leb : (a b : ℕ) → leb a b ≡ false → leb b a ≡ true
le_of_not_leb a b h = ground arith

le_of_ltb : (a b : ℕ) → ltb a b ≡ true → leb a b ≡ true
le_of_ltb a b h = ground arith

leb_trans : (a b c : ℕ) → leb a b ≡ true → leb b c ≡ true → leb a c ≡ true
leb_trans a b c h k = ground arith

not_ltb : (a b : ℕ) → leb b a ≡ true → ltb a b ≡ false
not_ltb a b h = ground arith

zero-leb : (a : ℕ) → leb 0 a ≡ true
zero-leb a = ground arith

leb_refl : (a : ℕ) → leb a a ≡ true
leb_refl a = ground arith

sub-leb : (a b : ℕ) → leb (a - b) a ≡ true
sub-leb a b = ground arith

mul_one_ℕ : (a : ℕ) → a * 1 ≡ a
mul_one_ℕ a = omega arith

zero_mul_ℕ : (a : ℕ) → 0 * a ≡ 0
zero_mul_ℕ a = omega arith

pub whole-IsOrdered : IsOrdered whole
whole-IsOrdered = record {
  le_of_not_lt = le_of_not_ltb;
  le_of_not_le = le_of_not_leb;
  le_of_lt = le_of_ltb;
  le_refl = leb_refl;
  le_trans = leb_trans;
  not_lt_of_le = not_ltb;
  lt_of_le_of_lt = ltb_of_leb_of_ltb;
  add_nonneg = λ a b h k. zero-leb (a + b);
  mul_nonneg = λ a b h k. zero-leb (a * b);
  sub_nonneg = λ a b h. zero-leb (a - b);
  sub-le = λ a b h. sub-leb a b;
  mul-one = mul_one_ℕ;
  zero-mul = zero_mul_ℕ;
}
