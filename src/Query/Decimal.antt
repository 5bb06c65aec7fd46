-- ===== src/Query/Decimal.antt =====
-- Reading back the integers that package strconv prints for query.go.
use mathlib.Core.Option
use gokalshi.Base.{
  ℕ, zero, suc, ◌+◌, ◌-◌, ◌*◌, ◌/◌, ◌%◌, ◌<◌, ◌≡◌, refl, ap, ◌∙◌, ℤ, pos, negsuc, Bool, true, false,
  ◌&&◌, Option, none, some, [], ◌∷◌, if◌then◌else◌, ltb, leb, nat_eqb, Text, arith, Bool-cases, inl,
  inr,
}
use gokalshi.Query.{digits, decimal, itoa}

abbrev pub is_digit : ℕ → Bool
is_digit c = leb b'0' c && leb c b'9'

-- The number that the digits spell behind `n`.
unfoldable pub scan : ℕ → Text → Option ℕ
scan n [] = some n
scan n (c ∷ s) = let rest = scan (n * 10 + (c - b'0')) s in if is_digit c then rest else none

abbrev pub negated : ℕ → ℤ
negated zero = pos 0
negated (suc n) = negsuc n

unfoldable pub read_int : Text → Option ℤ
read_int [] = none
read_int (c ∷ s) =
    if nat_eqb c b'-' then Option.map negated (scan 0 s) else Option.map pos (scan 0 (c ∷ s))

scan-digits : (fuel n : ℕ) (out : Text) → n < fuel → scan 0 (digits fuel n out) ≡ scan n out
unfolding scan digits
scan-digits zero n out h = absurd (omega arith)
scan-digits (suc fuel) n out h = ground (arith, scan-digits fuel (n / 10) ((b'0' + n % 10) ∷ out))

-- The first digit.
record StartsWithDigit (t : Text) : Type 0 where
  first : ℕ
  rest : Text
  same : t ≡ first ∷ rest
  digit : is_digit first ≡ true

digits-StartsWithDigit : (fuel n : ℕ) (out : Text) → n < fuel → StartsWithDigit (digits fuel n out)
unfolding digits
digits-StartsWithDigit zero n out h = absurd (omega arith)
digits-StartsWithDigit (suc fuel) n out h = elim (Bool-cases (ltb n 10)) [
  | inl low ↦ rw low (record { first = b'0' + n; rest = out; same = refl; digit = ground arith })
  | inr high ↦ rw high (digits-StartsWithDigit fuel (n / 10) ((b'0' + n % 10) ∷ out) (ground arith))
]

scan-decimal : (n : ℕ) → scan 0 (decimal n) ≡ some n
unfolding decimal scan
scan-decimal n = scan-digits (suc n) n [] (omega arith)

decimal-StartsWithDigit : (n : ℕ) → StartsWithDigit (decimal n)
unfolding decimal
decimal-StartsWithDigit n = digits-StartsWithDigit (suc n) n [] (omega arith)

read_int_digit : (t : Text) → StartsWithDigit t → read_int t ≡ Option.map pos (scan 0 t)
unfolding read_int
read_int_digit t d =
    rw d.same (let other : nat_eqb d.first b'-' ≡ false = ground (arith, d.digit) in rw other refl)

-- Any integer.
pub read_int-itoa : (z : ℤ) → read_int (itoa z) ≡ some z
unfolding itoa read_int
read_int-itoa (pos n) =
    read_int_digit (decimal n) (decimal-StartsWithDigit n) ∙ ap (Option.map pos) (scan-decimal n)
read_int-itoa (negsuc n) = ap (Option.map negated) (scan-decimal (suc n))
