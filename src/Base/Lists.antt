-- ===== src/Base/Lists.antt =====
-- Lists over the native numbers, predicates on their elements, and a Go set as a list.
use Prim.Native.Nat.{ℕ, suc, ◌+◌}
use mathlib.Core.Path.{◌≡◌, refl, ap}
use mathlib.Core.Logic.{inl, inr}
use mathlib.Core.Bool.{Bool, true, false, ◌||◌, not, ◌&&◌}
use mathlib.Core.List.{List, [], ◌∷◌, ◌++◌}
use native.Mathlib.Omega.{arith}
use gokalshi.Base.Tests.{Eq, ◌==◌, if◌then◌else◌, Bool-cases}

module _ {ℓ} {A : Type ℓ} where
  abbrev pub length : List A → ℕ
  length [] = 0
  length (x ∷ xs) = suc (length xs)

  pub length-append : (xs ys : List A) → length (xs ++ ys) ≡ length xs + length ys
  length-append [] ys = omega arith
  length-append (x ∷ xs) ys = omega (arith, length-append xs ys)

  -- `len(xs) == 0`.
  abbrev pub is_empty : List A → Bool
  is_empty [] = true
  is_empty (x ∷ xs) = false

  -- The elements that pass a test, in order.
  abbrev pub keep : (A → Bool) → List A → List A
  keep p [] = []
  keep p (x ∷ xs) = let rest = keep p xs in if p x then x ∷ rest else rest

  abbrev pub all : (A → Bool) → List A → Bool
  all p [] = true
  all p (x ∷ xs) = p x && all p xs

module _ {ℓ κ} {A : Type ℓ} (P : A → Type κ) where
  abbrev pub All : List A → Type κ
  All [] = Unit
  All (x ∷ xs) = P x × All xs

  pub All-append : (xs ys : List A) → All xs → All ys → All (xs ++ ys)
  All-append [] ys h k = k
  All-append (x ∷ xs) ys (p, h) k = (p, All-append xs ys h k)

-- A `map[string]struct{}`: the keys that were put in, each once.
module _ {ℓ} {A : Type ℓ} ⦃e : Eq A⦄ where
  abbrev pub contains : A → List A → Bool
  contains a [] = false
  contains a (x ∷ xs) = x == a || contains a xs

  unfoldable pub put : A → List A → List A
  put a xs = if contains a xs then xs else xs ++ a ∷ []

  unfoldable pub drop_key : A → List A → List A
  drop_key a xs = keep (λ x. not (x == a)) xs

  pub contains-append :
      (a : A) (xs ys : List A) → contains a (xs ++ ys) ≡ (contains a xs || contains a ys)
  contains-append a [] ys = refl
  contains-append a (x ∷ xs) ys = ground (arith, contains-append a xs ys)

  pub contains-put : (a b : A) (xs : List A) → contains a (put b xs) ≡ (b == a || contains a xs)
  unfolding put
  contains-put a b xs = elim (Bool-cases (contains b xs)) [
    | inl h ↦ rw h (elim (Bool-cases (b == a)) [
      | inr ne ↦ rw ne
      | inl eq ↦ rw eq (rw (← (e.same_iff b a).0 eq) h)
    ])
    | inr h ↦ rw h (ground (arith, contains-append a xs (b ∷ [])))
  ]

  pub contains-keep :
      (p : A → Bool) (a : A) (xs : List A) → contains a (keep p xs) ≡ (p a && contains a xs)
  contains-keep p a [] = ground arith
  contains-keep p a (x ∷ xs) = elim (Bool-cases (x == a)) [
    | inl eq ↦ let same = (e.same_iff x a).0 eq in ground (arith, contains-keep p a xs, ap p same)
    | inr ne ↦ ground (arith, contains-keep p a xs)
  ]

  pub contains-drop_key :
      (a b : A) (xs : List A) → contains a (drop_key b xs) ≡ (not (a == b) && contains a xs)
  unfolding drop_key
  contains-drop_key a b xs = contains-keep (λ x. not (x == b)) a xs
