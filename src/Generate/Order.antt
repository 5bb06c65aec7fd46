-- ===== src/Generate/Order.antt =====
-- Lists without repetitions, lists in which names follow their dependencies, and the names left to
-- visit.
use gokalshi.Base.{
  ℕ, ◌<◌, ◌≤◌, ◌≡◌, refl, true, false, ◌||◌, not, List, [], ◌∷◌, ◌++◌, length, contains, put, keep,
  ◌==◌, Text, text_eq, text_eqb_iff, All, arith, Bool-cases, inl, inr, contains-append,
  contains-put,
}

-- No name twice.
abbrev pub Distinct : List Text → Type 0
Distinct [] = Unit
Distinct (x ∷ xs) = (contains x xs ≡ false) × Distinct xs

pub Distinct-append :
    (xs : List Text) (y : Text) → Distinct xs → contains y xs ≡ false → Distinct (xs ++ y ∷ [])
Distinct-append [] y d h = (refl, tt)
Distinct-append (x ∷ xs) y d h = (
  ground (arith, d.0, h, contains-append x xs (y ∷ []), text_eqb_iff x y, text_eqb_iff y x),
  Distinct-append xs y d.1 (ground (arith, h)),
)

-- Every name comes after its dependencies, if the names of `seen` come first.
abbrev pub Follows : (Text → List Text) → List Text → List Text → Type 0
Follows deps seen [] = Unit
Follows deps seen (x ∷ xs) = All (λ d. contains d seen ≡ true) (deps x) × Follows deps (x ∷ seen) xs

pub All-map {ℓ κ} :
    {P : Text → Type ℓ} {Q : Text → Type κ} (ds : List Text)
    → ((d : Text) → P d → Q d)
    → All P ds
    → All Q ds
All-map [] h a = tt
All-map (d ∷ ds) h a = (h d a.0, All-map ds h a.1)

pub Follows-append :
    (deps : Text → List Text) (seen xs : List Text) (y : Text)
    → Follows deps seen xs
    → All (λ d. (contains d seen || contains d xs) ≡ true) (deps y)
    → Follows deps seen (xs ++ y ∷ [])
Follows-append deps seen [] y f a = (All-map (deps y) (λ d h. ground (arith, h)) a, tt)
Follows-append deps seen (x ∷ xs) y f a =
    (f.0, Follows-append deps (x ∷ seen) xs y f.1 (All-map (deps y) (λ d h. ground (arith, h)) a))

-- The names that `visit` may still enter.
unfoldable pub missing : List Text → List Text → ℕ
missing names visiting = length (keep (λ n. not (contains n visiting)) names)

pub missing-ext :
    (names v w : List Text)
    → ((x : Text) → contains x v ≡ contains x w)
    → missing names v ≡ missing names w
unfolding missing
missing-ext [] v w same = refl
missing-ext (n ∷ names) v w same = ground (arith, same n, missing-ext names v w same)

pub missing-put_le :
    (names v : List Text) (name : Text) → missing names (put name v) ≤ missing names v
unfolding missing
missing-put_le [] v name = omega arith
missing-put_le (n ∷ names) v name =
    ground (arith, contains-put n name v, missing-put_le names v name)

pub missing-put :
    (names v : List Text) (name : Text)
    → contains name names ≡ true
    → contains name v ≡ false
    → missing names (put name v) < missing names v
unfolding missing
missing-put [] v name h fresh = cc
missing-put (n ∷ names) v name h fresh = elim (Bool-cases (n == name)) [
  | inl eq ↦
      let same : n ≡ name = (text_eqb_iff n name).0 eq in
      rw same (
        ground (
          arith,
          contains-put name name v,
          missing-put_le names v name,
          fresh,
          text_eqb_iff name name,
        ))
  | inr ne ↦ ground (
    arith,
    contains-put n name v,
    missing-put names v name,
    ne,
    h,
    text_eqb_iff n name,
    text_eqb_iff name n,
  )
]

pub All-contains {κ} :
    (P : Text → Type κ) (x : Text) (xs : List Text) → All P xs → contains x xs ≡ true → P x
All-contains P x [] a h = cc
All-contains P x (y ∷ ys) a h = elim (Bool-cases (y == x)) [
  | inl eq ↦ rw (← (text_eqb_iff y x).0 eq) a.0
  | inr ne ↦ All-contains P x ys a.1 (ground (arith, h, ne))
]

pub All-and {ℓ κ} :
    (P : Text → Type ℓ) (Q : Text → Type κ) (ds : List Text)
    → All P ds
    → All Q ds
    → All (λ d. P d × Q d) ds
All-and P Q [] a b = tt
All-and P Q (d ∷ ds) a b = ((a.0, b.0), All-and P Q ds a.1 b.1)
