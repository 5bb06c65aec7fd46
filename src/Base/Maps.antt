-- ===== src/Base/Maps.antt =====
-- Go's maps as association lists: a lookup, the assignment `m[k] = v` and `delete(m, k)`. What the
-- code does in the map's iteration order is stated for any order where it matters.
use mathlib.Core.Path.{◌≡◌, refl}
use mathlib.Core.Option.{Option, none, some}
use mathlib.Core.List.{List, [], ◌∷◌}
use native.Mathlib.Omega.{arith}
use gokalshi.Base.Tests.{Eq, ◌==◌, if◌then◌else◌}

abbrev pub Map {ℓ κ} : Type ℓ → Type κ → Type (ℓ ⊔ κ)
Map K V = List (K × V)

module _ {ℓ κ} {K : Type ℓ} {V : Type κ} ⦃e : Eq K⦄ where
  unfoldable pub lookup : K → Map K V → Option V
  lookup key [] = none
  lookup key ((first, value) ∷ rest) = if first == key then some value else lookup key rest

  unfoldable pub insert : K → V → Map K V → Map K V
  insert key new [] = (key, new) ∷ []
  insert key new ((first, value) ∷ rest) =
      if first == key then (key, new) ∷ rest else (first, value) ∷ insert key new rest

  unfoldable pub delete : K → Map K V → Map K V
  delete key [] = []
  delete key ((first, value) ∷ rest) =
      let left = delete key rest in if first == key then left else (first, value) ∷ left

  pub lookup-insert :
      (key other : K) (new : V) (m : Map K V)
      → lookup other (insert key new m) ≡ (if key == other then some new else lookup other m)
  unfolding lookup insert
  lookup-insert key other new [] = refl
  lookup-insert key other new ((first, value) ∷ rest) = ground (
    arith,
    e.same_iff key other,
    e.same_iff first key,
    e.same_iff first other,
    lookup-insert key other new rest,
  )

  pub lookup-delete :
      (key other : K) (m : Map K V)
      → lookup other (delete key m) ≡ (if key == other then none else lookup other m)
  unfolding lookup delete
  lookup-delete key other [] = ground arith
  lookup-delete key other ((first, value) ∷ rest) = ground (
    arith,
    e.same_iff key other,
    e.same_iff first key,
    e.same_iff first other,
    lookup-delete key other rest,
  )
