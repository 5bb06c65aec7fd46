-- ===== src/Generate/Ordering.antt =====
-- Sorting texts makes the order in which a Go map is ranged over irrelevant.
use mathlib.Core.List.{Permᴰ}
use gokalshi.Base.{
  ◌≡◌, refl, sym, ap, ◌∙◌, true, false, List, [], ◌∷◌, Text, text_eq, arith, Bool-cases, ◌⊎◌, inl,
  inr,
}
use gokalshi.Generate.Naming.{text_ltb, insert_text, sort_texts}

text_ltb_asym : (s t : Text) → text_ltb s t ≡ true → text_ltb t s ≡ false
unfolding text_ltb
text_ltb_asym s [] h = cc
text_ltb_asym [] (d ∷ t) h = refl
text_ltb_asym (c ∷ s) (d ∷ t) h = ground (arith, text_ltb_asym s t, h)

text_ltb_trans : (s t u : Text) → text_ltb s t ≡ true → text_ltb t u ≡ true → text_ltb s u ≡ true
unfolding text_ltb
text_ltb_trans s [] u h k = cc
text_ltb_trans s (d ∷ t) [] h k = cc
text_ltb_trans [] (d ∷ t) (e ∷ u) h k = refl
text_ltb_trans (c ∷ s) (d ∷ t) (e ∷ u) h k = ground (arith, text_ltb_trans s t u, h, k)

-- Two texts are equal, or one is less.
text_ltb_cases : (s t : Text) → (s ≡ t) ⊎ ((text_ltb s t ≡ true) ⊎ (text_ltb t s ≡ true))
unfolding text_ltb
text_ltb_cases [] [] = inl refl
text_ltb_cases [] (d ∷ t) = inr (inl refl)
text_ltb_cases (c ∷ s) [] = inr (inr refl)
text_ltb_cases (c ∷ s) (d ∷ t) = elim (text_ltb_cases s t) [
  | inl same ↦ rw same (ground (arith))
  | inr (inl less) ↦ ground (arith, less)
  | inr (inr more) ↦ ground (arith, more)
]

text_ltb_of_not : (z x y : Text) → text_ltb z y ≡ true → text_ltb z x ≡ false → text_ltb x y ≡ true
text_ltb_of_not z x y h k = elim (text_ltb_cases z x) [
  | inl same ↦ rw (← same) h
  | inr (inl less) ↦ cc
  | inr (inr more) ↦ text_ltb_trans x z y more h
]

-- For a text that is less than another.
insert_text-less :
    (x y : Text) (l : List Text)
    → text_ltb x y ≡ true
    → insert_text x (insert_text y l) ≡ insert_text y (insert_text x l)
unfolding insert_text
insert_text-less x y [] h = rw (h, text_ltb_asym x y h) refl
insert_text-less x y (z ∷ l) h = elim (Bool-cases (text_ltb z x)) [
  | inl below ↦
      rw (below, text_ltb_trans z x y below h, below)
        (ap (λ (r : List Text). z ∷ r) (insert_text-less x y l h))
  | inr above ↦ elim (Bool-cases (text_ltb z y)) [
    | inl between ↦ rw (above, between, h, above) refl
    | inr outside ↦ rw (above, outside, h, text_ltb_asym x y h) refl
  ]
]

insert_text_comm :
    (x y : Text) (l : List Text) → insert_text x (insert_text y l) ≡ insert_text y (insert_text x l)
insert_text_comm x y l = elim (text_ltb_cases x y) [
  | inl same ↦ rw same refl
  | inr (inl less) ↦ insert_text-less x y l less
  | inr (inr more) ↦ sym (insert_text-less y x l more)
]

-- Sorting forgets the order.
pub sort_texts-Permᴰ : {xs ys : List Text} → Permᴰ xs ys → sort_texts xs ≡ sort_texts ys
unfolding sort_texts
sort_texts-Permᴰ Permᴰ.nil = refl
sort_texts-Permᴰ (Permᴰ.cons {l₁ = l₁} {l₂ = l₂} e p) = rw (e, sort_texts-Permᴰ p) refl
sort_texts-Permᴰ (Permᴰ.swap {a = a} {b = b} {l = l} e f) =
    rw (← e, ← f) (insert_text_comm a b (sort_texts l))
sort_texts-Permᴰ (Permᴰ.trans p q) = sort_texts-Permᴰ p ∙ sort_texts-Permᴰ q
