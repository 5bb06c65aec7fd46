-- ===== src/EndpointCost/Paths.antt =====
-- Splitting a path into its segments, and putting segments together.
use mathlib.Core.List.{append_assoc, reverse, reverse-append, reverse-reverse}
use gokalshi.Base.{
  ℕ, ◌≡◌, ◌≢◌, refl, sym, ap, ◌∙◌, inl, inr, List, [], ◌∷◌, ◌++◌, arith, Bool-cases, Text, nat_eqb,
  nat_eqb_iff, if◌then◌else◌, All, is_empty, trim, drop_left, split, push_front, join,
}
use gokalshi.EndpointCost.{split_path}

-- The byte does not occur.
abbrev pub Lacks : ℕ → Text → Type 0
Lacks sep [] = Unit
Lacks sep (c ∷ s) = (c ≢ sep) × Lacks sep s

push_front-Lacks :
    (sep c : ℕ) (parts : List Text)
    → c ≢ sep
    → All (Lacks sep) parts
    → All (Lacks sep) (push_front c parts)
unfolding push_front
push_front-Lacks sep c [] h l = ((h, tt), tt)
push_front-Lacks sep c (part ∷ parts) h l = ((h, l.0), l.1)

split-Lacks : (sep : ℕ) (s : Text) → All (Lacks sep) (split sep s)
unfolding split
split-Lacks sep [] = (tt, tt)
split-Lacks sep (c ∷ s) = elim (Bool-cases (nat_eqb c sep)) [
  | inl e ↦ rw e (tt, split-Lacks sep s)
  | inr e ↦
      rw e (
        push_front-Lacks sep c (split sep s) (ground (arith, nat_eqb_iff c sep))
          (split-Lacks sep s))
]

-- `split` gives one part at least.
split-cons :
    (sep : ℕ) (s : Text) → (part : Text) × (parts : List Text) × (split sep s ≡ part ∷ parts)
unfolding split push_front
split-cons sep [] = ([], [], refl)
split-cons sep (c ∷ s) =
    let (part, parts, e) = split-cons sep s in
    elim (Bool-cases (nat_eqb c sep)) [
      | inl h ↦ ([], split sep s, rw h)
      | inr h ↦ (c ∷ part, parts, rw (h, e))
    ]

join-push_front :
    (sep c : ℕ) (part : Text) (parts : List Text)
    → join sep (push_front c (part ∷ parts)) ≡ c ∷ join sep (part ∷ parts)
unfolding join push_front
join-push_front sep c part [] = refl
join-push_front sep c part (next ∷ parts) = refl

join-nil :
    (sep : ℕ) (part : Text) (parts : List Text)
    → join sep ([] ∷ part ∷ parts) ≡ sep ∷ join sep (part ∷ parts)
unfolding join
join-nil sep part parts = refl

join-split : (sep : ℕ) (s : Text) → join sep (split sep s) ≡ s
unfolding split
join-split sep [] = unfold join in refl
join-split sep (c ∷ s) =
    let ih = join-split sep s in
    let (part, parts, e) = split-cons sep s in
    elim (Bool-cases (nat_eqb c sep)) [
      | inl h ↦
          rw (h, e)
            (join-nil sep part parts
              ∙ ap (λ (t : Text). sep ∷ t) (rw e at ih)
              ∙ ap (λ (x : ℕ). x ∷ s) (sym ((nat_eqb_iff c sep).0 h)))
      | inr h ↦ rw (h, e) (join-push_front sep c part parts ∙ ap (λ (t : Text). c ∷ t) (rw e at ih))
    ]

-- The segments of a path have no slash, and joined by slashes they are the path without the slashes
-- at its ends.
pub join-split_path :
    (path : Text)
    → All (Lacks b'/') (split_path path) × (join b'/' (split_path path) ≡ trim b'/' path)
unfolding split_path
join-split_path path = go (trim b'/' path)
  where
    go :
        (s : Text)
        → All (Lacks b'/') (if is_empty s then [] else split b'/' s)
          × (join b'/' (if is_empty s then [] else split b'/' s) ≡ s)
    go [] = (tt, unfold join in refl)
    go (c ∷ s) = (split-Lacks b'/' (c ∷ s), join-split b'/' (c ∷ s))

split-append :
    (sep : ℕ) (part s : Text) → Lacks sep part → split sep (part ++ sep ∷ s) ≡ part ∷ split sep s
unfolding split push_front
split-append sep [] s l = ground (arith, nat_eqb_iff sep sep)
split-append sep (c ∷ part) s l = ground (arith, nat_eqb_iff c sep, split-append sep part s l.1)

split_single : (sep : ℕ) (part : Text) → Lacks sep part → split sep part ≡ part ∷ []
unfolding split push_front
split_single sep [] l = refl
split_single sep (c ∷ part) l = ground (arith, nat_eqb_iff c sep, split_single sep part l.1)

split-join :
    (sep : ℕ) (part : Text) (parts : List Text)
    → All (Lacks sep) (part ∷ parts)
    → split sep (join sep (part ∷ parts)) ≡ part ∷ parts
unfolding join
split-join sep part [] l = split_single sep part l.0
split-join sep part (next ∷ parts) l =
    split-append sep part (join sep (next ∷ parts)) l.0
    ∙ ap (λ (ps : List Text). part ∷ ps) (split-join sep next parts l.1)

-- A segment of a path: not empty, and with no separator.
abbrev pub IsSegment : ℕ → Text → Type 0
IsSegment sep s = (s ≢ []) × Lacks sep s

-- The text ends in another byte than the separator.
record EndsWell (sep : ℕ) (s : Text) : Type 0 where
  init : Text
  last : ℕ
  whole : s ≡ init ++ last ∷ []
  other : last ≢ sep

EndsWell-append : (sep : ℕ) (p s : Text) → EndsWell sep s → EndsWell sep (p ++ s)
EndsWell-append sep p s w = record {
  init = p ++ w.init;
  last = w.last;
  whole = ap (λ (t : Text). p ++ t) w.whole ∙ sym (append_assoc p w.init (w.last ∷ []));
  other = w.other;
}

segment-EndsWell : (sep c : ℕ) (s : Text) → Lacks sep (c ∷ s) → EndsWell sep (c ∷ s)
segment-EndsWell sep c [] l = record { init = []; last = c; whole = refl; other = l.0 }
segment-EndsWell sep c (d ∷ s) l =
    EndsWell-append sep (c ∷ []) (d ∷ s) (segment-EndsWell sep d s l.1)

join-EndsWell :
    (sep : ℕ) (part : Text) (parts : List Text)
    → All (IsSegment sep) (part ∷ parts)
    → EndsWell sep (join sep (part ∷ parts))
unfolding join
join-EndsWell sep [] [] l = absurd (l.0.0 refl)
join-EndsWell sep (c ∷ part) [] l = segment-EndsWell sep c part l.0.1
join-EndsWell sep part (next ∷ parts) l =
    EndsWell-append sep part _ (EndsWell-append sep (sep ∷ []) _ (join-EndsWell sep next parts l.1))

drop_left_other : (sep c : ℕ) (s : Text) → c ≢ sep → drop_left sep (c ∷ s) ≡ c ∷ s
unfolding drop_left
drop_left_other sep c s h = ground (arith, nat_eqb_iff c sep)

drop_left_sep : (sep : ℕ) (s : Text) → drop_left sep (sep ∷ s) ≡ drop_left sep s
unfolding drop_left
drop_left_sep sep s = ground (arith, nat_eqb_iff sep sep)

-- From the right nothing is trimmed.
EndsWell-drop : (sep : ℕ) (s : Text) → EndsWell sep s → reverse (drop_left sep (reverse s)) ≡ s
EndsWell-drop sep s w =
    let turned : reverse s ≡ w.last ∷ reverse w.init =
      ap reverse w.whole ∙ reverse-append w.init (w.last ∷ []) in
    ap (λ (t : Text). reverse (drop_left sep t)) turned
    ∙ ap reverse (drop_left_other sep w.last (reverse w.init) w.other)
    ∙ ap reverse (sym turned)
    ∙ reverse-reverse s

-- The text begins with another byte than the separator.
join-drop :
    (sep : ℕ) (part : Text) (parts : List Text)
    → All (IsSegment sep) (part ∷ parts)
    → drop_left sep (join sep (part ∷ parts)) ≡ join sep (part ∷ parts)
unfolding join
join-drop sep [] parts l = absurd (l.0.0 refl)
join-drop sep (c ∷ part) [] l = drop_left_other sep c part l.0.1.0
join-drop sep (c ∷ part) (next ∷ parts) l = drop_left_other sep c _ l.0.1.0

All-Lacks : (sep : ℕ) (parts : List Text) → All (IsSegment sep) parts → All (Lacks sep) parts
All-Lacks sep [] l = tt
All-Lacks sep (part ∷ parts) l = (l.0.1, All-Lacks sep parts l.1)

trim-join :
    (sep : ℕ) (part : Text) (parts : List Text)
    → All (IsSegment sep) (part ∷ parts)
    → trim sep (sep ∷ join sep (part ∷ parts)) ≡ join sep (part ∷ parts)
unfolding trim
trim-join sep part parts l =
    ap (λ (t : Text). reverse (drop_left sep (reverse t)))
      (drop_left_sep sep (join sep (part ∷ parts)) ∙ join-drop sep part parts l)
    ∙ EndsWell-drop sep _ (join-EndsWell sep part parts l)

-- Segments that are not empty and have no slash, one at least, joined by slashes behind a slash,
-- split into these segments again.
pub split_path-join :
    (part : Text) (parts : List Text)
    → All (IsSegment b'/') (part ∷ parts)
    → split_path (b'/' ∷ join b'/' (part ∷ parts)) ≡ part ∷ parts
unfolding split_path
split_path-join part parts l =
    rw (trim-join b'/' part parts l)
      (ground (arith, split-join b'/' part parts (All-Lacks b'/' (part ∷ parts) l)))
