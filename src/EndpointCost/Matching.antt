-- ===== src/EndpointCost/Matching.antt =====
-- What a route describes, as a relation between its segments and those of a request.
use mathlib.Core.Path.{ap₂}
use gokalshi.Base.{
  suc, ◌≤◌, ◌≡◌, ◌↔◌, refl, true, false, inl, inr, List, [], ◌∷◌, arith, Bool-cases, Text, text_eq,
  text_eqb_iff, length, if◌then◌else◌,
}
use gokalshi.EndpointCost.{
  is_path_placeholder, is_trailing_wildcard, segments_match, count_literals,
}

-- A literal segment stands for itself, a placeholder for any one segment, and a wildcard for all
-- the segments that are left, of which there is one at least.
pub data Describes : List Text → List Text → Type 0 where
  ends : Describes [] []
  swallows :
      {want segment : Text} {pattern actual : List Text}
      → is_trailing_wildcard want ≡ true
      → Describes (want ∷ pattern) (segment ∷ actual)
  stands_for :
      {want segment : Text} {pattern actual : List Text}
      → is_trailing_wildcard want ≡ false
      → is_path_placeholder want ≡ true
      → Describes pattern actual
      → Describes (want ∷ pattern) (segment ∷ actual)
  same :
      {want segment : Text} {pattern actual : List Text}
      → is_trailing_wildcard want ≡ false
      → is_path_placeholder want ≡ false
      → want ≡ segment
      → Describes pattern actual
      → Describes (want ∷ pattern) (segment ∷ actual)

sound :
    (pattern actual : List Text) → segments_match pattern actual ≡ true → Describes pattern actual
unfolding segments_match
sound [] [] h = ends
sound [] (a ∷ actual) h = cc
sound (want ∷ pattern) [] h = cc
sound (want ∷ pattern) (a ∷ actual) h = elim (Bool-cases (is_trailing_wildcard want)) [
  | inl wild ↦ swallows wild
  | inr tame ↦ elim (Bool-cases (is_path_placeholder want)) [
    | inl marked ↦ stands_for tame marked (sound pattern actual (ground arith))
    | inr literal ↦
        same tame literal (ground (arith, text_eqb_iff want a))
          (sound pattern actual (ground arith))
  ]
]

complete :
    {pattern actual : List Text} → Describes pattern actual → segments_match pattern actual ≡ true
unfolding segments_match
complete ends = refl
complete (swallows wild) = rw wild
complete (stands_for tame marked d) = rw (tame, marked) (complete d)
complete (same {want = want} {segment = a} tame literal e d) =
    rw (tame, literal, (text_eqb_iff want a).1 e) (complete d)

-- The loop over the segments accepts exactly the paths that the pattern describes: a literal
-- segment stands for itself, a placeholder for any one segment, and a wildcard for all the segments
-- that are left, of which there is one at least.
pub segments_match-Describes :
    (pattern actual : List Text) → (segments_match pattern actual ≡ true) ↔ Describes pattern actual
segments_match-Describes pattern actual = (sound pattern actual, complete)

-- No placeholder at all.
abbrev pub IsLiteral : List Text → Type 0
IsLiteral [] = Unit
IsLiteral (seg ∷ segs) = (is_path_placeholder seg ≡ false) × IsLiteral segs

-- A wildcard stands at the end, if there is one.
abbrev pub HasFinalWildcard : List Text → Type 0
HasFinalWildcard [] = Unit
HasFinalWildcard (seg ∷ []) = Unit
HasFinalWildcard (seg ∷ next ∷ segs) =
    (is_trailing_wildcard seg ≡ false) × HasFinalWildcard (next ∷ segs)

-- A wildcard is a placeholder too.
wildcard-is_placeholder :
    (seg : Text) → is_trailing_wildcard seg ≡ true → is_path_placeholder seg ≡ true
unfolding is_trailing_wildcard is_path_placeholder
wildcard-is_placeholder [] h = cc
wildcard-is_placeholder (c ∷ s) h = ground arith

count_literals-cons :
    (seg : Text) (segs : List Text)
    → count_literals (seg ∷ segs)
      ≡ (if is_path_placeholder seg then count_literals segs else suc (count_literals segs))
unfolding count_literals
count_literals-cons seg segs = ground arith

count_literals-last :
    (want : Text) (pattern : List Text)
    → is_trailing_wildcard want ≡ true
    → HasFinalWildcard (want ∷ pattern)
    → count_literals (want ∷ pattern) ≡ 0
unfolding count_literals
count_literals-last want [] wild f = ground (arith, wildcard-is_placeholder want wild)
count_literals-last want (next ∷ pattern) wild f = cc (f.0)

HasFinalWildcard-tail :
    (want : Text) (pattern : List Text)
    → HasFinalWildcard (want ∷ pattern)
    → HasFinalWildcard pattern
HasFinalWildcard-tail want [] f = tt
HasFinalWildcard-tail want (next ∷ pattern) f = f.1

-- A request has at least as many segments as a route that describes it has literals.
count_literals-le :
    {pattern actual : List Text}
    → Describes pattern actual
    → HasFinalWildcard pattern
    → count_literals pattern ≤ length actual
unfolding count_literals
count_literals-le ends f = omega arith
count_literals-le (swallows {want = w} {pattern = p} wild) f =
    omega (arith, count_literals-last w p wild f)
count_literals-le (stands_for {want = w} {pattern = p} tame marked d) f =
    ground
      (arith, count_literals-cons w p, marked, count_literals-le d (HasFinalWildcard-tail w p f))
count_literals-le (same {want = w} {pattern = p} tame literal e d) f =
    ground
      (arith, count_literals-cons w p, literal, count_literals-le d (HasFinalWildcard-tail w p f))

-- If it has as many literals, it is the request's path itself.
pub Describes-literal :
    {pattern actual : List Text}
    → Describes pattern actual
    → HasFinalWildcard pattern
    → length actual ≤ count_literals pattern
    → pattern ≡ actual
Describes-literal ends f h = refl
Describes-literal (swallows {want = w} {pattern = p} wild) f h =
    absurd (omega (arith, count_literals-last w p wild f))
Describes-literal (stands_for {want = w} {pattern = p} tame marked d) f h =
    let g = HasFinalWildcard-tail w p f in
    let fewer : count_literals (w ∷ p) ≡ count_literals p =
      ground (arith, count_literals-cons w p, marked) in
    absurd (omega (arith, fewer, count_literals-le d g))
Describes-literal (same {want = w} {pattern = p} tame literal e d) f h =
    let more : count_literals (w ∷ p) ≡ suc (count_literals p) =
      ground (arith, count_literals-cons w p, literal) in
    let rest = Describes-literal d (HasFinalWildcard-tail w p f) (omega (arith, more)) in
    ap₂ ◌∷◌ e rest

-- A literal route that describes a request is the request's path, and has as many literals.
pub IsLiteral-Describes :
    {pattern actual : List Text}
    → Describes pattern actual
    → IsLiteral pattern
    → (pattern ≡ actual) × (count_literals pattern ≡ length actual)
unfolding count_literals
IsLiteral-Describes ends l = (refl, refl)
IsLiteral-Describes (swallows {want = w} wild) l = cc (wildcard-is_placeholder w wild, l.0)
IsLiteral-Describes (stands_for tame marked d) l = cc (marked, l.0)
IsLiteral-Describes (same {want = w} {pattern = p} tame literal e d) l =
    let (rest, count) = IsLiteral-Describes d l.1 in
    (ap₂ ◌∷◌ e rest, ground (arith, count_literals-cons w p, literal, count))
