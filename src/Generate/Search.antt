-- ===== src/Generate/Search.antt =====
-- What the depth-first search of `topologicalSort` gives: every name once, after what it depends on.
use gokalshi.Base.{
  ℕ, zero, suc, ◌<◌, ◌≡◌, refl, sym, ◌∙◌, true, false, ◌||◌, Option, some, List, [], ◌∷◌, contains,
  put, ◌==◌, Text, text_eq, text_eqb_iff, All, arith, Bool-cases, inl, inr, contains-append,
  contains-put, contains-drop_key,
}
use gokalshi.Generate.Topological.{Sorting, visit_each, enter, leave, visit}
use gokalshi.Generate.Order.{
  Distinct, Follows, Distinct-append, Follows-append, All-map, All-contains, All-and, missing,
  missing-ext, missing-put,
}

module _ (deps : Text → List Text) (names : List Text) where
  -- The order can be seen from a rank: nothing depends on itself, by however long a way.
  unfoldable pub IsAcyclic : (Text → ℕ) → Type 0
  IsAcyclic rank = All (λ n. All (λ d. rank d < rank n) (deps n)) names

  -- The name may still be entered, below all that is being visited.
  abbrev pub IsBelow : (Text → ℕ) → Text → Sorting → Type 0
  IsBelow rank name s = (x : Text) → contains x s.visiting ≡ true → rank name < rank x

  pub record IsSorting (s : Sorting) : Type 0 where
    pub same : (x : Text) → contains x s.visited ≡ contains x s.sorted
    pub once : Distinct s.sorted
    pub known : (x : Text) → contains x s.sorted ≡ true → contains x names ≡ true

  -- From one state to a later one: what is being visited is the same, and none of it has been finished.
  pub record Extends (s t : Sorting) : Type 0 where
    pub visiting : (x : Text) → contains x t.visiting ≡ contains x s.visiting
    pub stays : (x : Text) → contains x s.visited ≡ true → contains x t.visited ≡ true
    pub avoids :
        (x : Text)
        → contains x s.visiting ≡ true
        → contains x s.visited ≡ false
        → contains x t.visited ≡ false

  unfoldable pub IsDone : Text → Sorting → Sorting → Type 0
  IsDone name s t = (contains name t.visited || contains name s.visiting) ≡ true

  -- A search that ends.
  pub record Searched (s : Sorting) (o : Option Sorting) (met : List Text) : Type 0 where
    pub after : Sorting
    pub ends : o ≡ some after
    pub later : Extends s after
    pub ok : IsSorting after
    pub done : All (λ n. IsDone n s after) met
    pub follows :
        (rank : Text → ℕ)
        → IsAcyclic rank
        → All (λ n. IsBelow rank n s) met
        → Follows deps [] s.sorted
        → Follows deps [] after.sorted

  Extends-refl : (s : Sorting) → Extends s s
  Extends-refl s = record { visiting = λ x. refl; stays = λ x h. h; avoids = λ x h k. k }

  Extends-trans : {s t u : Sorting} → Extends s t → Extends t u → Extends s u
  Extends-trans p q = record {
    visiting = λ x. q.visiting x ∙ p.visiting x;
    stays = λ x h. q.stays x (p.stays x h);
    avoids = λ x h k. q.avoids x (p.visiting x ∙ h) (p.avoids x h k);
  }

  -- Nothing happens for a name that has been met.
  met_before :
      (name : Text) (s : Sorting)
      → IsSorting s
      → (contains name s.visited || contains name s.visiting) ≡ true
      → Searched s (some s) (name ∷ [])
  unfolding IsDone
  met_before name s ok h = record {
    after = s;
    ends = refl;
    later = Extends-refl s;
    ok = ok;
    done = (h, tt);
    follows = λ rank acyclic below f. f;
  }

  -- A search, and then the searches after it.
  Searched-chain :
      {s : Sorting} {o p q : Option Sorting} (n : Text) (ns : List Text)
      (first : Searched s o (n ∷ []))
      → Searched first.after p ns
      → q ≡ p
      → Searched s q (n ∷ ns)
  unfolding IsDone
  Searched-chain n ns first rest same = record {
    after = rest.after;
    ends = same ∙ rest.ends;
    later = Extends-trans first.later rest.later;
    ok = rest.ok;
    done = (
      ground (arith, first.done.0, rest.later.stays n),
      All-map ns (λ x h. ground (arith, h, first.later.visiting x)) rest.done,
    );
    follows = λ rank acyclic below f.
        rest.follows rank acyclic
          (All-map ns (λ x b y h. b y (sym (first.later.visiting y) ∙ h)) below.1)
          (first.follows rank acyclic (below.0, tt) f);
  }

  visit_each-some :
      (look : Text → Sorting → Option Sorting) (n : Text) (ns : List Text) (s t : Sorting)
      → look n s ≡ some t
      → visit_each look (n ∷ ns) s ≡ visit_each look ns t
  unfolding visit_each
  visit_each-some look n ns s t h = rw (visit_each, h) refl

  pub visit_each-Searched :
      (look : Text → Sorting → Option Sorting) (bound : ℕ)
      → ((n : Text) (s : Sorting)
          → contains n names ≡ true
          → IsSorting s
          → missing names s.visiting < bound
          → Searched s (look n s) (n ∷ []))
      → (ns : List Text) (s : Sorting) → All (λ n. contains n names ≡ true) ns
      → IsSorting s
      → missing names s.visiting < bound
      → Searched s (visit_each look ns s) ns
  unfolding visit_each
  visit_each-Searched look bound h [] s known ok small = record {
    after = s;
    ends = refl;
    later = Extends-refl s;
    ok = ok;
    done = tt;
    follows = λ rank acyclic below f. f;
  }
  visit_each-Searched look bound h (n ∷ ns) s known ok small =
      let first = h n s known.0 ok small in
      let room : missing names first.after.visiting < bound =
        omega
          (arith, missing-ext names first.after.visiting s.visiting first.later.visiting, small) in
      Searched-chain n ns first
        (visit_each-Searched look bound h ns first.after known.1 first.ok room)
        (visit_each-some look n ns s first.after first.ends)

  leave-Extends :
      (n : Text) (s t : Sorting)
      → contains n s.visiting ≡ false
      → Extends (enter n s) t
      → Extends s (leave n t)
  leave-Extends n s t fresh later = record {
    visiting = λ x. ground (
      arith,
      contains-drop_key x n t.visiting,
      later.visiting x,
      contains-put x n s.visiting,
      fresh,
      text_eqb_iff x n,
      text_eqb_iff n x,
    );
    stays = λ x h. ground (arith, contains-put x n t.visited, later.stays x, h);
    avoids = λ x h k. ground (
      arith,
      contains-put x n t.visited,
      contains-put x n s.visiting,
      later.avoids x,
      h,
      k,
      fresh,
      text_eqb_iff n x,
    );
  }

  leave-IsSorting :
      (n : Text) (t : Sorting)
      → contains n names ≡ true
      → contains n t.visited ≡ false
      → IsSorting t
      → IsSorting (leave n t)
  leave-IsSorting n t known fresh ok = record {
    same = λ x.
        ground (arith, contains-put x n t.visited, contains-append x t.sorted (n ∷ []), ok.same x);
    once = Distinct-append t.sorted n ok.once (sym (ok.same n) ∙ fresh);
    known = λ x h.
        ground (arith, contains-append x t.sorted (n ∷ []), ok.known x, known, h, text_eqb_iff n x);
  }

  -- What the name depends on is below it.
  deps-IsBelow :
      (rank : Text → ℕ) (n : Text) (s : Sorting)
      → contains n names ≡ true
      → IsAcyclic rank
      → IsBelow rank n s
      → All (λ d. IsBelow rank d (enter n s)) (deps n)
  unfolding IsAcyclic
  deps-IsBelow rank n s known acyclic below =
      All-map (deps n)
        (λ d lower x h. elim (Bool-cases (n == x)) [
          | inl eq ↦ rw (← (text_eqb_iff n x).0 eq) lower
          | inr ne ↦
              let under : rank n < rank x =
                below x (ground (arith, h, contains-put x n s.visiting, ne)) in
              omega (arith, under, lower)
        ])
        (All-contains (λ n. All (λ d. rank d < rank n) (deps n)) n names acyclic known)

  leave-Follows :
      (rank : Text → ℕ) (n : Text) (s t : Sorting)
      → contains n names ≡ true
      → IsAcyclic rank
      → IsBelow rank n s
      → ((x : Text) → contains x t.visited ≡ contains x t.sorted)
      → All (λ d. IsDone d (enter n s) t) (deps n)
      → Follows deps [] t.sorted
      → Follows deps [] (leave n t).sorted
  unfolding IsDone
  leave-Follows rank n s t known acyclic below same done f = Follows-append deps [] t.sorted n f (
      All-map (deps n)
        (λ d h. elim (Bool-cases (contains d t.sorted)) [
          | inl there ↦ there
          | inr not_there ↦
              let open_still : contains d (put n s.visiting) ≡ true =
                ground (arith, h.0, same d, not_there) in
              let above : rank d < rank d = h.1 d open_still in absurd (omega (arith, above))
        ])
        (All-and _ _ (deps n) done (deps-IsBelow rank n s known acyclic below)))

  leave-Searched :
      {o q : Option Sorting} (n : Text) (s : Sorting)
      → contains n names ≡ true
      → contains n s.visited ≡ false
      → contains n s.visiting ≡ false
      → (inner : Searched (enter n s) o (deps n)) → q ≡ some (leave n inner.after)
      → Searched s q (n ∷ [])
  unfolding IsDone
  leave-Searched n s known unvisited fresh inner same =
      let t = inner.after in
      let still : contains n t.visited ≡ false =
        inner.later.avoids n (ground (arith, contains-put n n s.visiting, text_eqb_iff n n))
          unvisited in
      record {
        after = leave n t;
        ends = same;
        later = leave-Extends n s t fresh inner.later;
        ok = leave-IsSorting n t known still inner.ok;
        done = (ground (arith, contains-put n n t.visited, text_eqb_iff n n), tt);
        follows = λ rank acyclic below f.
            leave-Follows rank n s t known acyclic below.0 inner.ok.same inner.done
              (inner.follows rank acyclic (deps-IsBelow rank n s known acyclic below.0) f);
      }

  pub visit-Searched :
      ((n : Text) → All (λ d. contains d names ≡ true) (deps n))
      → (fuel : ℕ) (n : Text) (s : Sorting) → contains n names ≡ true
      → IsSorting s
      → missing names s.visiting < fuel
      → Searched s (visit deps fuel n s) (n ∷ [])
  unfolding visit
  visit-Searched closed zero n s known ok small = absurd (omega (arith, small))
  visit-Searched closed (suc fuel) n s known ok small = elim (Bool-cases (contains n s.visited)) [
    | inl visited ↦ rw visited (met_before n s ok (ground (arith, visited)))
    | inr unvisited ↦ elim (Bool-cases (contains n s.visiting)) [
      | inl busy ↦ rw (unvisited, busy) (met_before n s ok (ground (arith, busy)))
      | inr fresh ↦
          let room : missing names (put n s.visiting) < fuel =
            omega (arith, missing-put names s.visiting n known fresh, small) in
          let entered : IsSorting (enter n s) = record {
            same = ok.same;
            once = ok.once;
            known = ok.known;
          } in
          let inner =
            visit_each-Searched (visit deps fuel) fuel (visit-Searched closed fuel) (deps n)
              (enter n s) (closed n) entered room in
          rw (unvisited, fresh)
            (leave-Searched n s known unvisited fresh inner (rw inner.ends refl))
    ]
  ]
