-- ===== src/Query/Build.antt =====
-- What the parameter maps of query.go hold, and how their values are read back.
use mathlib.Core.Option
use gokalshi.Base.{
  ◌≡◌, refl, ap, ◌∙◌, ℤ, pos, ltb_ℤ, Bool, true, false, Option, none, some, List, [], ◌∷◌,
  if◌then◌else◌, is_empty, Text, codes, text_eq, ◌==◌, Map, lookup, insert, lookup-insert, arith,
}
use gokalshi.Query.{
  itoa, set_string, set_int_ptr, set_int, set_int64, set_bool, Setting, string_param, int_ptr_param,
  int_param, int64_param, bool_param, set_param, set_all, build_query,
}
use gokalshi.Query.Decimal.{read_int}

abbrev pub key : Setting → Text
key (string_param k val) = k
key (int_ptr_param k val) = k
key (int_param k val) = k
key (int64_param k val) = k
key (bool_param k val) = k

-- The text that is sent for a setting: none for the empty text, for an integer that is not positive, for nil
-- and for false.
abbrev pub shown : Setting → Option Text
shown (string_param key val) = if is_empty val then none else some val
shown (int_ptr_param key val) = Option.map itoa val
shown (int_param key val) = if ltb_ℤ (pos 0) val then some (itoa val) else none
shown (int64_param key val) = if ltb_ℤ (pos 0) val then some (itoa val) else none
shown (bool_param key val) = if val then some (codes "true") else none

abbrev pub over : Option Text → Bool → Option Text → Option Text
over o false old = old
over none true old = old
over (some t) true old = some t

pub over-none : (o : Option Text) → over o true none ≡ o
over-none none = refl
over-none (some t) = refl

-- What a list of settings says of a key: the last text that is shown for it, or the old one.
unfoldable pub says : Text → List Setting → Option Text → Option Text
says k [] old = old
says k (s ∷ ss) old = says k ss (over (shown s) (key s == k) old)

-- One method of the builder.
insert_shown : Option Text → Text → Map Text Text → Map Text Text
insert_shown none k m = m
insert_shown (some t) k m = insert k t m

set_param-shown :
    (s : Setting) (m : Map Text Text) → set_param s m ≡ insert_shown (shown s) (key s) m
unfolding set_param set_string set_int_ptr set_int set_int64 set_bool insert_shown
set_param-shown (string_param k val) m = ground arith
set_param-shown (int_ptr_param k none) m = refl
set_param-shown (int_ptr_param k (some val)) m = refl
set_param-shown (int_param k val) m = ground arith
set_param-shown (int64_param k val) m = ground arith
set_param-shown (bool_param k val) m = ground arith

lookup-insert_shown :
    (o : Option Text) (j k : Text) (m : Map Text Text)
    → lookup k (insert_shown o j m) ≡ over o (j == k) (lookup k m)
unfolding insert_shown
lookup-insert_shown none j k m = elim (j == k) as (λ b. lookup k m ≡ over none b (lookup k m)) [
  | false ↦ refl
  | true ↦ refl
]
lookup-insert_shown (some t) j k m =
    lookup-insert j k t m
    ∙ elim (j == k) as (λ b. (if b then some t else lookup k m) ≡ over (some t) b (lookup k m)) [
      | false ↦ refl
      | true ↦ refl
    ]

lookup-set_all :
    (k : Text) (ss : List Setting) (m : Map Text Text)
    → lookup k (set_all ss m) ≡ says k ss (lookup k m)
unfolding set_all says
lookup-set_all k [] m = refl
lookup-set_all k (s ∷ ss) m =
    lookup-set_all k ss (set_param s m)
    ∙ ap (says k ss)
        (ap (lookup k) (set_param-shown s m) ∙ lookup-insert_shown (shown s) (key s) k m)

-- Looking a key up in the map that a chain of the builder's methods gives finds what the last
-- setting of that key with something to send says, and nothing if there is none. Nothing is sent
-- for an empty text, an `Int` or `Int64` that is not positive, a nil `IntPtr` and a false `Bool`.
pub lookup-build_query : (k : Text) (ss : List Setting) → lookup k (build_query ss) ≡ says k ss none
unfolding build_query lookup
lookup-build_query k ss = lookup-set_all k ss []

-- Reading a parameter.
abbrev pub text_at : Text → Map Text Text → Text
text_at k m = elim (lookup k m) [ none ↦ [] | some t ↦ t ]

abbrev pub int_ptr_at : Text → Map Text Text → Option ℤ
int_ptr_at k m = elim (lookup k m) [ none ↦ none | some t ↦ read_int t ]

abbrev pub int_at : Text → Map Text Text → ℤ
int_at k m = elim (int_ptr_at k m) [ none ↦ pos 0 | some z ↦ z ]

abbrev pub bool_at : Text → Map Text Text → Bool
bool_at k m = elim (lookup k m) [ none ↦ false | some t ↦ true ]
