-- ===== src/Query.antt =====
-- query.go: the builder of query parameters. A chain of its methods is a list of settings, applied in
-- order; the integers are printed as package strconv prints them.
pub mod Decimal
pub mod Build
mod Tests
use gokalshi.Base.{
  ℕ, zero, suc, ◌+◌, ◌-◌, ◌*◌, ◌/◌, ◌%◌, ℤ, pos, negsuc, Bool, true, false, ◌&&◌, Option, none,
  some, List, [], ◌∷◌, if◌then◌else◌, is_empty, ltb, leb, ltb_ℤ, Text, codes, text_eq, Map, insert,
}

-- The digits of `n` in front of a text, with more fuel than `n`.
unfoldable pub digits : ℕ → ℕ → Text → Text
digits zero n out = out
digits (suc fuel) n out =
    let more = digits fuel (n / 10) ((b'0' + n % 10) ∷ out) in
    if ltb n 10 then (b'0' + n) ∷ out else more

unfoldable pub decimal : ℕ → Text
unfolding digits
decimal n = digits (suc n) n []

-- `strconv.Itoa` and `strconv.FormatInt` to base 10.
unfoldable pub itoa : ℤ → Text
unfolding decimal
itoa (pos n) = decimal n
itoa (negsuc n) = b'-' ∷ decimal (suc n)

-- The methods of the builder, on its map.
unfoldable pub set_string : Text → Text → Map Text Text → Map Text Text
set_string key val m = if is_empty val then m else insert key val m

unfoldable pub set_int_ptr : Text → Option ℤ → Map Text Text → Map Text Text
set_int_ptr key none m = m
set_int_ptr key (some val) m = insert key (itoa val) m

unfoldable pub set_int : Text → ℤ → Map Text Text → Map Text Text
set_int key val m = if ltb_ℤ (pos 0) val then insert key (itoa val) m else m

unfoldable pub set_int64 : Text → ℤ → Map Text Text → Map Text Text
set_int64 key val m = if ltb_ℤ (pos 0) val then insert key (itoa val) m else m

unfoldable pub set_bool : Text → Bool → Map Text Text → Map Text Text
set_bool key val m = if val then insert key (codes "true") m else m

-- A call of one of the methods.
pub data Setting : Type 0 where
  string_param : Text → Text → Setting
  int_ptr_param : Text → Option ℤ → Setting
  int_param : Text → ℤ → Setting
  int64_param : Text → ℤ → Setting
  bool_param : Text → Bool → Setting

unfoldable pub set_param : Setting → Map Text Text → Map Text Text
unfolding set_string set_int_ptr set_int set_int64 set_bool
set_param (string_param key val) m = set_string key val m
set_param (int_ptr_param key val) m = set_int_ptr key val m
set_param (int_param key val) m = set_int key val m
set_param (int64_param key val) m = set_int64 key val m
set_param (bool_param key val) m = set_bool key val m

unfoldable pub set_all : List Setting → Map Text Text → Map Text Text
unfolding set_param
set_all [] m = m
set_all (s ∷ ss) m = set_all ss (set_param s m)

-- `NewQuery()`, the chain and `Build()`.
unfoldable pub build_query : List Setting → Map Text Text
unfolding set_all
build_query ss = set_all ss []
