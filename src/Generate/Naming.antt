-- ===== src/Generate/Naming.antt =====
-- The names and comments of the Go types: functions on texts of tools/generate_types/main.go.
use mathlib.Core.List.{reverse}
use gokalshi.Base.{
  ℕ, Bool, true, false, ◌&&◌, ◌||◌, not, List, [], ◌∷◌, ◌++◌, map, if◌then◌else◌, is_empty, ltb,
  leb, nat_eqb, Text, codes, text_eq, contains, has_prefix, has_suffix, to_upper, split,
}

-- Go's `<` on strings.
unfoldable pub text_ltb : Text → Text → Bool
text_ltb s [] = false
text_ltb [] (d ∷ t) = true
text_ltb (c ∷ s) (d ∷ t) = let rest = text_ltb s t in if nat_eqb c d then rest else ltb c d

unfoldable pub insert_text : Text → List Text → List Text
unfolding text_ltb
insert_text s [] = s ∷ []
insert_text s (t ∷ ts) =
    let rest = insert_text s ts in if text_ltb t s then t ∷ rest else s ∷ t ∷ ts

-- `sort.Strings`.
unfoldable pub sort_texts : List Text → List Text
unfolding insert_text
sort_texts [] = []
sort_texts (s ∷ ss) = insert_text s (sort_texts ss)

abbrev pub skip_prefixes : List Text
skip_prefixes = []

unfoldable pub has_any_prefix : List Text → Text → Bool
has_any_prefix [] name = false
has_any_prefix (p ∷ ps) name = has_prefix p name || has_any_prefix ps name

unfoldable pub should_skip : Text → Bool
unfolding has_any_prefix
should_skip name = has_any_prefix skip_prefixes name

unfoldable pub is_parameter_schema : Text → Bool
is_parameter_schema name = has_suffix (codes "Query") name || has_suffix (codes "Path") name

-- The first byte in upper case.
abbrev pub capitalized : Text → Text
capitalized [] = []
capitalized (c ∷ s) = to_upper (c ∷ []) ++ s

abbrev pub abbreviations : List Text
abbreviations =
    map codes
      ("ID" ∷ "URL" ∷ "API" ∷ "FP" ∷ "TS" ∷ "IP" ∷ "RFQ" ∷ "FCM" ∷ "MVE" ∷ "OHLC" ∷ "STP" ∷ [])

unfoldable pub go_word : Text → Text
go_word part = if contains (to_upper part) abbreviations then to_upper part else capitalized part

unfoldable pub concat_map : (Text → Text) → List Text → Text
concat_map f [] = []
concat_map f (part ∷ parts) = (if is_empty part then [] else f part) ++ concat_map f parts

unfoldable pub to_go_field_name : Text → Text
unfolding concat_map go_word
to_go_field_name s = concat_map go_word (split b'_' s)

unfoldable pub enum_const_name : Text → Text → Text
unfolding concat_map
enum_const_name type_name value =
    let clean = map (λ c. if nat_eqb c b'-' || nat_eqb c b' ' then b'_' else c) value in
    type_name ++ concat_map capitalized (split b'_' clean)

-- What `strings.TrimSpace` trims of ASCII, and what `\\s` matches.
abbrev is_space : ℕ → Bool
is_space c = nat_eqb c 32 || (leb 9 c && leb c 13)

abbrev is_blank : ℕ → Bool
is_blank c = is_space c && not (nat_eqb c 11)

unfoldable pub drop_while : (ℕ → Bool) → Text → Text
drop_while p [] = []
drop_while p (c ∷ s) = let rest = drop_while p s in if p c then rest else c ∷ s

unfoldable pub trim_space : Text → Text
unfolding drop_while
trim_space s = reverse (drop_while is_space (reverse (drop_while is_space s)))

unfoldable pub first_line : Text → Text
first_line [] = []
first_line (c ∷ s) = let rest = first_line s in if nat_eqb c 10 then [] else c ∷ rest

-- Each run of blanks is one space; `after` tells whether one was just written.
unfoldable pub collapse : Bool → Text → Text
collapse after [] = []
collapse after (c ∷ s) =
    let blank = collapse true s in
    let other = collapse false s in
    if is_blank c then (if after then blank else b' ' ∷ blank) else c ∷ other

unfoldable pub clean_description : Text → Text
unfolding trim_space first_line drop_while collapse
clean_description s =
    let line = trim_space (first_line (trim_space s)) in
    collapse false (drop_while (λ c. nat_eqb c b'#' || nat_eqb c b' ') line)
