-- ===== src/Query/Tests.antt =====
-- Runs of the builder of query.go at concrete inputs.
use gokalshi.Base.{
  ◌≡◌, refl, pos, negsuc, none, some, true, text_eq, List, [], ◌∷◌, codes, text_eqb, lookup, insert,
}
use gokalshi.Query.{
  digits, decimal, itoa, Setting, string_param, int_ptr_param, int_param, bool_param, build_query,
  set_all, set_param,
}
use gokalshi.Query.Decimal.{scan, read_int}
use gokalshi.Query.Build.{says, lookup-build_query}

itoa_tests :
    (itoa (negsuc 0) ≡ codes "-1") × (itoa (pos 0) ≡ codes "0") × (itoa (pos 1205) ≡ codes "1205")
unfolding itoa decimal digits
itoa_tests = (refl, refl, refl)

read_int_tests : (read_int (codes "-12") ≡ some (negsuc 11)) × (read_int (codes "x") ≡ none)
unfolding read_int scan
read_int_tests = (refl, refl)

abbrev settings : List Setting
settings =
    string_param (codes "cursor") []
    ∷ int_param (codes "limit") (pos 0)
    ∷ int_ptr_param (codes "index") (some (pos 0))
    ∷ bool_param (codes "all") true
    ∷ int_ptr_param (codes "index") (some (negsuc 0))
    ∷ []

build_query_test :
    build_query settings ≡ (codes "index", codes "-1") ∷ (codes "all", codes "true") ∷ []
unfolding build_query set_all set_param insert text_eqb itoa decimal digits
build_query_test = refl

lookup-build_query_example :
    lookup (codes "index") (build_query settings) ≡ says (codes "index") settings none
lookup-build_query_example = lookup-build_query (codes "index") settings
