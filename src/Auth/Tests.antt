-- ===== src/Auth/Tests.antt =====
-- Runs of auth.go at concrete inputs, with keys that are numbers, and a digest and a signature that
-- are easy to see through.
use gokalshi.Base.{
  ◌↔◌, ℕ, pos, ◌≡◌, refl, sym, Bool, true, false, none, some, [], ◌∷◌, inl, inr, if◌then◌else◌,
  nat_eqb, nat_eqb_iff, text_eqb_iff, ◌&&◌, Text, codes, text_eqb, Map, arith,
}
use gokalshi.Query.{itoa, decimal, digits}
use gokalshi.Auth.{
  Crypto, Credentials, path_only, request_headers, sign_pss_text, load_credentials, new_credentials,
  credentials_in_file, key_in_file, load_credentials_from_pem,
}
use gokalshi.Auth.Loading.{accepted, Holding, from_file, load_credentials-load_credentials_from_pem}
use gokalshi.Auth.Signing.{IsPlain, accepts, request_headers-accepts}

-- A signature is the key in front of the digest. The file "k" holds a key for the second parser.
abbrev numbers : Crypto
numbers = record {
  K = ℕ;
  R = ℕ;
  random_reader = 0;
  read_file = λ path. if text_eqb path (codes "k") then inr (codes "P7") else inl (codes "no file");
  pem_decode = λ t. some t;
  parse_pkcs8 = λ t. inl (codes "bad");
  parse_pkcs1 = λ t. inr 7;
  sha256 = λ t. t;
  sign_pss = λ r key digest. inr (key ∷ digest);
  encode_base64 = λ t. t;
}

load_credentials_tests :
    (accepted (load_credentials numbers (codes "id") (codes "k"))
      ≡ some (new_credentials numbers (codes "id") 7))
    × (accepted (load_credentials numbers (codes "id") (codes "x")) ≡ none)
unfolding load_credentials credentials_in_file key_in_file new_credentials text_eqb
load_credentials_tests = (refl, refl)

load_credentials-load_credentials_from_pem_example :
    (accepted (load_credentials numbers (codes "id") (codes "k"))
      ≡ from_file numbers (codes "id") (inr (codes "P7")))
    × ((pem : Text) (c : Credentials ℕ ℕ)
        → (load_credentials_from_pem numbers (codes "id") pem ≡ inr c)
          ↔ Holding numbers (codes "id") pem c)
unfolding text_eqb
load_credentials-load_credentials_from_pem_example =
    load_credentials-load_credentials_from_pem numbers (codes "id") (codes "k")

abbrev credentials : Credentials ℕ ℕ
credentials = record { key_id = codes "id"; private_key = 7; rand = none }

abbrev path : Text
path = codes "/orders"

abbrev headers : Map Text Text
headers =
    (codes "Content-Type", codes "application/json")
    ∷ (codes "KALSHI-ACCESS-KEY", codes "id")
    ∷ (codes "KALSHI-ACCESS-SIGNATURE", 7 ∷ codes "12GET/orders")
    ∷ (codes "KALSHI-ACCESS-TIMESTAMP", codes "12")
    ∷ []

-- Whether the first byte is the key and the rest the digest.
verify : ℕ → Text → Text → Bool
verify key digest [] = false
verify key digest (k ∷ signature) = nat_eqb k key && text_eqb digest signature

verify_signed : (key : ℕ) (digest : Text) → verify key digest (key ∷ digest) ≡ true
unfolding verify
verify_signed key digest = ground (arith, nat_eqb_iff key key, text_eqb_iff digest digest)

request_headers-accepts_example :
    accepts numbers verify (λ t. some t) 7 (codes "GET") path headers ≡ true
unfolding request_headers sign_pss_text path_only itoa decimal digits IsPlain
request_headers-accepts_example =
    request_headers-accepts numbers verify (λ t. some t)
      (λ r key digest signature made.
        let same : key ∷ digest ≡ signature = cc in rw (sym same) (verify_signed key digest))
      (λ bytes. refl) credentials (pos 12) (codes "GET") path (codes "limit=1") headers refl refl
