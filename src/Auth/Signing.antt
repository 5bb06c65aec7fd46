-- ===== src/Auth/Signing.antt =====
-- The signature in the headers of auth.go, as the server reads it.
use gokalshi.Base.{
  ◌≡◌, refl, sym, ap, ◌∙◌, ℤ, Bool, true, false, ◌++◌, Option, none, some, [], ◌∷◌, inr,
  if◌then◌else◌, nat_eqb, Text, codes, text_eq, text_eqb, Map, lookup, arith,
}
use gokalshi.Query.{itoa}
use gokalshi.Auth.{
  Crypto, Credentials, auth_failed, path_only, rand_reader, sign_pss_text, request_headers,
}

path_only-query : (path query : Text) → path_only (path ++ codes "?" ++ query) ≡ path_only path
unfolding path_only
path_only-query [] query = refl
path_only-query (c ∷ path) query =
    ap (λ rest. if nat_eqb c b'?' then [] else c ∷ rest) (path_only-query path query)

-- No query in the path.
unfoldable pub IsPlain : Text → Type 0
IsPlain path = path_only path ≡ path

-- What the server has of a request: the headers, the method and the path.
text_header : Text → Map Text Text → Text
text_header k headers = elim (lookup k headers) [ none ↦ [] | some t ↦ t ]

module _ (crypto : Crypto) where
  open crypto use {K, R, sha256, sign_pss, encode_base64}

  signature_of :
      (c : Credentials K R) (text signature : Text)
      → sign_pss_text crypto c text ≡ inr signature
      → (bytes : Text) × (sign_pss (rand_reader crypto c) c.private_key (sha256 text) ≡ inr bytes)
        × (signature ≡ encode_base64 bytes)
  unfolding sign_pss_text auth_failed
  signature_of c text signature h = ground arith

  signed_headers : Credentials K R → ℤ → Text → Map Text Text
  signed_headers c now signature =
      (codes "Content-Type", codes "application/json")
      ∷ (codes "KALSHI-ACCESS-KEY", c.key_id)
      ∷ (codes "KALSHI-ACCESS-SIGNATURE", signature)
      ∷ (codes "KALSHI-ACCESS-TIMESTAMP", itoa now)
      ∷ []

  headers_of :
      (c : Credentials K R) (now : ℤ) (method path : Text) (headers : Map Text Text)
      → request_headers crypto c now method path ≡ inr headers
      → (signature : Text) × (sign_pss_text crypto c (itoa now ++ method ++ path_only path)
          ≡ inr signature)
        × (headers ≡ signed_headers c now signature)
  unfolding request_headers signed_headers auth_failed
  headers_of c now method path headers h = ground arith

  pub request_headers-query :
      (c : Credentials K R) (now : ℤ) (method path query : Text)
      → request_headers crypto c now method (path ++ codes "?" ++ query)
        ≡ request_headers crypto c now method path
  unfolding request_headers
  request_headers-query c now method path query =
      rw (request_headers, path_only-query path query) refl

  -- The server's check: the message is the time stamp, the method and the path without its query.
  pub accepts :
      (K → Text → Text → Bool) → (Text → Option Text) → K → Text → Text → Map Text Text → Bool
  accepts verify decode_base64 key method path headers =
      elim (decode_base64 (text_header (codes "KALSHI-ACCESS-SIGNATURE") headers)) [
        | none ↦ false
        | some signature ↦
            verify key
              (sha256 (text_header (codes "KALSHI-ACCESS-TIMESTAMP") headers ++ method ++ path))
              signature
      ]

  accepts-signed_headers :
      (verify : K → Text → Text → Bool) (decode_base64 : Text → Option Text) (c : Credentials K R)
      (now : ℤ) (method path bytes : Text)
      → decode_base64 (encode_base64 bytes) ≡ some bytes
      → accepts verify decode_base64 c.private_key method path
          (signed_headers c now (encode_base64 bytes))
        ≡ verify c.private_key (sha256 (itoa now ++ method ++ path)) bytes
  unfolding accepts text_header text_eqb lookup signed_headers
  accepts-signed_headers verify decode_base64 c now method path bytes decoded =
      rw (accepts, decoded) refl

  -- If what `rsa.SignPSS` signs is verified, and base64 can be decoded, then the headers of a
  -- request are accepted by a check of the decoded signature against the digest of the time stamp
  -- header, the method and the path, for a path that has no query of its own, whatever query the
  -- signed path carries.
  pub request_headers-accepts :
      (verify : K → Text → Text → Bool) (decode_base64 : Text → Option Text)
      → ((r : R) (key : K) (digest signature : Text)
          → sign_pss r key digest ≡ inr signature
          → verify key digest signature ≡ true)
      → ((bytes : Text) → decode_base64 (encode_base64 bytes) ≡ some bytes)
      → (c : Credentials K R) (now : ℤ) (method path query : Text) (headers : Map Text Text)
      → IsPlain path
      → request_headers crypto c now method (path ++ codes "?" ++ query) ≡ inr headers
      → accepts verify decode_base64 c.private_key method path headers ≡ true
  unfolding IsPlain
  request_headers-accepts verify decode_base64 verifies decodes c now method path query headers
        plain h =
      let (signature, signed, same) =
        headers_of c now method path headers
          (sym (request_headers-query c now method path query) ∙ h) in
      let (bytes, made, encoded) = signature_of c _ signature signed in
      let message_made =
        ap (λ p. sign_pss (rand_reader crypto c) c.private_key (sha256 (itoa now ++ method ++ p)))
          (sym plain)
        ∙ made in
      rw (same, encoded)
        (accepts-signed_headers verify decode_base64 c now method path bytes (decodes bytes)
          ∙ verifies (rand_reader crypto c) c.private_key _ bytes message_made)
