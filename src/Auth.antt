-- ===== src/Auth.antt =====
-- auth.go: loading a private key, and the signed headers of a request. Reading files, package pem,
-- package x509, the RSA signature, SHA-256 and base64 are arguments; an error of theirs is its
-- text.
pub mod Loading
pub mod Signing
mod Tests
use gokalshi.Base.{
  ℕ, zero, suc, ℤ, Bool, true, false, ◌++◌, Option, none, some, List, [], ◌∷◌, ◌⊎◌, inl, inr,
  if◌then◌else◌, nat_eqb, Text, codes, Map,
}
use gokalshi.Query.{itoa}
use gokalshi.Errors.{AuthError, auth_error_text}

-- `K` is the type of RSA keys and `R` that of random sources.
pub record Credentials (K : Type 0) (R : Type 0) : Type 0 where
  pub key_id : Text
  pub private_key : K
  pub rand : Option R

-- What `x509.ParsePKCS8PrivateKey` finds.
pub data ParsedKey (K : Type 0) : Type 0 where
  rsa_key : K → ParsedKey K
  other_key : ParsedKey K

-- What the packages do.
pub record Crypto : Type 1 where
  pub K : Type 0
  pub R : Type 0
  pub random_reader : R
  pub read_file : Text → Text ⊎ Text
  pub pem_decode : Text → Option Text
  pub parse_pkcs8 : Text → Text ⊎ ParsedKey K
  pub parse_pkcs1 : Text → Text ⊎ K
  pub sha256 : Text → Text
  pub sign_pss : R → K → Text → Text ⊎ Text
  pub encode_base64 : Text → Text

unfoldable pub auth_failed {ℓ} : {A : Type ℓ} → Text → Text → AuthError ⊎ A
auth_failed op err = inl (record { auth_op = op; auth_err = err })

-- `strings.SplitN(path, "?", 2)[0]`.
unfoldable pub path_only : Text → Text
path_only [] = []
path_only (c ∷ s) = let rest = path_only s in if nat_eqb c b'?' then [] else c ∷ rest

module _ (crypto : Crypto) where
  open crypto use {
    K, R, random_reader, read_file, pem_decode, parse_pkcs8, parse_pkcs1, sha256, sign_pss,
    encode_base64,
  }

  unfoldable pub new_credentials : Text → K → Credentials K R
  new_credentials key_id key = record {
    key_id = key_id;
    private_key = key;
    rand = some random_reader;
  }

  -- The parsers of `LoadCredentials`, the second as the fallback.
  unfoldable pub key_in_file : Text → Text → AuthError ⊎ ParsedKey K
  unfolding auth_failed
  key_in_file private_key_path bytes = elim (parse_pkcs8 bytes) [
    | inr key ↦ inr key
    | inl err ↦ elim (parse_pkcs1 bytes) [
      | inr pkcs1_key ↦ inr (rsa_key pkcs1_key)
      | inl pkcs1_err ↦ auth_failed (codes "load_credentials") (
          codes "failed to parse private key from "
          ++ private_key_path
          ++ codes ": "
          ++ err
          ++ codes " (also tried PKCS1: "
          ++ pkcs1_err
          ++ codes ")")
    ]
  ]

  -- From the decoded block of the file on.
  unfoldable pub credentials_in_file : Text → Text → Text → AuthError ⊎ Credentials K R
  unfolding auth_failed key_in_file
  credentials_in_file key_id private_key_path bytes = elim (key_in_file private_key_path bytes) [
    | inl e ↦ inl e
    | inr other_key ↦
        auth_failed (codes "load_credentials")
          (codes "private key in " ++ private_key_path ++ codes " is not RSA")
    | inr (rsa_key key) ↦
        inr (record { key_id = key_id; private_key = key; rand = some random_reader })
  ]

  unfoldable pub load_credentials : Text → Text → AuthError ⊎ Credentials K R
  unfolding auth_failed credentials_in_file
  load_credentials key_id private_key_path = elim (read_file private_key_path) [
    | inl err ↦
        auth_failed (codes "load_credentials")
          (codes "failed to read private key file " ++ private_key_path ++ codes ": " ++ err)
    | inr pem_data ↦ elim (pem_decode pem_data) [
      | none ↦
          auth_failed (codes "load_credentials")
            (codes "failed to decode PEM block from " ++ private_key_path)
      | some bytes ↦ credentials_in_file key_id private_key_path bytes
    ]
  ]

  -- The parsers of `LoadCredentialsFromPEM`, which repeats the body of the other loader.
  unfoldable pub key_in_pem : Text → AuthError ⊎ ParsedKey K
  unfolding auth_failed
  key_in_pem bytes = elim (parse_pkcs8 bytes) [
    | inr key ↦ inr key
    | inl err ↦ elim (parse_pkcs1 bytes) [
      | inr pkcs1_key ↦ inr (rsa_key pkcs1_key)
      | inl pkcs1_err ↦ auth_failed (codes "load_credentials_pem") (
          codes "failed to parse private key from PEM string: "
          ++ err
          ++ codes " (also tried PKCS1: "
          ++ pkcs1_err
          ++ codes ")")
    ]
  ]

  unfoldable pub load_credentials_from_pem : Text → Text → AuthError ⊎ Credentials K R
  unfolding auth_failed key_in_pem
  load_credentials_from_pem key_id pem_string = elim (pem_decode pem_string) [
    | none ↦
        auth_failed (codes "load_credentials_pem") (codes "failed to decode PEM block from string")
    | some bytes ↦ elim (key_in_pem bytes) [
      | inl e ↦ inl e
      | inr other_key ↦
          auth_failed (codes "load_credentials_pem")
            (codes "PEM string does not contain an RSA private key")
      | inr (rsa_key key) ↦
          inr (record { key_id = key_id; private_key = key; rand = some random_reader })
    ]
  ]

  unfoldable pub rand_reader : Credentials K R → R
  rand_reader c = elim c.rand [ none ↦ random_reader | some r ↦ r ]

  unfoldable pub sign_pss_text : Credentials K R → Text → AuthError ⊎ Text
  unfolding auth_failed rand_reader
  sign_pss_text c text = elim (sign_pss (rand_reader c) c.private_key (sha256 text)) [
    | inl err ↦ auth_failed (codes "sign") (codes "RSA-PSS sign failed: " ++ err)
    | inr signature ↦ inr (encode_base64 signature)
  ]

  -- `now` is the clock in milliseconds.
  unfoldable pub request_headers : Credentials K R → ℤ → Text → Text → AuthError ⊎ Map Text Text
  unfolding auth_failed path_only sign_pss_text
  request_headers c now method path =
      elim (sign_pss_text c (itoa now ++ method ++ path_only path)) [
        | inl e ↦
            auth_failed (codes "request_headers")
              (codes "failed to sign request: " ++ auth_error_text e)
        | inr signature ↦ inr (
            (codes "Content-Type", codes "application/json")
            ∷ (codes "KALSHI-ACCESS-KEY", c.key_id)
            ∷ (codes "KALSHI-ACCESS-SIGNATURE", signature)
            ∷ (codes "KALSHI-ACCESS-TIMESTAMP", itoa now)
            ∷ [])
      ]
