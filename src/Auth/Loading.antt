-- ===== src/Auth/Loading.antt =====
-- The two loaders of auth.go, and the keys that they accept.
use gokalshi.Base.{◌≡◌, refl, Option, none, some, ◌⊎◌, inl, inr, Text, arith, Option-cases, ◌↔◌}
use gokalshi.Errors.{AuthError}
use gokalshi.Auth.{
  Crypto, Credentials, rsa_key, auth_failed, key_in_file, credentials_in_file, load_credentials,
  key_in_pem, load_credentials_from_pem,
}

-- The result without the error.
abbrev pub accepted {ℓ} : {A : Type ℓ} → AuthError ⊎ A → Option A
accepted (inl e) = none
accepted (inr a) = some a

module _ (crypto : Crypto) where
  open crypto use {K, R, random_reader, read_file, pem_decode, parse_pkcs8, parse_pkcs1}

  -- A key in the bytes of a PEM block: the first parser finds it, or fails and the second does.
  abbrev pub Parses : Text → K → Type 0
  Parses bytes key =
      (parse_pkcs8 bytes ≡ inr (rsa_key key))
      ⊎ ((err : Text) × (parse_pkcs8 bytes ≡ inl err) × (parse_pkcs1 bytes ≡ inr key))

  -- Credentials that hold the key which a text has in its PEM block.
  abbrev pub Holding : Text → Text → Credentials K R → Type 0
  Holding key_id pem c =
      (bytes : Text) × (pem_decode pem ≡ some bytes)
      × Parses bytes c.private_key
      × (c.key_id ≡ key_id)
      × (c.rand ≡ some random_reader)

  key_in_pem-Parses :
      (bytes : Text) (key : K) → key_in_pem crypto bytes ≡ inr (rsa_key key) → Parses bytes key
  unfolding key_in_pem auth_failed
  key_in_pem-Parses bytes key h = ground arith

  Parses-key_in_pem :
      (bytes : Text) (key : K) → Parses bytes key → key_in_pem crypto bytes ≡ inr (rsa_key key)
  unfolding key_in_pem auth_failed
  Parses-key_in_pem bytes key h = ground arith

  from_pem-Holding :
      (key_id pem : Text) (c : Credentials K R)
      → load_credentials_from_pem crypto key_id pem ≡ inr c
      → Holding key_id pem c
  unfolding load_credentials_from_pem auth_failed
  from_pem-Holding key_id pem c h = elim (Option-cases (pem_decode pem)) [
    | inl missing ↦ absurd (ground (arith, missing))
    | inr (bytes, found) ↦ (
      bytes,
      found,
      key_in_pem-Parses bytes c.private_key (ground (arith, found)),
      ground (arith, found),
      ground (arith, found),
    )
  ]

  Holding-from_pem :
      (key_id pem : Text) (c : Credentials K R)
      → Holding key_id pem c
      → load_credentials_from_pem crypto key_id pem ≡ inr c
  unfolding load_credentials_from_pem
  Holding-from_pem key_id pem c (bytes, found, parses, named, random) =
      rw (load_credentials_from_pem, found, Parses-key_in_pem bytes c.private_key parses)
        (rw (← named, ← random) refl)

  pub from_file : Text → Text ⊎ Text → Option (Credentials K R)
  from_file key_id (inl err) = none
  from_file key_id (inr pem) = accepted (load_credentials_from_pem crypto key_id pem)

  -- Loading credentials from a file gives the same credentials as parsing the text of the file, and
  -- none if the file cannot be read: the two loaders accept the same keys. The parsing gives
  -- exactly the credentials with that key id, the default random source, and an RSA key which the
  -- PKCS8 parser finds in the PEM block, or the PKCS1 parser after an error of the PKCS8 parser.
  pub load_credentials-load_credentials_from_pem :
      (key_id path : Text)
      → (accepted (load_credentials crypto key_id path) ≡ from_file key_id (read_file path))
        × ((pem : Text) (c : Credentials K R)
            → (load_credentials_from_pem crypto key_id pem ≡ inr c) ↔ Holding key_id pem c)
  unfolding load_credentials load_credentials_from_pem credentials_in_file key_in_file key_in_pem
      auth_failed from_file
  load_credentials-load_credentials_from_pem key_id path =
      (ground arith, λ pem c. (from_pem-Holding key_id pem c, Holding-from_pem key_id pem c))
