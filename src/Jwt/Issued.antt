-- ===== src/Jwt/Issued.antt =====
-- What the configured signer signs, the configured verifier accepts: NewSigner and NewLocalVerifier
-- of api/internal/auth, on one configuration.
use mathlib.Core.List.{append_assoc}
use mod_users.Prelude.{
  ℕ, ◌+◌, ◌*◌, ◌≤◌, ◌<◌, ◌≡◌, refl, sym, ◌∙◌, ap, String, Bool, true, false, Option, some, inl, inr,
  Bool-cases, List, [], ◌∷◌, str_eq, eq_iff, length, arith,
}
use mod_users.Api.{ok}
use mod_users.Tokens.{Bytes, is_empty, split_dots, dot, ◌⊙◌}
use mod_users.Tokens.Split.{split_dots-whole, split_dots-join}
use mod_users.StepUp.{three_parts}
use mod_users.StepUp.Accept.{bytes_eq_refl}
use mod_users.Claims.{number, pos, Fields, lookup, get_string, or_null, text_of}
use mod_users.Jwt.{
  Crypto, get_key, OidcVerifier, Verifier, equal_fold, second, is_alive, check_hs256, check_eddsa,
  check_signature, verify_local,
}
use mod_users.Jwt.Options.{LocalAuthConfig, public_of, new_local_verifier, is_hs256}
use mod_users.Jwt.Signer.{
  hs256, eddsa, Signer, LocalClaims, claims_fields, exact, JwtLibrary, new_hs256_signer,
  new_eddsa_signer, new_signer, day, sign, local_claims, issue_local_jwt,
}
use mod_users.Jwt.Configured.{str_eq_refl, get_key-keyed, eddsa_verifier, hs256_verifier}

claims_fields-exp :
    (c : LocalClaims) → lookup "exp" (claims_fields c) ≡ some (number (pos c.expires_at))
unfolding lookup claims_fields
claims_fields-exp c = ground arith

blank : (s : String) → str_eq s "" ≡ true → "" ≡ s
blank s e = sym ((eq_iff s "").0 e)

claims_fields-iss : (c : LocalClaims) → get_string (claims_fields c) "iss" ≡ c.issuer
unfolding lookup claims_fields get_string
claims_fields-iss c = elim (Bool-cases (str_eq c.issuer "")) [
  | inl none_ ↦ ground (arith, blank c.issuer none_)
  | inr some_ ↦ ground arith
]

claims_fields-sub : (c : LocalClaims) → get_string (claims_fields c) "sub" ≡ c.subject
unfolding lookup claims_fields get_string
claims_fields-sub c = elim (Bool-cases (str_eq c.subject "")) [
  | inl none_ ↦ ground (arith, blank c.subject none_)
  | inr some_ ↦ ground arith
]

jwt_type : equal_fold "JWT" "step-up" ≡ false
unfolding equal_fold
jwt_type = refl

module _ (crypto : Crypto) (library : JwtLibrary crypto) where
  open crypto.codec use {encode, decode, decode-encode, encode_no_dot}
  open library use {marshal_header, marshal_claims, header}

  abbrev text_of_token : String → String → LocalClaims → Bytes
  text_of_token alg kid c = encode (marshal_header alg kid) ⊙ encode (marshal_claims c)

  token-parts :
      (alg kid : String) (c : LocalClaims) (raw : Bytes)
      → three_parts (split_dots (text_of_token alg kid c ⊙ encode raw))
        ≡ some (encode (marshal_header alg kid), encode (marshal_claims c), encode raw)
  token-parts alg kid c raw =
      let h : Bytes = encode (marshal_header alg kid) in
      let b : Bytes = encode (marshal_claims c) in
      let s : Bytes = encode raw in
      let whole : (h ⊙ b) ⊙ s ≡ h ⊙ (b ⊙ s) = append_assoc h (dot ∷ b) (dot ∷ s) in
      let parts : split_dots ((h ⊙ b) ⊙ s) ≡ h ∷ b ∷ s ∷ [] =
        ap split_dots whole
        ∙ split_dots-join h (b ⊙ s) (encode_no_dot _)
        ∙ ap (λ (ps : List Bytes). h ∷ ps) (split_dots-join b s (encode_no_dot _))
        ∙ ap (λ (ps : List Bytes). h ∷ b ∷ ps) (split_dots-whole s (encode_no_dot _)) in
      ap three_parts parts

  verify_signed :
      (v : Verifier) (now : ℕ) (alg kid : String) (c : LocalClaims) (raw : Bytes)
      → check_signature crypto v (header alg kid) (text_of_token alg kid c) (encode raw) ≡ ok tt
      → c.issuer ≡ v.local_issuer
      → c.issued_at < exact
      → c.expires_at < exact
      → now ≤ c.expires_at * second
      → (f : Fields) × (verify_local crypto v now (text_of_token alg kid c ⊙ encode raw) ≡ ok f)
        × ((key : String) → lookup key f ≡ lookup key (claims_fields c))
  unfolding verify_local
  verify_signed v now alg kid c raw signed issuer before exp alive =
      let (f, read, same) = library.unmarshal_claims-marshal c before exp in
      let iss : get_string f "iss" ≡ v.local_issuer =
        unfold get_string in
        (ap (λ w. text_of (or_null w)) (same "iss") ∙ claims_fields-iss c ∙ issuer) in
      let alive_ : is_alive now (lookup "exp" f) ≡ true =
        rw (same "exp", claims_fields-exp c) (ground arith) in
      let fold_ : equal_fold (header alg kid).typ "step-up" ≡ false =
        rw (library.header_typ alg kid) jwt_type in
      (
        f,
        rw
            (
              token-parts alg kid c raw,
              decode-encode (marshal_header alg kid),
              library.unmarshal_header-marshal alg kid,
              fold_,
              signed,
              decode-encode (marshal_claims c),
              read,
              iss,
              str_eq_refl v.local_issuer,
              alive_,
            )
            refl,
        same,
      )

  check_hs256-mac :
      (v : Verifier) (kid : String) (text secret : Bytes)
      → v.local_secret ≡ secret
      → is_empty secret ≡ false
      → check_signature crypto v (header "HS256" kid) text (encode (crypto.codec.mac secret text))
        ≡ ok tt
  unfolding check_hs256
  check_hs256-mac v kid text secret same keyed =
      rw
        (
          library.header_alg "HS256" kid,
          same,
          keyed,
          bytes_eq_refl (encode (crypto.codec.mac secret text)),
        )
        refl

  check_eddsa-sign :
      (v : Verifier) (kid : String) (text key raw : Bytes)
      → get_key kid v.ed_keys ≡ some key
      → length raw ≡ 64
      → crypto.ed_verify key text raw ≡ true
      → check_signature crypto v (header "EdDSA" kid) text (encode raw) ≡ ok tt
  unfolding check_eddsa
  check_eddsa-sign v kid text key raw known size right =
      rw
        (
          library.header_alg "EdDSA" kid,
          get_key-keyed kid key v.ed_keys known,
          library.header_kid "EdDSA" kid,
          known,
          decode-encode raw,
          size,
          right,
        )
        refl

  signed_by :
      (discover : String → String → Bool → Option OidcVerifier) (lc : LocalAuthConfig)
      (v : Verifier) (s : Signer) (c : LocalClaims)
      → (is_hs256 lc.jwt_alg ≡ false
          → (text : Bytes)
          → crypto.ed_verify
              (public_of lc.jwt_signing_key)
              text
              (library.ed_sign lc.jwt_signing_key text)
            ≡ true)
      → new_signer lc ≡ ok s
      → new_local_verifier discover lc ≡ ok v
      → (alg kid : String) × (raw : Bytes) × (sign crypto library s c
          ≡ ok (text_of_token alg kid c ⊙ encode raw))
        × (check_signature crypto v (header alg kid) (text_of_token alg kid c) (encode raw) ≡ ok tt)
        × (v.local_issuer ≡ lc.local_issuer)
  unfolding sign new_signer new_hs256_signer new_eddsa_signer
  signed_by discover lc v s c pair signer verifier = elim (Bool-cases (is_hs256 lc.jwt_alg)) [
    | inl hs ↦
        let (issuer, secret) = hs256_verifier discover lc v hs verifier in
        let text : Bytes = text_of_token "HS256" lc.jwt_signing_kid c in
        let made : s ≡ record { key = hs256 lc.jwt_secret; kid = lc.jwt_signing_kid } =
          ground arith in
        (
          "HS256",
          lc.jwt_signing_kid,
          crypto.codec.mac lc.jwt_secret text,
          rw (made, library.signed_hs256 lc.jwt_secret lc.jwt_signing_kid c) refl,
          check_hs256-mac v lc.jwt_signing_kid text lc.jwt_secret secret (ground arith),
          issuer,
        )
    | inr other ↦
        let text : Bytes = text_of_token "EdDSA" lc.jwt_signing_kid c in
        let made : s ≡ record { key = eddsa lc.jwt_signing_key; kid = lc.jwt_signing_kid } =
          ground arith in
        let raw : Bytes = library.ed_sign lc.jwt_signing_key text in
        let ed : str_eq lc.jwt_alg "EdDSA" ≡ true = ground arith in
        let (issuer, known) =
          eddsa_verifier discover lc v (unfold new_local_verifier in ground arith) in
        (
          "EdDSA",
          lc.jwt_signing_kid,
          raw,
          rw (made, library.signed_eddsa lc.jwt_signing_key lc.jwt_signing_kid c) refl,
          check_eddsa-sign v lc.jwt_signing_kid text (public_of lc.jwt_signing_key) raw known
              (library.ed_sign_length lc.jwt_signing_key text) (pair other text),
          issuer,
        )
  ]

  -- On one configuration, with whichever of the two algorithms: if the signer and the verifier can be
  -- built, and, under EdDSA, the private key of the configuration signs what its public key verifies, a
  -- token is issued for an account, and the verifier accepts it until a second before a day has passed, with
  -- the account's uuid as its subject and the configured issuer. The times are such that a float64
  -- holds their seconds exactly.
  pub issued_is_accepted :
      (discover : String → String → Bool → Option OidcVerifier) (lc : LocalAuthConfig)
      (v : Verifier) (s : Signer) (issued now : ℕ) (uuid : String)
      → (is_hs256 lc.jwt_alg ≡ false
          → (text : Bytes)
          → crypto.ed_verify
              (public_of lc.jwt_signing_key)
              text
              (library.ed_sign lc.jwt_signing_key text)
            ≡ true)
      → new_signer lc ≡ ok s
      → new_local_verifier discover lc ≡ ok v
      → issued + day < exact * second
      → now + second ≤ issued + day
      → (token : Bytes) × (f : Fields) × (issue_local_jwt crypto library issued uuid s
            lc.local_issuer
          ≡ ok token)
        × (verify_local crypto v now token ≡ ok f)
        × (get_string f "sub" ≡ uuid)
        × (get_string f "iss" ≡ lc.local_issuer)
  unfolding issue_local_jwt get_string
  issued_is_accepted discover lc v s issued now uuid pair signer verifier early alive =
      let c : LocalClaims = local_claims crypto library issued uuid lc.local_issuer in
      let (alg, kid, raw, made, signed, issuer) =
        signed_by discover lc v s c pair signer verifier in
      let before = library.numeric_date_floor issued in
      let after = library.numeric_date_floor (issued + day) in
      let (f, read, same) =
        verify_signed v now alg kid c raw signed (sym issuer) (omega (arith, before))
          (omega (arith, after)) (omega (arith, after)) in
      (
        text_of_token alg kid c ⊙ encode raw,
        f,
        made,
        read,
        ap (λ w. text_of (or_null w)) (same "sub") ∙ claims_fields-sub c,
        ap (λ w. text_of (or_null w)) (same "iss") ∙ claims_fields-iss c,
      )
