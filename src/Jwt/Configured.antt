-- ===== src/Jwt/Configured.antt =====
-- The verifier that NewLocalVerifier of api/internal/auth/jwt.go builds: the keys that it holds.
use mod_users.Prelude.{
  ◌≡◌, refl, ◌∙◌, ap, String, Bool, true, false, Option, some, inl, inr, Bool-cases, [], ◌∷◌,
  str_eq, eq_iff, arith,
}
use mod_users.Api.{ok, Result-cases}
use mod_users.Tokens.{Bytes}
use mod_users.Jwt.{KeyMap, get_key, no_keys, OidcVerifier, Verifier}
use mod_users.Jwt.Options.{
  LocalAuthConfig, add_keys, apply_option, apply_options, new_verifier, new_verifier_with_options,
  public_of, put_key, new_eddsa_verifier, new_local_verifier, is_hs256,
}

pub str_eq_refl : (s : String) → str_eq s s ≡ true
str_eq_refl s = (eq_iff s s).1 refl

get_key-put_key :
    (kid : String) (key : Bytes) (keys : KeyMap) → get_key kid (put_key kid key keys) ≡ some key
unfolding put_key
get_key-put_key kid key [] = rw (str_eq_refl kid) refl
get_key-put_key kid key ((k, old) ∷ keys) = elim (Bool-cases (str_eq k kid)) [
  | inl same ↦ rw (same, str_eq_refl kid) refl
  | inr other ↦ rw other (ground (arith, get_key-put_key kid key keys))
]

add_keys-keep :
    (kid : String) (key : Bytes) (more keys out : KeyMap)
    → get_key kid keys ≡ some key
    → add_keys more keys ≡ ok out
    → get_key kid out ≡ some key
unfolding add_keys
add_keys-keep kid key [] keys out known e = ground arith
add_keys-keep kid key ((k, new) ∷ more) keys out known e = elim (Bool-cases (str_eq k kid)) [
  | inl same ↦
      let dup : get_key k keys ≡ some key =
        ap (λ t. get_key t keys) ((eq_iff k kid).0 same) ∙ known in
      absurd (ground arith)
  | inr other ↦ add_keys-keep kid key more ((k, new) ∷ keys) out (ground arith) (ground arith)
]

add_keys-get :
    (kid : String) (key : Bytes) (more keys out : KeyMap)
    → get_key kid more ≡ some key
    → add_keys more keys ≡ ok out
    → get_key kid out ≡ some key
unfolding add_keys
add_keys-get kid key [] keys out known e = absurd (cc)
add_keys-get kid key ((k, new) ∷ more) keys out known e = elim (Bool-cases (str_eq k kid)) [
  | inl same ↦ add_keys-keep kid key more ((k, new) ∷ keys) out (ground arith) (ground arith)
  | inr other ↦ add_keys-get kid key more ((k, new) ∷ keys) out (ground arith) (ground arith)
]

pub get_key-keyed :
    (kid : String) (key : Bytes) (keys : KeyMap)
    → get_key kid keys ≡ some key
    → no_keys keys ≡ false
get_key-keyed kid key [] e = absurd (cc)
get_key-keyed kid key (k ∷ keys) e = refl

module _ (discover : String → String → Bool → Option OidcVerifier) where
  -- What a verifier of the configuration is.
  pub eddsa_verifier :
      (lc : LocalAuthConfig) (v : Verifier)
      → new_eddsa_verifier discover lc ≡ ok v
      → (v.local_issuer ≡ lc.local_issuer)
        × (get_key lc.jwt_signing_kid v.ed_keys ≡ some (public_of lc.jwt_signing_key))
  unfolding new_eddsa_verifier new_verifier_with_options apply_options apply_option new_verifier
  eddsa_verifier lc v e =
      let pub_key = public_of lc.jwt_signing_key in
      let keys = put_key lc.jwt_signing_kid pub_key lc.jwt_verify_public_keys in
      let put = get_key-put_key lc.jwt_signing_kid pub_key lc.jwt_verify_public_keys in
      let keyed = get_key-keyed lc.jwt_signing_kid pub_key keys put in
      elim (Result-cases (add_keys keys [])) [
        | inr (bad, refused) ↦ absurd (ground arith)
        | inl (out, added) ↦
            let found = add_keys-get lc.jwt_signing_kid pub_key keys [] out put added in
            ground arith
      ]

  pub hs256_verifier :
      (lc : LocalAuthConfig) (v : Verifier)
      → is_hs256 lc.jwt_alg ≡ true
      → new_local_verifier discover lc ≡ ok v
      → (v.local_issuer ≡ lc.local_issuer) × (v.local_secret ≡ lc.jwt_secret)
  unfolding new_local_verifier new_verifier_with_options apply_options apply_option new_verifier
  hs256_verifier lc v hs e = elim (Bool-cases (no_keys lc.jwt_verify_public_keys)) [
    | inl nothing ↦ ground arith
    | inr keyed ↦ elim (Result-cases (add_keys lc.jwt_verify_public_keys [])) [
      | inr (bad, refused) ↦ absurd (ground arith)
      | inl (out, added) ↦ ground arith
    ]
  ]
