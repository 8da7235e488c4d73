-- ===== src/Jwt/DerivedKeys.antt =====
-- The keys of the OAuth state and of step-up tokens: api/internal/auth/derived_keys.go.
use mod_users.Prelude.{
  ℕ, ◌≡◌, refl, ◌⊎◌, inl, inr, Bool, true, false, not, ◌&&◌, Option, some, [], ◌∷◌, str_eq, ◌==◌,
  length, take, if◌then◌else◌, Bool-cases, Option-cases, arith,
}
use mod_users.Api.{ok, err}
use mod_users.Api.Checks.{Checked, ◌>>=◌, ◌>>◌, check, some_or}
use mod_users.Tokens.{Bytes, codes, is_empty}
use mod_users.Jwt.Options.{LocalAuthConfig}

pub data KeyError : Type 0 where
  invalid_signing_key derive_failed unavailable : KeyError

-- What derivation takes from the standard library: HKDF-SHA256 of a seed under a label, with the
-- length of the key, and whether a text is blank to strings.TrimSpace.
pub record Kdf : Type 0 where
  pub hkdf : Bytes → Bytes → ℕ → Option Bytes
  pub is_blank : Bytes → Bool
  pub empty_is_blank : is_blank [] ≡ true

module _ (kdf : Kdf) where
  open kdf use {hkdf, is_blank}

  unfoldable pub derive_key : Bytes → Bytes → Checked KeyError Bytes
  derive_key key label = do
    check (length key == 64) invalid_signing_key
    some_or derive_failed (hkdf (take 32 key) label 32)

  unfoldable pub derived : LocalAuthConfig → Bytes → Checked KeyError Bytes
  unfolding derive_key
  derived lc label = do
    k ← derive_key lc.jwt_signing_key label
    check (not (is_empty k)) derive_failed
    ok k

  unfoldable pub resolve_key : LocalAuthConfig → Bytes → Checked KeyError Bytes
  unfolding derived
  resolve_key lc label =
      if not (is_blank lc.jwt_secret)
      then ok lc.jwt_secret
      else if str_eq lc.jwt_alg "EdDSA" && not (is_empty lc.jwt_signing_key)
      then derived lc label
      else err unavailable

  unfoldable pub oauth_state_key : LocalAuthConfig → Checked KeyError Bytes
  unfolding resolve_key
  oauth_state_key lc = resolve_key lc (codes "mod-users/v1/oauth-state")

  unfoldable pub step_up_key : LocalAuthConfig → Checked KeyError Bytes
  unfolding resolve_key
  step_up_key lc = resolve_key lc (codes "mod-users/v1/step-up")

  derived-ok :
      (lc : LocalAuthConfig) (label k : Bytes)
      → derived lc label ≡ ok k
      → (hkdf (take 32 lc.jwt_signing_key) label 32 ≡ some k) × (is_empty k ≡ false)
  unfolding derived derive_key
  derived-ok lc label k e = elim (Option-cases (hkdf (take 32 lc.jwt_signing_key) label 32)) [
    | inl failed ↦ absurd (ground arith)
    | inr (key, made) ↦ (ground arith, ground arith)
  ]

  keyed : (secret : Bytes) → is_blank secret ≡ false → is_empty secret ≡ false
  keyed [] h = absurd (cc (h, kdf.empty_is_blank))
  keyed (c ∷ secret) h = refl

  -- A key that is resolved is not empty: it is the configured secret unless that is blank, and
  -- otherwise what the signing key's seed gives under the label, with EdDSA only.
  pub resolve_key-ok :
      (lc : LocalAuthConfig) (label k : Bytes)
      → resolve_key lc label ≡ ok k
      → (is_empty k ≡ false)
        × (((is_blank lc.jwt_secret ≡ false) × (k ≡ lc.jwt_secret))
            ⊎ ((is_blank lc.jwt_secret ≡ true)
                × (str_eq lc.jwt_alg "EdDSA" ≡ true)
                × (hkdf (take 32 lc.jwt_signing_key) label 32 ≡ some k)))
  unfolding resolve_key
  resolve_key-ok lc label k e = elim (Bool-cases (is_blank lc.jwt_secret)) [
    | inr given ↦ let full = keyed lc.jwt_secret given in (ground arith, inl (given, ground arith))
    | inl blank ↦
        let (made, full) = derived-ok lc label k (ground arith) in
        (full, inr (blank, ground arith, made))
  ]
