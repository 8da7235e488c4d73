-- ===== src/Jwt/Signer.antt =====
-- Signing: api/internal/auth/signer.go, and the bearer tokens of api/internal/auth/local_jwt.go.
use mod_users.Prelude.{
  ℕ, ◌+◌, ◌*◌, ◌≡◌, ◌≤◌, ◌<◌, String, Bool, true, false, not, Option, some, List, [], ◌∷◌, str_eq,
  ◌==◌, length, if◌then◌else◌,
}
use mod_users.Api.{ok, err}
use mod_users.Api.Checks.{Checked, ◌>>=◌, ◌>>◌, check, some_or}
use mod_users.Tokens.{Bytes, is_empty, ◌⊙◌}
use mod_users.Claims.{
  Values, no_values, value, number, string, boolean, array, pos, lookup, Fields, no_fields, field,
}
use mod_users.Jwt.{Header, Crypto, kid_of, second}
use mod_users.Jwt.Options.{LocalAuthConfig, is_hs256}

-- A signing method with its key.
pub data SigningKey : Type 0 where
  hs256 eddsa : Bytes → SigningKey

pub record Signer : Type 0 where
  pub key : SigningKey
  pub kid : String

pub data SignerError : Type 0 where
  empty_secret bad_private_key unsupported_alg sign_failed : SignerError

unfoldable pub new_hs256_signer : Bytes → String → Checked SignerError Signer
new_hs256_signer secret kid = do
  check (not (is_empty secret)) empty_secret
  ok (record { key = hs256 secret; kid = kid })

unfoldable pub new_eddsa_signer : Bytes → String → Checked SignerError Signer
new_eddsa_signer key kid = do
  check (length key == 64) bad_private_key
  ok (record { key = eddsa key; kid = kid })

unfoldable pub new_signer : LocalAuthConfig → Checked SignerError Signer
unfolding new_hs256_signer new_eddsa_signer
new_signer lc =
    if is_hs256 lc.jwt_alg
    then new_hs256_signer lc.jwt_secret lc.jwt_signing_kid
    else if str_eq lc.jwt_alg "EdDSA"
    then new_eddsa_signer lc.jwt_signing_key lc.jwt_signing_kid
    else err unsupported_alg

abbrev pub alg : Signer → String
alg s = elim s.key [ hs256 _ ↦ "HS256" | eddsa _ ↦ "EdDSA" ]

-- The claims of a local token, as JSON writes them: localClaims with its tags.
pub record LocalClaims : Type 0 where
  pub subject : String
  pub issuer : String
  pub issued_at : ℕ
  pub expires_at : ℕ
  pub roles : List String
  pub sudo_user_uuid : String
  pub is_anonymous : Bool

abbrev pub unless_empty : String → String → Fields → Fields
unless_empty key s rest = if str_eq s "" then rest else field key (string s) rest

abbrev pub if_true : String → Bool → Fields → Fields
if_true key b rest = if b then field key (boolean true) rest else rest

abbrev pub values_of : List String → Values
values_of [] = no_values
values_of (s ∷ ss) = value (string s) (values_of ss)

unfoldable pub claims_fields : LocalClaims → Fields
claims_fields c = unless_empty "iss" c.issuer (
    unless_empty "sub" c.subject (
      field "exp" (number (pos c.expires_at)) (
        field "iat" (number (pos c.issued_at)) (
          field "roles" (array (values_of c.roles)) (
            unless_empty "sudo_user_uuid" c.sudo_user_uuid
              (if_true "is_anonymous" c.is_anonymous no_fields))))))

-- The integers below this, 2^53, are exact as a float64.
abbrev pub exact : ℕ
exact = 9007199254740992

-- What the signer relies on of golang-jwt and JSON: a signed token is its header and its claims,
-- encoded, and their signature; JSON reads back the header's alg, typ and kid, and the claims as long
-- as a float64 holds their times exactly; a numeric date is the time in whole seconds; and Ed25519
-- signatures have 64 bytes.
pub record JwtLibrary (crypto : Crypto) : Type 0 where
  pub signed_string : SigningKey → String → LocalClaims → Option Bytes
  pub marshal_header : String → String → Bytes
  pub marshal_claims : LocalClaims → Bytes
  pub ed_sign : Bytes → Bytes → Bytes
  pub numeric_date : ℕ → ℕ
  pub header : String → String → Header
  pub unmarshal_header-marshal :
      (alg kid : String) → crypto.unmarshal_header (marshal_header alg kid) ≡ some (header alg kid)
  pub header_alg : (alg kid : String) → (header alg kid).alg ≡ alg
  pub header_typ : (alg kid : String) → (header alg kid).typ ≡ "JWT"
  pub header_kid : (alg kid : String) → kid_of crypto.unmarshal_kid (header alg kid).kid ≡ ok kid
  pub unmarshal_claims-marshal :
      (c : LocalClaims)
      → c.issued_at < exact
      → c.expires_at < exact
      → (f : Fields) × (crypto.unmarshal_claims (marshal_claims c) ≡ some f)
        × ((key : String) → lookup key f ≡ lookup key (claims_fields c))
  pub signed_hs256 :
      (key : Bytes) (kid : String) (c : LocalClaims)
      → let text : Bytes =
          crypto.codec.encode (marshal_header "HS256" kid)
          ⊙ crypto.codec.encode (marshal_claims c) in
        signed_string (hs256 key) kid c
        ≡ some (text ⊙ crypto.codec.encode (crypto.codec.mac key text))
  pub signed_eddsa :
      (key : Bytes) (kid : String) (c : LocalClaims)
      → let text : Bytes =
          crypto.codec.encode (marshal_header "EdDSA" kid)
          ⊙ crypto.codec.encode (marshal_claims c) in
        signed_string (eddsa key) kid c ≡ some (text ⊙ crypto.codec.encode (ed_sign key text))
  pub ed_sign_length : (key text : Bytes) → length (ed_sign key text) ≡ 64
  pub numeric_date_floor :
      (t : ℕ) → (numeric_date t * second ≤ t) × (t < (numeric_date t + 1) * second)

abbrev pub day : ℕ
day = 86400 * second

module _ (crypto : Crypto) (library : JwtLibrary crypto) where
  open library use {signed_string, numeric_date}

  -- Sign; the empty kid sets no header.
  unfoldable pub sign : Signer → LocalClaims → Checked SignerError Bytes
  sign s c = some_or sign_failed (signed_string s.key s.kid c)

  abbrev pub local_claims : ℕ → String → String → LocalClaims
  local_claims now uuid issuer = record {
    subject = uuid;
    issuer = issuer;
    issued_at = numeric_date now;
    expires_at = numeric_date (now + day);
    roles = [];
    sudo_user_uuid = "";
    is_anonymous = false;
  }

  -- IssueLocalJWTWithSigner and its two siblings, for the account's uuid.
  unfoldable pub issue_local_jwt : ℕ → String → Signer → String → Checked SignerError Bytes
  unfolding sign
  issue_local_jwt now uuid signer issuer = sign signer (local_claims now uuid issuer)

  unfoldable pub issue_anonymous_jwt : ℕ → String → Signer → String → Checked SignerError Bytes
  unfolding sign
  issue_anonymous_jwt now uuid signer issuer =
      sign signer (record (local_claims now uuid issuer) { is_anonymous = true })

  unfoldable pub issue_assume_jwt :
      ℕ → String → String → Signer → String → Checked SignerError Bytes
  unfolding sign
  issue_assume_jwt now sudo_uuid actor_uuid signer issuer =
      sign signer (record (local_claims now sudo_uuid issuer) {
        roles = "admin" ∷ [];
        sudo_user_uuid = actor_uuid;
      })

  -- The historical entry points, with a secret and no kid.
  abbrev pub with_secret : Bytes → (Signer → Checked SignerError Bytes) → Checked SignerError Bytes
  with_secret secret issue = new_hs256_signer secret "" >>= issue
