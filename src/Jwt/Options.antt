-- ===== src/Jwt/Options.antt =====
-- How a verifier is built: the options and constructors of api/internal/auth/jwt.go, and ValidateKID
-- of api/internal/config/jwt_signing.go.
use Prim.Native.Char.{code}
use mod_users.Prelude.{
  ℕ, String, Bool, true, false, not, ◌&&◌, ◌||◌, Option, none, some, List, [], ◌∷◌, str_eq, ltb,
  leb, ◌==◌, any, length, drop, is_none, if◌then◌else◌,
}
use mod_users.Api.{ok, err}
use mod_users.Api.Checks.{Checked, ◌>>=◌, ◌>>◌, check, some_or}
use mod_users.Tokens.{Bytes, codes, bytes_eq, is_empty}
use mod_users.Jwt.{KeyMap, get_key, no_keys, OidcVerifier, Verifier}

-- LocalAuthConfig's fields about tokens; a private key is its seed and its public key.
pub record LocalAuthConfig : Type 0 where
  pub jwt_secret : Bytes
  pub jwt_alg : String
  pub jwt_signing_key : Bytes
  pub jwt_signing_kid : String
  pub jwt_verify_public_keys : KeyMap
  pub local_issuer : String

pub record VerifierConfig : Type 0 where
  pub issuer_url : String
  pub client_id : String
  pub secret : Bytes
  pub local_issuer : String
  pub ed_keys : KeyMap
  pub insecure_skip_tls_verify : Bool

pub data VerifierError : Type 0 where
  empty_secret no_public_keys bad_kid bad_key_length duplicate_kid too_many_keys : VerifierError
  no_token_source no_local_issuer bad_signing_key kid_conflict unsupported_jwt_alg : VerifierError
  discovery_failed : VerifierError

-- ValidateKID.
unfoldable pub validate_kid : String → Bool
validate_kid kid =
    leb (length (codes kid)) 128 && not (any (λ c. leb c 0x20 || leb 0x7f c) (codes kid))

abbrev pub max_verify_keys : ℕ
max_verify_keys = 32

-- The loop of WithEd25519PublicKeys over the supplied keys.
unfoldable pub add_keys : KeyMap → KeyMap → Checked VerifierError KeyMap
unfolding validate_kid
add_keys [] keys = ok keys
add_keys ((kid, key) ∷ more) keys = do
  check (validate_kid kid) bad_kid
  check (length key == 32) bad_key_length
  check (is_none (get_key kid keys)) duplicate_kid
  check (ltb (length keys) max_verify_keys) too_many_keys
  add_keys more ((kid, key) ∷ keys)

pub data VerifierOption : Type 0 where
  with_oidc : String → String → VerifierOption
  with_insecure_skip_tls_verify : VerifierOption
  with_hs256_secret : Bytes → VerifierOption
  with_local_issuer : String → VerifierOption
  with_ed25519_public_keys : KeyMap → VerifierOption

abbrev pub with_ed25519_public_key : Bytes → VerifierOption
with_ed25519_public_key key = with_ed25519_public_keys (("", key) ∷ [])

unfoldable pub apply_option : VerifierOption → VerifierConfig → Checked VerifierError VerifierConfig
unfolding add_keys
apply_option (with_oidc url client) c = ok (record c { issuer_url = url; client_id = client })
apply_option with_insecure_skip_tls_verify c = ok (record c { insecure_skip_tls_verify = true })
apply_option (with_hs256_secret secret) c = do
  check (not (is_empty secret)) empty_secret
  ok (record c { secret = secret })
apply_option (with_local_issuer issuer) c = ok (record c { local_issuer = issuer })
apply_option (with_ed25519_public_keys keys) c = do
  check (not (no_keys keys)) no_public_keys
  ed_keys ← add_keys keys c.ed_keys
  ok (record c { ed_keys = ed_keys })

unfoldable pub apply_options :
    List VerifierOption → VerifierConfig → Checked VerifierError VerifierConfig
unfolding apply_option
apply_options [] c = ok c
apply_options (option ∷ options) c = do c' ← apply_option option c; apply_options options c'

abbrev pub no_config : VerifierConfig
no_config = record {
  issuer_url = "";
  client_id = "";
  secret = [];
  local_issuer = "";
  ed_keys = [];
  insecure_skip_tls_verify = false;
}

abbrev pub verifier_of : VerifierConfig → Option OidcVerifier → Verifier
verifier_of c oidc = record {
  oidc_verifier = oidc;
  local_secret = c.secret;
  local_issuer = c.local_issuer;
  ed_keys = c.ed_keys;
}

abbrev pub public_of : Bytes → Bytes
public_of key = drop 32 key

-- `keys[kid] = key`
unfoldable pub put_key : String → Bytes → KeyMap → KeyMap
put_key kid key [] = (kid, key) ∷ []
put_key kid key ((k, old) ∷ keys) =
    let rest = put_key kid key keys in if str_eq k kid then (kid, key) ∷ keys else (k, old) ∷ rest

abbrev pub conflicts : Option Bytes → Bytes → Bool
conflicts none key = false
conflicts (some existing) key = not (bytes_eq existing key)

abbrev pub with_keys : KeyMap → List VerifierOption
with_keys keys = if no_keys keys then [] else with_ed25519_public_keys keys ∷ []

abbrev pub is_hs256 : String → Bool
is_hs256 alg = str_eq alg "" || str_eq alg "HS256"

-- strings.HasPrefix
unfoldable pub has_prefix : String → String → Bool
has_prefix s String.[] = true
has_prefix String.[] (String.◌∷◌ d t) = false
has_prefix (String.◌∷◌ c s) (String.◌∷◌ d t) = code c == code d && has_prefix s t

abbrev pub skips_tls : VerifierConfig → Bool
skips_tls c = c.insecure_skip_tls_verify && has_prefix c.issuer_url "https://"

-- The discovery of go-oidc, with the issuer, the client and whether TLS is checked.
module _ (discover : String → String → Bool → Option OidcVerifier) where
  unfoldable pub new_verifier : VerifierConfig → Checked VerifierError Verifier
  new_verifier c = if str_eq c.issuer_url "" then ok (verifier_of c none) else do
    oidc ← some_or discovery_failed (discover c.issuer_url c.client_id (not (skips_tls c)))
    ok (verifier_of c (some oidc))

  abbrev pub is_local : VerifierConfig → Bool
  is_local c = not (is_empty c.secret) || not (no_keys c.ed_keys)

  unfoldable pub new_verifier_with_options : List VerifierOption → Checked VerifierError Verifier
  unfolding apply_options new_verifier
  new_verifier_with_options options = do
    c ← apply_options options no_config
    check (is_local c || not (str_eq c.issuer_url "")) no_token_source
    check (not (is_local c && str_eq c.local_issuer "")) no_local_issuer
    new_verifier c

  -- NewVerifier, of the parameters before there were options.
  unfoldable pub new_legacy_verifier :
      String → String → Bytes → String → Checked VerifierError Verifier
  unfolding new_verifier
  new_legacy_verifier issuer_url client_id secret local_issuer = do
    check (not (not (is_empty secret) && str_eq local_issuer "")) no_local_issuer
    new_verifier (record no_config {
      issuer_url = issuer_url;
      client_id = client_id;
      secret = secret;
      local_issuer = local_issuer;
    })

  unfoldable pub new_eddsa_verifier : LocalAuthConfig → Checked VerifierError Verifier
  unfolding new_verifier_with_options put_key
  new_eddsa_verifier lc = do
    let pub_key = public_of lc.jwt_signing_key
    check (length lc.jwt_signing_key == 64) bad_signing_key
    check (not (conflicts (get_key lc.jwt_signing_kid lc.jwt_verify_public_keys) pub_key))
        kid_conflict
    new_verifier_with_options (
        with_local_issuer lc.local_issuer
        ∷ with_keys (put_key lc.jwt_signing_kid pub_key lc.jwt_verify_public_keys))

  unfoldable pub new_local_verifier : LocalAuthConfig → Checked VerifierError Verifier
  unfolding new_verifier_with_options new_eddsa_verifier
  new_local_verifier lc =
      if is_hs256 lc.jwt_alg
      then new_verifier_with_options (
          with_local_issuer lc.local_issuer
          ∷ with_hs256_secret lc.jwt_secret
          ∷ with_keys lc.jwt_verify_public_keys)
      else if str_eq lc.jwt_alg "EdDSA"
      then new_eddsa_verifier lc
      else err unsupported_jwt_alg
