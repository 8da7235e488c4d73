-- ===== src/Jwt.antt =====
-- Bearer tokens: verifyLocal and Verify of api/internal/auth/jwt.go.
pub mod Options
pub mod Signer
pub mod Bearer
pub mod Separate
pub mod Configured
pub mod Issued
pub mod DerivedKeys
pub mod Sample
pub mod Keyed
mod Examples
use mod_users.Prelude.{
  ℕ, ◌+◌, ◌-◌, ◌*◌, String, Bool, true, false, not, ◌&&◌, ◌||◌, Option, none, some, List, [], ◌∷◌,
  ◌++◌, str_eq, ltb, leb, ◌==◌, find, length, map, if◌then◌else◌,
}
use mod_users.Api.{ok, err}
use mod_users.Api.Checks.{Checked, ◌>>=◌, ◌>>◌, check, some_or}
use mod_users.Tokens.{Bytes, Codec, codes, bytes_eq, is_empty, split_dots, ◌⊙◌}
use mod_users.StepUp.{three_parts}
use mod_users.Claims.{Value, number, ℤ, pos, negsuc, Fields, lookup, get_string}

-- The header of a token; `kid` is the raw JSON, and is empty where the header has none.
pub record Header : Type 0 where
  pub alg : String
  pub typ : String
  pub kid : Bytes

-- What verification takes from the standard library: HMAC and base64, JSON, and the check of an
-- Ed25519 signature, with its key, text and signature.
pub record Crypto : Type 0 where
  pub codec : Codec
  pub unmarshal_header : Bytes → Option Header
  pub unmarshal_kid : Bytes → Option String
  pub unmarshal_claims : Bytes → Option Fields
  pub ed_verify : Bytes → Bytes → Bytes → Bool

-- The keys of a map, in the order of its iteration.
abbrev pub KeyMap : Type 0
KeyMap = List (String × Bytes)

abbrev pub get_key : String → KeyMap → Option Bytes
get_key kid [] = none
get_key kid ((k, key) ∷ keys) = if str_eq k kid then some key else get_key kid keys

abbrev pub no_keys : KeyMap → Bool
no_keys [] = true
no_keys (_ ∷ _) = false

-- The verification of go-oidc for one issuer and client: the inner option is the parse of the
-- claims of an ID token that it accepted.
abbrev pub OidcVerifier : Type 0
OidcVerifier = Bytes → Option (Option Fields)

pub record Verifier : Type 0 where
  pub oidc_verifier : Option OidcVerifier
  pub local_secret : Bytes
  pub local_issuer : String
  pub ed_keys : KeyMap

pub data VerifyError : Type 0 where
  invalid_format invalid_header step_up_token hs256_not_accepted invalid_signature : VerifyError
  eddsa_not_accepted invalid_kid unknown_kid unsupported_alg invalid_payload invalid_claims :
      VerifyError
  issuer_mismatch token_expired verification_failed invalid_oidc_claims : VerifyError

-- The case folding of strings.EqualFold, whose second text is ASCII: two letters beyond ASCII fold to
-- it, the long s and the Kelvin sign.
abbrev pub fold_char : ℕ → ℕ
fold_char c =
    if leb b'A' c && leb c b'Z'
    then c + 32
    else if c == 0x17f
    then b's'
    else if c == 0x212a
    then b'k'
    else c

unfoldable pub equal_fold : String → String → Bool
equal_fold s t = bytes_eq (map fold_char (codes s)) (map fold_char (codes t))

abbrev pub second : ℕ
second = 1000000000

-- The seconds for which time.Unix does not wrap around: it adds those from year 1 to 1970.
abbrev pub unix_limit : ℕ
unix_limit = 9223372036854775808 - 62135596800

-- The expiry check, `now` in nanoseconds since 1970.
abbrev pub is_alive : ℕ → Option Value → Bool
is_alive now (some (number (pos exp))) = ltb exp unix_limit && not (ltb (exp * second) now)
is_alive now _ = false

abbrev pub kid_of : (Bytes → Option String) → Bytes → Checked VerifyError String
kid_of unmarshal_kid raw =
    if is_empty raw || bytes_eq raw (codes "null")
    then ok ""
    else some_or invalid_kid (unmarshal_kid raw)

module _ (crypto : Crypto) where
  open crypto use {unmarshal_header, unmarshal_kid, unmarshal_claims, ed_verify}
  open crypto.codec use {mac, encode, decode}

  unfoldable pub check_hs256 : Verifier → Bytes → Bytes → Checked VerifyError Unit
  check_hs256 v signing_input sig = do
    check (not (is_empty v.local_secret)) hs256_not_accepted
    check (bytes_eq sig (encode (mac v.local_secret signing_input))) invalid_signature

  unfoldable pub check_eddsa : Verifier → Bytes → Bytes → Bytes → Checked VerifyError Unit
  check_eddsa v raw_kid signing_input sig_text = do
    check (not (no_keys v.ed_keys)) eddsa_not_accepted
    kid ← kid_of unmarshal_kid raw_kid
    key ← some_or unknown_kid (get_key kid v.ed_keys)
    sig ← some_or invalid_signature (decode sig_text)
    check (length sig == 64) invalid_signature
    check (ed_verify key signing_input sig) invalid_signature

  abbrev pub check_signature : Verifier → Header → Bytes → Bytes → Checked VerifyError Unit
  check_signature v header signing_input sig =
      if str_eq header.alg "HS256"
      then check_hs256 v signing_input sig
      else if str_eq header.alg "EdDSA"
      then check_eddsa v header.kid signing_input sig
      else err unsupported_alg

  unfoldable pub verify_local : Verifier → ℕ → Bytes → Checked VerifyError Fields
  unfolding check_hs256 check_eddsa
  verify_local v now token = do
    parts ← some_or invalid_format (three_parts (split_dots token))
    header_json ← some_or invalid_header (decode parts.0)
    header ← some_or invalid_header (unmarshal_header header_json)
    check (not (equal_fold header.typ "step-up")) step_up_token
    check_signature v header (parts.0 ⊙ parts.1) parts.2
    payload ← some_or invalid_payload (decode parts.1)
    claims ← some_or invalid_claims (unmarshal_claims payload)
    check (str_eq (get_string claims "iss") v.local_issuer) issuer_mismatch
    check (is_alive now (lookup "exp" claims)) token_expired
    ok claims

  abbrev pub of_id_token : Option (Option Fields) → Checked VerifyError Fields
  of_id_token none = err verification_failed
  of_id_token (some none) = err invalid_oidc_claims
  of_id_token (some (some claims)) = ok claims

  abbrev pub verify_oidc : Option OidcVerifier → Bytes → Checked VerifyError Fields
  verify_oidc none token = err verification_failed
  verify_oidc (some oidc) token = of_id_token (oidc token)

  abbrev pub or_oidc : Verifier → Bytes → Checked VerifyError Fields → Checked VerifyError Fields
  or_oidc v token (ok claims) = ok claims
  or_oidc v token (err e) = verify_oidc v.oidc_verifier token

  unfoldable pub verify : Verifier → ℕ → Bytes → Checked VerifyError Fields
  unfolding verify_local
  verify v now token = or_oidc v token (verify_local v now token)
