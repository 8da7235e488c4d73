-- ===== src/Jwt/Keyed.antt =====
-- A configuration with Ed25519 keys, and one with an HMAC secret, for the tests.
use mod_users.Prelude.{◌≡◌, refl, String, Bool, true, Option, none, [], ◌∷◌, ◌++◌}
use mod_users.Api.{ok}
use mod_users.Tokens.{Bytes}
use mod_users.StepUp.Accept.{bytes_eq_refl}
use mod_users.Jwt.{Verifier, OidcVerifier}
use mod_users.Jwt.Options.{LocalAuthConfig, new_local_verifier, public_of}
use mod_users.Jwt.Signer.{Signer, hs256, eddsa, new_signer}
use mod_users.Jwt.Sample.{repeat, ed_verify, ed_sign}

abbrev pub no_oidc : String → String → Bool → Option OidcVerifier
no_oidc issuer client tls = none

abbrev pub private_key : Bytes
private_key = repeat 32 5 ++ repeat 32 6

abbrev pub config : LocalAuthConfig
config = record {
  jwt_secret = [];
  jwt_alg = "EdDSA";
  jwt_signing_key = private_key;
  jwt_signing_kid = "k1";
  jwt_verify_public_keys = ("k0", repeat 32 7) ∷ [];
  local_issuer = "local";
}

abbrev pub signer : Signer
signer = record { key = eddsa private_key; kid = "k1" }

abbrev pub verifier : Verifier
verifier = record {
  oidc_verifier = none;
  local_secret = [];
  local_issuer = "local";
  ed_keys = ("k1", repeat 32 6) ∷ ("k0", repeat 32 7) ∷ [];
}

pub signer_made : new_signer config ≡ ok signer
unfolding new_signer
signer_made = refl

pub verifier_made : new_local_verifier no_oidc config ≡ ok verifier
unfolding new_local_verifier
verifier_made = refl

pub pair : (text : Bytes) → ed_verify (public_of private_key) text (ed_sign private_key text) ≡ true
pair text = bytes_eq_refl (ed_sign private_key text)

abbrev pub hs256_config : LocalAuthConfig
hs256_config = record {
  jwt_secret = repeat 32 9;
  jwt_alg = "HS256";
  jwt_signing_key = [];
  jwt_signing_kid = "k1";
  jwt_verify_public_keys = [];
  local_issuer = "local";
}

abbrev pub hs256_signer : Signer
hs256_signer = record { key = hs256 (repeat 32 9); kid = "k1" }

abbrev pub hs256_verifier : Verifier
hs256_verifier = record {
  oidc_verifier = none;
  local_secret = repeat 32 9;
  local_issuer = "local";
  ed_keys = [];
}

pub hs256_signer_made : new_signer hs256_config ≡ ok hs256_signer
unfolding new_signer
hs256_signer_made = refl

pub hs256_verifier_made : new_local_verifier no_oidc hs256_config ≡ ok hs256_verifier
unfolding new_local_verifier
hs256_verifier_made = refl
