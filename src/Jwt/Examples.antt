-- ===== src/Jwt/Examples.antt =====
-- Tokens of a configuration, and the theorems at them.
use mod_users.Prelude.{◌*◌, ◌≡◌, refl, Option, none, some, [], ◌∷◌, arith}
use mod_users.Api.{ok, err}
use mod_users.Tokens.{Bytes, codes}
use mod_users.Tokens.Sample.{sample_codec}
use mod_users.StepUp.{StepUpPayload, new_payload, verify_step_up_token}
use mod_users.StepUp.Sample.{json}
use mod_users.Claims.{Fields, get_string}
use mod_users.Jwt.{Verifier, OidcVerifier, second, step_up_token, verify_local}
use mod_users.Jwt.Signer.{eddsa, claims_fields, local_claims, issue_local_jwt}
use mod_users.Jwt.Bearer.{IsBearer, verify_local-IsBearer}
use mod_users.Jwt.Separate.{step_up_is_not_bearer}
use mod_users.Jwt.Issued.{issued_is_accepted}
use mod_users.Jwt.Keyed.{
  no_oidc, private_key, config, signer, verifier, signer_made, verifier_made, pair, hs256_config,
  hs256_signer, hs256_verifier, hs256_signer_made, hs256_verifier_made,
}
use mod_users.Jwt.Sample.{crypto, library}

issued_is_accepted_example :
    (token : Bytes) × (f : Fields) × (issue_local_jwt crypto library
        (1000 * second)
        "u1"
        hs256_signer
        "local"
      ≡ ok token)
    × (verify_local crypto hs256_verifier (2000 * second) token ≡ ok f)
    × (get_string f "sub" ≡ "u1")
    × (get_string f "iss" ≡ "local")
issued_is_accepted_example =
    issued_is_accepted crypto library no_oidc hs256_config hs256_verifier hs256_signer
      (1000 * second) (2000 * second) "u1" (λ other. absurd (cc)) hs256_signer_made
      hs256_verifier_made (omega arith) (omega arith)

issued_is_accepted_test :
    (token : Bytes) × (f : Fields) × (issue_local_jwt crypto library
        (1000 * second)
        "u1"
        signer
        "local"
      ≡ ok token)
    × (verify_local crypto verifier (2000 * second) token ≡ ok f)
    × (get_string f "sub" ≡ "u1")
    × (get_string f "iss" ≡ "local")
issued_is_accepted_test =
    issued_is_accepted crypto library no_oidc config verifier signer (1000 * second) (2000 * second)
      "u1" (λ other. pair) signer_made verifier_made (omega arith) (omega arith)

abbrev claims : Fields
claims = claims_fields (local_claims crypto library (1000 * second) "u1" "local")

abbrev or_empty : Option Bytes → Bytes
or_empty none = []
or_empty (some b) = b

abbrev token : Bytes
token = or_empty (
    library.signed_string (eddsa private_key) "k1"
      (local_claims crypto library (1000 * second) "u1" "local"))

verified : verify_local crypto verifier (2000 * second) token ≡ ok claims
unfolding verify_local mod_users.Tokens.split_dots mod_users.Jwt.equal_fold get_string
    mod_users.Claims.lookup claims_fields
verified = refl

verify_local-IsBearer_example : IsBearer crypto verifier (2000 * second) token claims
verify_local-IsBearer_example =
    verify_local-IsBearer crypto verifier (2000 * second) token claims verified

abbrev secret : Bytes
secret = 1 ∷ 2 ∷ []

abbrev step_up : Bytes
step_up = mod_users.StepUp.step_up_token sample_codec json secret (new_payload 7 (9 ∷ []) 400)

accepted : (verify_step_up_token sample_codec json 150 secret step_up 7 []).0 ≡ ok tt
unfolding verify_step_up_token mod_users.Tokens.split_dots mod_users.StepUp.step_up_token
    mod_users.StepUp.step_up_header mod_users.StepUp.step_up_purpose
    mod_users.StepUp.store_consumed_jti mod_users.StepUp.load
accepted = refl

abbrev sharing : Verifier
sharing = record verifier { local_secret = secret }

step_up_is_not_bearer_example :
    verify_local crypto sharing (2000 * second) step_up ≡ err step_up_token
step_up_is_not_bearer_example =
    step_up_is_not_bearer crypto json sharing 150 (2000 * second) 7 secret step_up [] _ refl refl
      accepted
