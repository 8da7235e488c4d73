-- ===== src/Guards/Examples.antt =====
-- Requests to a gate with Ed25519 keys, and the theorems at them.
use mod_users.Prelude.{◌*◌, ◌≡◌, ◌⊎◌, refl, true, false, none, some, List, [], ◌∷◌, ◌++◌, arith}
use mod_users.Api.{ApiError, internal, ok, err}
use mod_users.Tokens.{Bytes, codes, is_empty}
use mod_users.Accounts.{UserAccount}
use mod_users.Claims.Mappers.{ClaimMapper, google}
use mod_users.Jwt.{second}
use mod_users.Jwt.Signer.{issue_local_jwt}
use mod_users.Jwt.Sample.{crypto, library}
use mod_users.Jwt.Keyed.{no_oidc, config, signer, verifier, signer_made, verifier_made, pair}
use mod_users.Resolver.{Db, Env, UserContext}
use mod_users.Guards.{
  Gate, bearer, authenticate_request, context_with_authenticated_actor, anonymous_context,
  require_auth, resolve_actor_or_anonymous, require_verified_email,
}
use mod_users.Guards.Anonymous.{never_downgraded}
use mod_users.Guards.Boot.{ProviderInitView}
use mod_users.Guards.SignedIn.{issued_token_signs_in}

abbrev env : Env
env = record {
  now = 100;
  fails = λ q. false;
  local_issuer = "local";
  has_uuid_lookup = true;
  has_observer = false;
  has_first_user_hook = false;
  new_account_id = 9;
  new_account_uuid = "u9";
  new_identity_id = 4;
  new_identity_uuid = "i4";
  new_entity_id = 90;
  parse_uuid = λ s. some s;
  lower = λ s. s;
  canonical = λ s. s;
}

abbrev account : UserAccount
account = record {
  id = 7;
  uuid = "u7";
  account_holder = 70;
  email = some "a@b";
  email_verified_at = none;
  default_app_id = none;
}

abbrev db : Db
db = record {
  accounts = account ∷ [];
  identities = [];
  persons = [];
  audit = [];
  notified = [];
  hooked = [];
}

abbrev mapper : ClaimMapper
mapper =
    google (record { admin_role = "admin"; roles_namespace = ""; roles_path = ""; email_path = "" })

abbrev gate : Gate
gate = record {
  clock = 2000 * second;
  crypto = crypto;
  verifier = verifier;
  mapper = mapper;
  to_lower = λ s. s;
  resolver = env;
}

issued_token_signs_in_example :
    (token : Bytes) × (uc : UserContext) × (issue_local_jwt crypto library
        (1000 * second)
        "u7"
        signer
        "local"
      ≡ ok token)
    × (authenticate_request gate (bearer ++ token) db ≡ (ok uc, db))
    × (uc.user_account_id ≡ 7)
    × (uc.entity_id ≡ 70)
unfolding mod_users.Accounts.get_user_account_by_uuid
issued_token_signs_in_example =
    issued_token_signs_in crypto library no_oidc config verifier signer (1000 * second)
      (2000 * second) mapper (λ s. s) env account db (λ other. pair) signer_made verifier_made
      (omega arith) (omega arith) tt refl refl refl refl refl refl refl

never_downgraded_example :
    ((is_empty (codes "Basic x") ≡ true)
      × (resolve_actor_or_anonymous gate 3 (codes "Basic x") db ≡ (ok (anonymous_context 3), db))
      × (require_verified_email (anonymous_context 3) ≡ err internal))
    ⊎ ((is_empty (codes "Basic x") ≡ false)
        × (resolve_actor_or_anonymous gate 3 (codes "Basic x") db
            ≡ require_auth gate (codes "Basic x") db)
        × (((e : ApiError) × ((require_auth gate (codes "Basic x") db).0 ≡ err e))
            ⊎ ((uc : UserContext) × ((authenticate_request gate (codes "Basic x") db).0 ≡ ok uc)
                × ((require_auth gate (codes "Basic x") db).0
                    ≡ ok (context_with_authenticated_actor uc))
                × ((context_with_authenticated_actor uc).anonymous ≡ false))))
never_downgraded_example = never_downgraded gate 3 (codes "Basic x") db

abbrev providers : List ProviderInitView
providers =
    record { id = "google"; configured = true; enabled = true; init_ok = true }
    ∷ record { id = "github"; configured = true; enabled = false; init_ok = false }
    ∷ []
