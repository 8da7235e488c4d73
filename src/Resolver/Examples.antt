-- ===== src/Resolver/Examples.antt =====
-- Two accounts, and the theorems at them.
use mod_users.Prelude.{
  ℕ, ◌≤◌, ◌≡◌, refl, String, Bool, true, false, Option, none, some, List, [], ◌∷◌, count, arith,
}
use mod_users.Api.{ok}
use mod_users.Accounts.{UserAccount}
use mod_users.Claims.{Principal}
use mod_users.Resolver.{Db, Query, Env, UserContext, is_identity}
use mod_users.Resolver.Resolve.{resolve}
use mod_users.Resolver.Change.{Change, resolve-Change}
use mod_users.Resolver.Calls.{
  resolve_all, identities_stay_unique, IsUnverified, identities_of, no_takeover,
}
use mod_users.Resolver.Again.{resolve_again}

abbrev env : Env
env = record {
  now = 100;
  fails = λ q. false;
  local_issuer = "local";
  has_uuid_lookup = true;
  has_observer = true;
  has_first_user_hook = true;
  new_account_id = 9;
  new_account_uuid = "u9";
  new_identity_id = 4;
  new_identity_uuid = "i4";
  new_entity_id = 90;
  parse_uuid = λ s. some s;
  lower = λ s. s;
  canonical = λ s. s;
}

abbrev account : ℕ → String → String → ℕ → Option ℕ → UserAccount
account id uuid email holder verified = record {
  id = id;
  uuid = uuid;
  account_holder = holder;
  email = some email;
  email_verified_at = verified;
  default_app_id = none;
}

abbrev db : Db
db = record {
  accounts = account 7 "u7" "a@b" 70 (some 50) ∷ account 8 "u8" "c@d" 80 none ∷ [];
  identities = [];
  persons = [];
  audit = [];
  notified = [];
  hooked = [];
}

abbrev principal : String → Bool → Principal
principal email verified = record {
  subject = "s1";
  issuer = "google";
  email = email;
  email_verified = verified;
  roles = [];
  sudo_user_uuid = "";
}

resolve-Change_example :
    Change env
      (principal "c@d" true)
      db
      (resolve env (principal "c@d" true) db).1.accounts
      (resolve env (principal "c@d" true) db).1.identities
resolve-Change_example = resolve-Change env (principal "c@d" true) db

abbrev calls : List (Env × Principal)
calls = (env, principal "c@d" false) ∷ (env, principal "a@b" false) ∷ []

identities_stay_unique_example :
    count (is_identity "google" "s1") (resolve_all calls db).identities ≤ 1
identities_stay_unique_example = identities_stay_unique calls db "google" "s1" (omega arith)

no_takeover_example :
    IsUnverified 8 (resolve_all calls db).accounts
    × (identities_of 8 (resolve_all calls db).identities ≡ 0)
no_takeover_example = no_takeover calls db 8 (refl, (refl, tt)) (refl, refl)

abbrev context : UserContext
context = record {
  user_account_id = 7;
  user_uuid = "u7";
  entity_id = 70;
  email = "a@b";
  email_verified_at = some 50;
  assumed_user = none;
  app_id = none;
}

resolved : (resolve env (principal "a@b" false) db).0 ≡ ok context
unfolding resolve mod_users.Resolver.get_oidc_identity_by_issuer_subject
    mod_users.Accounts.get_user_account_by_email
resolved = refl

resolve_again_example :
    (uc' : UserContext) × ((resolve env
        (principal "new@b" false)
        (resolve env (principal "a@b" false) db).1).0
      ≡ ok uc')
    × (uc'.user_account_id ≡ 7)
resolve_again_example =
    resolve_again env env (principal "a@b" false) (principal "new@b" false) db context refl refl
      refl refl refl resolved refl refl
