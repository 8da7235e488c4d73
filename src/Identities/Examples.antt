-- ===== src/Identities/Examples.antt =====
-- An account with a linked identity and a password, and the theorems at it.
use mod_users.Prelude.{
  ◌≤◌, String, ◌≡◌, refl, ◌⊎◌, Bool, true, false, Option, none, some, List, [], ◌∷◌, count, find,
  arith,
}
use mod_users.Api.{action_required, ok, err}
use mod_users.Api.Sample.{direct_tx}
use mod_users.Tokens.{codes, bytes_eq}
use mod_users.Tokens.Sample.{sample_codec}
use mod_users.Text.{Text, byte_len}
use mod_users.StepUp.{step_up_required}
use mod_users.StepUp.Sample.{json}
use mod_users.Identities.Handlers.{
  OidcIdentity, AuthLocal, Entry, Db, Query, Env, Tx, is_local_of, entry, unlink, remove_password,
}
use mod_users.Identities.Password.{set_password}
use mod_users.Identities.Remaining.{has_uuid, methods}
use mod_users.Identities.Calls.{Call, unlinking, removing_password, apply_all, sign_in_remains}
use mod_users.Identities.Access.{refused_without_step_up, set_password_success}

abbrev tx : Tx
tx A = direct_tx

abbrev env : Bool → Env
env required = record {
  now = 100;
  user_account_id = 7;
  step_up_header = [];
  step_up_required = required;
  jwt_secret = 1 ∷ [];
  codec = sample_codec;
  json = json;
  fails = λ q. false;
  has_observer = true;
  verify_password = λ given hash. some (bytes_eq hash (0 ∷ given));
  hash_password = λ password. some (0 ∷ password);
}

abbrev local : Text → AuthLocal
local password = record { user_account_id = 7; password_hash = 0 ∷ password }

abbrev start : Db
start = record {
  oidc_identities = record { id = 1; uuid = "i1"; user_account_id = 7 } ∷ [];
  auth_local = local (codes "old password") ∷ [];
  consumed = [];
  audit = [];
  notified = [];
}

abbrev calls : List (Env × Call)
calls = (env false, removing_password) ∷ (env false, unlinking "i1") ∷ []

unique : (u : String) → count (has_uuid u) start.oidc_identities ≤ 1
unique u = ground arith

sign_in_remains_example : 1 ≤ methods 7 (apply_all tx calls start)
sign_in_remains_example = sign_in_remains tx calls 7 start unique (ground arith)

refused_without_step_up_example :
    (unlink tx (env true) "i1" start ≡ (err (action_required "users.step_up_required"), start))
    × (remove_password tx (env true) start
        ≡ (err (action_required "users.step_up_required"), start))
    × (set_password tx (env true) none (codes "new password") start
        ≡ (err (action_required "users.step_up_required"), start))
unfolding mod_users.StepUp.check_step_up byte_len
refused_without_step_up_example =
    refused_without_step_up tx (env true) "i1" none (codes "new password") start step_up_required
      refl refl (ground arith)

abbrev changed : Db
changed = record start {
  auth_local = local (codes "new password") ∷ [];
  audit = entry (env false) "update" "auth_local" none ∷ [];
  notified = entry (env false) "update" "auth_local" none ∷ [];
}

sets_password :
    set_password tx (env false) (some (codes "old password")) (codes "new password") start
    ≡ (ok tt, changed)
unfolding set_password byte_len mod_users.StepUp.check_step_up
    mod_users.Identities.Password.check_current mod_users.Identities.Password.set_password_body
    mod_users.Identities.Handlers.upsert_auth_local
sets_password = refl

set_password_success_example :
    (12 ≤ byte_len (codes "new password"))
    × (hash : Text) × (◌≡◌ {A = Option Text} (some (0 ∷ codes "new password")) (some hash))
    × (find (is_local_of 7) changed.auth_local
        ≡ some (record { user_account_id = 7; password_hash = hash }))
    × ((find (is_local_of 7) start.auth_local ≡ none)
        ⊎ ((r : AuthLocal) × (given : Text) × (find (is_local_of 7) start.auth_local ≡ some r)
            × (◌≡◌ {A = Option Text} (some (codes "old password")) (some given))
            × (◌≡◌ {A = Option Bool} (some (bytes_eq r.password_hash (0 ∷ given))) (some true))))
set_password_success_example =
    set_password_success tx (env false) (some (codes "old password")) (codes "new password") start
      changed sets_password
