-- ===== src/Identities/Remaining.antt =====
-- The transactions leave an account that has a way to sign in with one.
use mod_users.Prelude.{
  ℕ, ◌+◌, ◌≤◌, String, ◌≡◌, Bool, true, false, not, inl, inr, List, [], ◌∷◌, str_eq, ◌==◌, count,
  select, find, is_some, Bool-cases, arith,
}
use mod_users.Api.{ok}
use mod_users.Text.{Text}
use mod_users.Identities.Handlers.{
  OidcIdentity, AuthLocal, Db, Env, is_of, is_local_of, identity_counts, is_target,
  delete_oidc_identity_by_uuid, delete_auth_local, upsert_auth_local, unlink_body,
  remove_password_body,
}
use mod_users.Identities.Password.{set_password_body}

abbrev pub has_uuid : String → OidcIdentity → Bool
has_uuid uuid r = str_eq r.uuid uuid

-- The ways to sign in to an account: its linked identities, and its password.
abbrev pub methods : ℕ → Db → ℕ
methods uid db = count (is_of uid) db.oidc_identities + count (is_local_of uid) db.auth_local

find-count :
    (uid : ℕ) (rows : List AuthLocal)
    → is_some (find (is_local_of uid) rows) ≡ true
    → 1 ≤ count (is_local_of uid) rows
find-count uid [] h = absurd (cc)
find-count uid (r ∷ rows) h = ground (arith, find-count uid rows)

target-le :
    (uuid : String) (uid : ℕ) (rows : List OidcIdentity)
    → count (is_target uuid uid) rows ≤ count (has_uuid uuid) rows
target-le uuid uid [] = omega arith
target-le uuid uid (r ∷ rows) = ground (arith, target-le uuid uid rows)

-- Deleting takes as many from the account as it deletes, and none from another.
delete-own :
    (uuid : String) (uid : ℕ) (rows : List OidcIdentity)
    → count (is_of uid) (select (λ r. not (is_target uuid uid r)) rows)
        + count (is_target uuid uid) rows
      ≡ count (is_of uid) rows
delete-own uuid uid [] = omega arith
delete-own uuid uid (r ∷ rows) = ground (arith, delete-own uuid uid rows)

delete-other :
    (uuid : String) (uid v : ℕ) (rows : List OidcIdentity)
    → (v == uid) ≡ false
    → count (is_of v) (select (λ r. not (is_target uuid uid r)) rows) ≡ count (is_of v) rows
delete-other uuid uid v [] h = omega arith
delete-other uuid uid v (r ∷ rows) h = ground (arith, delete-other uuid uid v rows)

delete-local-other :
    (uid v : ℕ) (rows : List AuthLocal)
    → (v == uid) ≡ false
    → count (is_local_of v) (select (λ r. not (is_local_of uid r)) rows)
      ≡ count (is_local_of v) rows
delete-local-other uid v [] h = omega arith
delete-local-other uid v (r ∷ rows) h = ground (arith, delete-local-other uid v rows)

upsert-le :
    (uid v : ℕ) (hash : Text) (rows : List AuthLocal)
    → count (is_local_of v) rows ≤ count (is_local_of v) (upsert_auth_local uid hash rows)
unfolding upsert_auth_local
upsert-le uid v hash [] = omega arith
upsert-le uid v hash (r ∷ rows) = ground (arith, upsert-le uid v hash rows)

pub unlink_body-keeps :
    (env : Env) (uuid : String) (v : ℕ) (db : Db)
    → count (has_uuid uuid) db.oidc_identities ≤ 1
    → (unlink_body env uuid db).0 ≡ ok tt
    → 1 ≤ methods v db
    → 1 ≤ methods v (unlink_body env uuid db).1
unfolding unlink_body identity_counts delete_oidc_identity_by_uuid
unlink_body-keeps env uuid v db unique done has =
    let uid : ℕ = env.user_account_id in
    let rows : List OidcIdentity = db.oidc_identities in
    elim (Bool-cases (v == uid)) [
      | inr other ↦ ground (arith, delete-other uuid uid v rows other)
      | inl own ↦
          ground
            (arith, delete-own uuid uid rows, target-le uuid uid rows, find-count uid db.auth_local)
    ]

pub remove_password_body-keeps :
    (env : Env) (v : ℕ) (db : Db)
    → (remove_password_body env db).0 ≡ ok tt
    → 1 ≤ methods v db
    → 1 ≤ methods v (remove_password_body env db).1
unfolding remove_password_body identity_counts delete_auth_local
remove_password_body-keeps env v db done has = elim (Bool-cases (v == env.user_account_id)) [
  | inr other ↦ ground (arith, delete-local-other env.user_account_id v db.auth_local other)
  | inl own ↦ ground arith
]

pub set_password_body-keeps :
    (env : Env) (op : String) (hash : Text) (v : ℕ) (db : Db)
    → 1 ≤ methods v db
    → 1 ≤ methods v (set_password_body env op hash db).1
unfolding set_password_body
set_password_body-keeps env op hash v db has =
    ground (arith, upsert-le env.user_account_id v hash db.auth_local)

pub delete_unique :
    (uuid u : String) (uid : ℕ) (rows : List OidcIdentity)
    → count (has_uuid u) (select (λ r. not (is_target uuid uid r)) rows) ≤ count (has_uuid u) rows
delete_unique uuid u uid [] = omega arith
delete_unique uuid u uid (r ∷ rows) = ground (arith, delete_unique uuid u uid rows)
