-- ===== src/Identities/Requests.antt =====
-- How the handlers end, and what they do to the linked identities.
use mod_users.Prelude.{
  ◌≤◌, String, ◌≡◌, refl, ap, ◌⊎◌, inl, inr, Option, none, some, count, find, Option-cases,
  Bool-cases, arith,
}
use mod_users.Api.{Result-cases, ApiError, ok, err, Exec}
use mod_users.Text.{Text}
use mod_users.Identities.Handlers.{
  AuthLocal, Db, get_local, Env, TxError, Tx, is_local_of, identity_counts,
  delete_oidc_identity_by_uuid, unlink_body, remove_password_body, require_step_up, run_tx,
  on_error, map_error, unlink, remove_password,
}
use mod_users.Identities.Password.{
  operation_of, validate, check_current, set_password_body, set_password,
}
use mod_users.Identities.Remaining.{has_uuid, delete_unique}

-- A transaction commits what its body did, or leaves the store.
pub run_tx-cases :
    {A : Type 0} (tx : Tx) (body : Exec Db TxError A) (db : Db)
    → ((a : A) × ((body db).0 ≡ ok a) × (run_tx tx body db ≡ (ok a, (body db).1)))
      ⊎ ((e : ApiError) × (run_tx tx body db ≡ (err e, db)))
run_tx-cases {A} tx body db = elim (Result-cases (body db).0) [
  | inr (e, failed) ↦ inr (map_error e, ap on_error ((tx A).rolls_back body db e failed))
  | inl (a, good) ↦ elim ((tx A).commits body db a good) [
    | inl same ↦ inl (a, good, ground (arith, same))
    | inr (e, failed) ↦ inr (map_error e, ap on_error failed)
  ]
]

pub gate-tables :
    (env : Env) (db : Db)
    → ((require_step_up env db).1.oidc_identities ≡ db.oidc_identities)
      × ((require_step_up env db).1.auth_local ≡ db.auth_local)
unfolding require_step_up
gate-tables env db = (refl, refl)

pub validate-store : (new_password : Text) (db : Db) → (validate new_password db).1 ≡ db
unfolding validate
validate-store new_password db = ground arith

pub check_current-store :
    (env : Env) (current : Option Text) (row : Option AuthLocal) (db : Db)
    → (check_current env current row db).1 ≡ db
unfolding check_current
check_current-store env current none db = refl
check_current-store env none (some row) db = refl
check_current-store env (some current) (some row) db = ground arith

unlink_body_unique :
    (env : Env) (uuid u : String) (db : Db)
    → count (has_uuid u) db.oidc_identities ≤ 1
    → count (has_uuid u) (unlink_body env uuid db).1.oidc_identities ≤ 1
unfolding unlink_body identity_counts delete_oidc_identity_by_uuid
unlink_body_unique env uuid u db h =
    ground (arith, delete_unique uuid u env.user_account_id db.oidc_identities)

pub unlink_unique :
    (tx : Tx) (env : Env) (uuid u : String) (db : Db)
    → count (has_uuid u) db.oidc_identities ≤ 1
    → count (has_uuid u) (unlink tx env uuid db).1.oidc_identities ≤ 1
unfolding unlink
unlink_unique tx env uuid u db h =
    let gated : Db = (require_step_up env db).1 in
    let (same_oidc, same_local) = gate-tables env db in
    let kept = unlink_body_unique env uuid u gated (ground arith) in
    elim (Result-cases (require_step_up env db).0) [
      | inr (e, refused) ↦ ground arith
      | inl (u1, passed) ↦ elim (run_tx-cases tx (unlink_body env uuid) gated) [
        | inr (e, failed) ↦ ground arith
        | inl (u2, done, committed) ↦ ground arith
      ]
    ]

remove_password_body-oidc :
    (env : Env) (db : Db) → (remove_password_body env db).1.oidc_identities ≡ db.oidc_identities
unfolding remove_password_body identity_counts
remove_password_body-oidc env db = ground arith

pub remove_password-oidc :
    (tx : Tx) (env : Env) (db : Db)
    → (remove_password tx env db).1.oidc_identities ≡ db.oidc_identities
unfolding remove_password
remove_password-oidc tx env db =
    let gated : Db = (require_step_up env db).1 in
    let (same_oidc, same_local) = gate-tables env db in
    let kept = remove_password_body-oidc env gated in
    elim (Result-cases (require_step_up env db).0) [
      | inr (e, refused) ↦ ground arith
      | inl (u1, passed) ↦ elim (run_tx-cases tx (remove_password_body env) gated) [
        | inr (e, failed) ↦ ground arith
        | inl (u2, done, committed) ↦ ground arith
      ]
    ]

set_password_body-oidc :
    (env : Env) (op : String) (hash : Text) (db : Db)
    → (set_password_body env op hash db).1.oidc_identities ≡ db.oidc_identities
unfolding set_password_body
set_password_body-oidc env op hash db = ground arith

pub set_password-oidc :
    (tx : Tx) (env : Env) (current : Option Text) (new_password : Text) (db : Db)
    → (set_password tx env current new_password db).1.oidc_identities ≡ db.oidc_identities
unfolding set_password
set_password-oidc tx env current new_password db =
    let gated : Db = (require_step_up env db).1 in
    let row : Option AuthLocal = find (is_local_of env.user_account_id) db.auth_local in
    let (same_oidc, same_local) = gate-tables env db in
    let fine = validate-store new_password db in
    elim (Result-cases (validate new_password db).0) [
      | inr (e, bad) ↦ ground arith
      | inl (u0, valid) ↦ elim (Result-cases (require_step_up env db).0) [
        | inr (e, refused) ↦ ground arith
        | inl (u, passed) ↦ elim (Bool-cases (env.fails get_local)) [
          | inl down ↦ ground arith
          | inr up ↦ elim (Result-cases (check_current env current row gated).0) [
            | inr (e, wrong) ↦ ground (arith, check_current-store env current row gated)
            | inl (u2, right) ↦
                let same = check_current-store env current row gated in
                elim (Option-cases (env.hash_password new_password)) [
                  | inl broken ↦ ground arith
                  | inr (hash, hashed) ↦
                      let kept = set_password_body-oidc env (operation_of row) hash gated in
                      elim (run_tx-cases tx (set_password_body env (operation_of row) hash) gated) [
                        | inr (e, failed) ↦ ground arith
                        | inl (u3, done, committed) ↦ ground arith
                      ]
                ]
          ]
        ]
      ]
    ]
