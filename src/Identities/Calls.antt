-- ===== src/Identities/Calls.antt =====
-- Sequences of requests that change the ways to sign in.
use mod_users.Prelude.{
  ℕ, ◌≤◌, String, inl, inr, Option, List, [], ◌∷◌, count, find, Option-cases, Bool-cases, arith,
}
use mod_users.Api.{Result-cases, ApiError, Exec}
use mod_users.Text.{Text}
use mod_users.Identities.Handlers.{
  AuthLocal, Db, get_local, Env, Tx, is_local_of, unlink_body, remove_password_body,
  require_step_up, unlink, remove_password,
}
use mod_users.Identities.Password.{
  operation_of, validate, check_current, set_password_body, set_password,
}
use mod_users.Identities.Remaining.{
  has_uuid, methods, unlink_body-keeps, remove_password_body-keeps, set_password_body-keeps,
}
use mod_users.Identities.Requests.{
  run_tx-cases, gate-tables, validate-store, check_current-store, unlink_unique,
  remove_password-oidc, set_password-oidc,
}

pub data Call : Type 0 where
  unlinking : String → Call
  removing_password : Call
  setting_password : Option Text → Text → Call

unfoldable pub apply : Tx → Env → Call → Exec Db ApiError Unit
apply tx env (unlinking uuid) = unlink tx env uuid
apply tx env removing_password = remove_password tx env
apply tx env (setting_password current new_password) = set_password tx env current new_password

unfoldable pub apply_all : Tx → List (Env × Call) → Db → Db
unfolding apply
apply_all tx [] db = db
apply_all tx ((env, call) ∷ calls) db = apply_all tx calls (apply tx env call db).1

unlink-keeps :
    (tx : Tx) (env : Env) (uuid : String) (v : ℕ) (db : Db)
    → count (has_uuid uuid) db.oidc_identities ≤ 1
    → 1 ≤ methods v db
    → 1 ≤ methods v (unlink tx env uuid db).1
unfolding unlink
unlink-keeps tx env uuid v db unique has =
    let gated : Db = (require_step_up env db).1 in
    let (same_oidc, same_local) = gate-tables env db in
    elim (Result-cases (require_step_up env db).0) [
      | inr (e, refused) ↦ ground arith
      | inl (u, passed) ↦ elim (run_tx-cases tx (unlink_body env uuid) gated) [
        | inr (e, failed) ↦ ground arith
        | inl (u', done, committed) ↦
            let kept = unlink_body-keeps env uuid v gated (ground arith) done (ground arith) in
            ground arith
      ]
    ]

remove_password-keeps :
    (tx : Tx) (env : Env) (v : ℕ) (db : Db)
    → 1 ≤ methods v db
    → 1 ≤ methods v (remove_password tx env db).1
unfolding remove_password
remove_password-keeps tx env v db has =
    let gated : Db = (require_step_up env db).1 in
    let (same_oidc, same_local) = gate-tables env db in
    elim (Result-cases (require_step_up env db).0) [
      | inr (e, refused) ↦ ground arith
      | inl (u, passed) ↦ elim (run_tx-cases tx (remove_password_body env) gated) [
        | inr (e, failed) ↦ ground arith
        | inl (u', done, committed) ↦
            let kept = remove_password_body-keeps env v gated done (ground arith) in ground arith
      ]
    ]

set_password-keeps :
    (tx : Tx) (env : Env) (current : Option Text) (new_password : Text) (v : ℕ) (db : Db)
    → 1 ≤ methods v db
    → 1 ≤ methods v (set_password tx env current new_password db).1
unfolding set_password
set_password-keeps tx env current new_password v db has =
    let gated : Db = (require_step_up env db).1 in
    let row : Option AuthLocal = find (is_local_of env.user_account_id) db.auth_local in
    let (same_oidc, same_local) = gate-tables env db in
    let fine = validate-store new_password db in
    elim (Result-cases (validate new_password db).0) [
      | inr (e, bad) ↦ ground arith
      | inl (u0, valid) ↦ elim (Result-cases (require_step_up env db).0) [
        | inr (e, refused) ↦ ground arith
        | inl (u, passed) ↦ elim (Bool-cases (env.fails get_local)) [
          | inl down ↦ ground arith
          | inr up ↦ elim (Result-cases (check_current env current row gated).0) [
            | inr (e, wrong) ↦ ground (arith, check_current-store env current row gated)
            | inl (u2, right) ↦
                let same = check_current-store env current row gated in
                elim (Option-cases (env.hash_password new_password)) [
                  | inl broken ↦ ground arith
                  | inr (hash, hashed) ↦
                      let kept =
                        set_password_body-keeps env (operation_of row) hash v gated
                          (ground arith) in
                      elim (run_tx-cases tx (set_password_body env (operation_of row) hash) gated) [
                        | inr (e, failed) ↦ ground arith
                        | inl (u3, done, committed) ↦ ground arith
                      ]
                ]
          ]
        ]
      ]
    ]

-- A request leaves the identities' uuids as unique as they were.
apply_unique :
    (tx : Tx) (env : Env) (call : Call) (u : String) (db : Db)
    → count (has_uuid u) db.oidc_identities ≤ 1
    → count (has_uuid u) (apply tx env call db).1.oidc_identities ≤ 1
unfolding apply
apply_unique tx env (unlinking uuid) u db h = unlink_unique tx env uuid u db h
apply_unique tx env removing_password u db h = rw (remove_password-oidc tx env db) h
apply_unique tx env (setting_password current new_password) u db h =
    rw (set_password-oidc tx env current new_password db) h

apply-keeps :
    (tx : Tx) (env : Env) (call : Call) (v : ℕ) (db : Db)
    → ((u : String) → count (has_uuid u) db.oidc_identities ≤ 1)
    → 1 ≤ methods v db
    → 1 ≤ methods v (apply tx env call db).1
unfolding apply
apply-keeps tx env (unlinking uuid) v db unique has =
    unlink-keeps tx env uuid v db (unique uuid) has
apply-keeps tx env removing_password v db unique has = remove_password-keeps tx env v db has
apply-keeps tx env (setting_password current new_password) v db unique has =
    set_password-keeps tx env current new_password v db has

-- Whatever requests are made to unlink identities and to remove or set passwords, by whichever
-- accounts, and whichever of their calls and transactions fail: an account that has a way to sign in
-- keeps one, as long as the uuids of the linked identities are distinct.
pub sign_in_remains :
    (tx : Tx) (calls : List (Env × Call)) (v : ℕ) (db : Db)
    → ((u : String) → count (has_uuid u) db.oidc_identities ≤ 1)
    → 1 ≤ methods v db
    → 1 ≤ methods v (apply_all tx calls db)
unfolding apply_all
sign_in_remains tx [] v db unique has = has
sign_in_remains tx ((env, call) ∷ calls) v db unique has =
    sign_in_remains tx calls v (apply tx env call db).1
      (λ u. apply_unique tx env call u db (unique u)) (apply-keeps tx env call v db unique has)
