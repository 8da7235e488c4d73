-- ===== src/Identities/Access.antt =====
-- What a change of the ways to sign in needs.
use mod_users.Prelude.{
  ℕ, ◌≤◌, String, ◌≡◌, refl, true, false, ◌⊎◌, inl, inr, Option, none, some, List, [], ◌∷◌, find,
  Option-cases, Bool-cases, arith,
}
use mod_users.Api.{Result-cases, ok, err}
use mod_users.Text.{Text}
use mod_users.Identities.Handlers.{
  AuthLocal, Db, get_local, Env, Tx, is_local_of, upsert_auth_local, require_step_up, unlink,
  remove_password,
}
use mod_users.Identities.Password.{
  operation_of, validate, check_current, set_password_body, set_password,
}
use mod_users.Tokens.{is_empty}
use mod_users.Text.{byte_len}
use mod_users.Api.{action_required}
use mod_users.StepUp.{StepUpError, check_step_up}
use mod_users.Identities.Requests.{run_tx-cases, gate-tables, validate-store, check_current-store}

-- Where the step-up check refuses the request's token, an identity is not unlinked and a password is
-- neither removed nor set, if it is long enough to be looked at: the answer asks for step-up, and
-- nothing but the record of consumed tokens may change.
pub refused_without_step_up :
    (tx : Tx) (env : Env) (uuid : String) (current : Option Text) (new_password : Text) (db : Db)
    (e : StepUpError)
    → (check_step_up env.codec env.json env.now env.step_up_required env.jwt_secret
        env.step_up_header env.user_account_id db.consumed).0
      ≡ err e
    → is_empty new_password ≡ false
    → 12 ≤ byte_len new_password
    → let after : Db = record db {
      consumed =
          (check_step_up env.codec env.json env.now env.step_up_required env.jwt_secret
            env.step_up_header env.user_account_id db.consumed).1;
    } in
      (unlink tx env uuid db ≡ (err (action_required "users.step_up_required"), after))
      × (remove_password tx env db ≡ (err (action_required "users.step_up_required"), after))
      × (set_password tx env current new_password db
          ≡ (err (action_required "users.step_up_required"), after))
unfolding unlink remove_password set_password require_step_up validate
refused_without_step_up tx env uuid current new_password db e refused some_text long =
    (ground arith, ground arith, ground arith)

validate-long :
    (new_password : Text) (db : Db)
    → (validate new_password db).0 ≡ ok tt
    → 12 ≤ byte_len new_password
unfolding validate
validate-long new_password db valid = ground arith

find-upsert :
    (uid : ℕ) (hash : Text) (rows : List AuthLocal)
    → find (is_local_of uid) (upsert_auth_local uid hash rows)
      ≡ some (record { user_account_id = uid; password_hash = hash })
unfolding upsert_auth_local
find-upsert uid hash [] = ground arith
find-upsert uid hash (r ∷ rows) = ground (arith, find-upsert uid hash rows)

set_password_body-local :
    (env : Env) (op : String) (hash : Text) (db : Db)
    → (set_password_body env op hash db).0 ≡ ok tt
    → (set_password_body env op hash db).1.auth_local
      ≡ upsert_auth_local env.user_account_id hash db.auth_local
unfolding set_password_body
set_password_body-local env op hash db done = ground arith

check_current-ok :
    (env : Env) (current : Option Text) (row : Option AuthLocal) (db : Db)
    → (check_current env current row db).0 ≡ ok tt
    → (row ≡ none)
      ⊎ ((r : AuthLocal) × (given : Text) × (row ≡ some r)
          × (current ≡ some given)
          × (env.verify_password given r.password_hash ≡ some true))
unfolding check_current
check_current-ok env current none db e = inl refl
check_current-ok env none (some r) db e = absurd (cc)
check_current-ok env (some given) (some r) db e =
    elim (Option-cases (env.verify_password given r.password_hash)) [
      | inl broken ↦ absurd (ground arith)
      | inr (same, known) ↦ inr (r, given, refl, refl, ground arith)
    ]

-- A password that is set has at least 12 bytes, and its hash is what is found for the account
-- afterwards. An account that had a password gave it, and it was verified.
pub set_password_success :
    (tx : Tx) (env : Env) (current : Option Text) (new_password : Text) (db db' : Db)
    → set_password tx env current new_password db ≡ (ok tt, db')
    → (12 ≤ byte_len new_password)
      × (hash : Text) × (env.hash_password new_password ≡ some hash)
      × (find (is_local_of env.user_account_id) db'.auth_local
          ≡ some (record { user_account_id = env.user_account_id; password_hash = hash }))
      × ((find (is_local_of env.user_account_id) db.auth_local ≡ none)
          ⊎ ((r : AuthLocal) × (given : Text) × (find
                  (is_local_of env.user_account_id)
                  db.auth_local
                ≡ some r)
              × (current ≡ some given)
              × (env.verify_password given r.password_hash ≡ some true)))
unfolding set_password
set_password_success tx env current new_password db db' e =
    let gated : Db = (require_step_up env db).1 in
    let row : Option AuthLocal = find (is_local_of env.user_account_id) db.auth_local in
    let (same_oidc, same_local) = gate-tables env db in
    let fine = validate-store new_password db in
    elim (Result-cases (validate new_password db).0) [
      | inr (bad, invalid) ↦ absurd (ground arith)
      | inl (u0, valid) ↦ elim (Result-cases (require_step_up env db).0) [
        | inr (bad, refused) ↦ absurd (ground arith)
        | inl (u, passed) ↦ elim (Bool-cases (env.fails get_local)) [
          | inl down ↦ absurd (ground arith)
          | inr up ↦ elim (Result-cases (check_current env current row gated).0) [
            | inr (bad, wrong) ↦ absurd (ground arith)
            | inl (u2, right) ↦
                let same = check_current-store env current row gated in
                elim (Option-cases (env.hash_password new_password)) [
                  | inl broken ↦ absurd (ground arith)
                  | inr (hash, hashed) ↦
                      elim (run_tx-cases tx (set_password_body env (operation_of row) hash) gated) [
                        | inr (bad, failed) ↦ absurd (ground arith)
                        | inl (u3, done, committed) ↦
                            let stored =
                              set_password_body-local env (operation_of row) hash gated done in
                            let found = find-upsert env.user_account_id hash db.auth_local in
                            (
                              validate-long new_password db valid,
                              hash,
                              hashed,
                              ground arith,
                              check_current-ok env current row gated right,
                            )
                      ]
                ]
          ]
        ]
      ]
    ]
