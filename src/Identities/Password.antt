-- ===== src/Identities/Password.antt =====
-- SetPassword of api/internal/handlers/identities.go, from the decoded request on.
use mod_users.Prelude.{String, Bool, not, Option, none, some, [], ◌∷◌, ltb, find, if◌then◌else◌}
use mod_users.Api.{
  ApiError, invalid_input, internal, detailed, Exec, ◌>>=◌, ◌>>◌, pure, raise, guard, query, row_or,
}
use mod_users.Tokens.{is_empty}
use mod_users.Text.{Text, byte_len}
use mod_users.Identities.Handlers.{
  AuthLocal, Db, get_local, upsert_local, Env, TxError, failed, Tx, require_step_up, is_local_of,
  upsert_auth_local, entry, safe_observe, safe_observe_after_commit, run_tx,
}

abbrev pub refused : String → String → ApiError
refused code message =
    invalid_input (record { field = "new_password"; code = code; message = message } ∷ [])

-- setPasswordRequest.Validate: the first problem.
unfoldable pub validate : Text → Exec Db ApiError Unit
validate new_password = do
  guard (not (is_empty new_password))
      (refused "users.new_password_required" "new_password is required")
  guard (not (ltb (byte_len new_password) 12))
      (refused "users.password_too_short" "password must be at least 12 characters")

abbrev pub bad_credentials : String → ApiError
bad_credentials message =
    detailed 401 "unauthenticated" "authentication is required" (
      record { field = "current_password"; code = "users.bad_credentials"; message = message } ∷ [])

abbrev pub current_required : ApiError
current_required = bad_credentials "current_password is required to change an existing password"

abbrev pub verified : Option Bool → Exec Db ApiError Unit
verified none = raise internal
verified (some same) = guard same (bad_credentials "current password is incorrect")

-- An account with a password must give it.
unfoldable pub check_current : Env → Option Text → Option AuthLocal → Exec Db ApiError Unit
check_current env current none = pure tt
check_current env none (some row) = raise current_required
check_current env (some current) (some row) =
    if is_empty current
    then raise current_required
    else verified (env.verify_password current row.password_hash)

abbrev pub operation_of : Option AuthLocal → String
operation_of none = "create"
operation_of (some row) = "update"

unfoldable pub set_password_body : Env → String → Text → Exec Db TxError Unit
set_password_body env op hash = do
  query (env.fails upsert_local) failed (λ db.
      (tt, record db { auth_local = upsert_auth_local env.user_account_id hash db.auth_local }))
  safe_observe env (entry env op "auth_local" none)

unfoldable pub set_password : Tx → Env → Option Text → Text → Exec Db ApiError Unit
unfolding require_step_up validate
set_password tx env current new_password = do
  validate new_password
  require_step_up env
  found ←
      query (env.fails get_local) internal
        (λ db. (find (is_local_of env.user_account_id) db.auth_local, db))
  check_current env current found
  hash ← row_or internal (env.hash_password new_password)
  run_tx tx (set_password_body env (operation_of found) hash)
  safe_observe_after_commit env (entry env (operation_of found) "auth_local" none)
