-- ===== src/Identities/Handlers.antt =====
-- The handlers of api/internal/handlers/identities.go that remove or set a way to sign in, from the
-- decoded request on.
use mod_users.Prelude.{
  ℕ, String, Bool, true, false, ◌&&◌, not, Option, none, some, List, [], ◌∷◌, str_eq, ◌==◌, count,
  select, find, is_some, if◌then◌else◌,
}
use mod_users.Api.{
  ApiError, conflict, internal, detailed, action_required, Result, ok, err, Exec, ◌>>=◌, ◌>>◌, pure,
  guard, query, TxRunner,
}
use mod_users.Tokens.{Bytes, Codec}
use mod_users.Text.{Text}
use mod_users.StepUp.{PayloadJson, Consumed, StepUpError, check_step_up}

-- A row of auth_oidc_identities; what the provider says of it is left out.
pub record OidcIdentity : Type 0 where
  pub id : ℕ
  pub uuid : String
  pub user_account_id : ℕ

pub record AuthLocal : Type 0 where
  pub user_account_id : ℕ
  pub password_hash : Text

-- What the observer is told: the operation, the resource, the identity's uuid where there is one,
-- and whether step-up was used.
pub record Entry : Type 0 where
  pub operation : String
  pub resource : String
  pub uuid : Option String
  pub step_up : Bool

-- The tables, the consumed step-up tokens, the observer's entries inside and after transactions.
pub record Db : Type 0 where
  pub oidc_identities : List OidcIdentity
  pub auth_local : List AuthLocal
  pub consumed : Consumed
  pub audit : List Entry
  pub notified : List Entry

pub data Query : Type 0 where
  count_oidc get_local delete_oidc delete_local upsert_local observing : Query

-- What one request meets: the clock, the account of its session, the step-up header, the
-- configuration, the calls that fail, and the password functions, which may fail (`none`).
pub record Env : Type 0 where
  pub now : ℕ
  pub user_account_id : ℕ
  pub step_up_header : Bytes
  pub step_up_required : Bool
  pub jwt_secret : Bytes
  pub codec : Codec
  pub json : PayloadJson
  pub fails : Query → Bool
  pub has_observer : Bool
  pub verify_password : Text → Text → Option Bool
  pub hash_password : Text → Option Text

pub data TxError : Type 0 where
  last_identity identity_not_found failed : TxError

abbrev pub Tx : Type 1
Tx = (A : Type 0) → TxRunner Db TxError A

abbrev pub gated : Result {0, 0} StepUpError Unit → Result {0, 0} ApiError Unit
gated (ok u) = ok tt
gated (err e) = err (action_required "users.step_up_required")

unfoldable pub require_step_up : Env → Exec Db ApiError Unit
require_step_up env db =
    let (answer, consumed) =
      check_step_up env.codec env.json env.now env.step_up_required env.jwt_secret
        env.step_up_header env.user_account_id db.consumed in
    (gated answer, record db { consumed = consumed })

abbrev pub is_of : ℕ → OidcIdentity → Bool
is_of uid r = r.user_account_id == uid

abbrev pub is_local_of : ℕ → AuthLocal → Bool
is_local_of uid r = r.user_account_id == uid

unfoldable pub identity_counts : Env → Exec Db TxError (ℕ × Bool)
identity_counts env = do
  oidc ←
      query (env.fails count_oidc) failed
        (λ db. (count (is_of env.user_account_id) db.oidc_identities, db))
  found ←
      query (env.fails get_local) failed
        (λ db. (find (is_local_of env.user_account_id) db.auth_local, db))
  pure (oidc, is_some found)

abbrev pub is_target : String → ℕ → OidcIdentity → Bool
is_target uuid uid r = str_eq r.uuid uuid && r.user_account_id == uid

-- DELETE … WHERE: the number of rows that pass the test, and those that do not.
unfoldable pub delete_oidc_identity_by_uuid : String → ℕ → List OidcIdentity → ℕ × List OidcIdentity
delete_oidc_identity_by_uuid uuid uid rows =
    (count (is_target uuid uid) rows, select (λ r. not (is_target uuid uid r)) rows)

unfoldable pub delete_auth_local : ℕ → List AuthLocal → List AuthLocal
delete_auth_local uid rows = select (λ r. not (is_local_of uid r)) rows

-- INSERT … ON CONFLICT (user_account_id) DO UPDATE.
unfoldable pub upsert_auth_local : ℕ → Text → List AuthLocal → List AuthLocal
upsert_auth_local uid hash [] = record { user_account_id = uid; password_hash = hash } ∷ []
upsert_auth_local uid hash (r ∷ rs) =
    let rest = upsert_auth_local uid hash rs in
    if is_local_of uid r then record r { password_hash = hash } ∷ rs else r ∷ rest

abbrev pub entry : Env → String → String → Option String → Entry
entry env op resource uuid = record {
  operation = op;
  resource = resource;
  uuid = uuid;
  step_up = env.step_up_required;
}

abbrev pub safe_observe : Env → Entry → Exec Db TxError Unit
safe_observe env e db =
    if not env.has_observer
    then (ok tt, db)
    else if env.fails observing
    then (err failed, db)
    else (ok tt, record db { audit = e ∷ db.audit })

abbrev pub safe_observe_after_commit : Env → Entry → Exec Db ApiError Unit
safe_observe_after_commit env e db =
    if env.has_observer then (ok tt, record db { notified = e ∷ db.notified }) else (ok tt, db)

abbrev pub is_last : ℕ × Bool → Bool
is_last (oidc, true) = oidc == 0
is_last (oidc, false) = oidc == 1

-- `remaining+hasLocalInt == 0` with `remaining = oidcCount - 1`, in signed numbers.
unfoldable pub unlink_body : Env → String → Exec Db TxError Unit
unfolding identity_counts
unlink_body env uuid = do
  counts ← identity_counts env
  guard (not (is_last counts)) last_identity
  n ← query (env.fails delete_oidc) failed (λ db.
      let (n, rows) = delete_oidc_identity_by_uuid uuid env.user_account_id db.oidc_identities in
      (n, record db { oidc_identities = rows }))
  guard (not (n == 0)) identity_not_found
  safe_observe env (entry env "delete" "auth_oidc_identity" (some uuid))

abbrev pub remove_local : Env → ℕ × Bool → Exec Db TxError Unit
remove_local env (oidc, false) = pure tt
remove_local env (oidc, true) = do
  guard (not (oidc == 0)) last_identity
  query (env.fails delete_local) failed
      (λ db. (tt, record db { auth_local = delete_auth_local env.user_account_id db.auth_local }))
  safe_observe env (entry env "delete" "auth_local" none)

unfoldable pub remove_password_body : Env → Exec Db TxError Unit
unfolding identity_counts
remove_password_body env = do counts ← identity_counts env; remove_local env counts

abbrev pub map_error : TxError → ApiError
map_error last_identity = conflict (
    record {
      field = "";
      code = "users.last_identity";
      message = "You can't remove your last sign-in method. Add another first.";
    }
    ∷ [])
map_error identity_not_found =
    detailed 404 "not_found" "identity not found" (
      record { field = ""; code = "users.identity_not_found"; message = "identity not found" } ∷ [])
map_error failed = internal

abbrev pub on_error : {A : Type 0} → Result TxError A × Db → Result ApiError A × Db
on_error (ok a, db) = (ok a, db)
on_error (err e, db) = (err (map_error e), db)

abbrev pub run_tx : {A : Type 0} → Tx → Exec Db TxError A → Exec Db ApiError A
run_tx {A} tx body db = on_error ((tx A).run body db)

unfoldable pub unlink : Tx → Env → String → Exec Db ApiError Unit
unfolding require_step_up
unlink tx env uuid = do
  require_step_up env
  run_tx tx (unlink_body env uuid)
  safe_observe_after_commit env (entry env "delete" "auth_oidc_identity" (some uuid))

unfoldable pub remove_password : Tx → Env → Exec Db ApiError Unit
unfolding require_step_up
remove_password tx env = do
  require_step_up env
  run_tx tx (remove_password_body env)
  safe_observe_after_commit env (entry env "delete" "auth_local" none)
