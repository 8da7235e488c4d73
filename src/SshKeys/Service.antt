-- ===== src/SshKeys/Service.antt =====
-- SSHKeyService of api/internal/service/ssh_keys.go, and authorizeUserAccount of
-- api/internal/service/user_accounts.go.
use mod_users.Prelude.{
  ℕ, ◌+◌, String, Bool, not, Option, none, some, List, [], ◌∷◌, ◌==◌, find, is_none, if◌then◌else◌,
}
use mod_users.Api.{
  ApiError, invalid_input, conflict, unauthenticated, forbidden, internal, Result, ok, err, Exec,
  ◌>>=◌, ◌>>◌, pure, raise, guard, query, row_or,
}
use mod_users.Accounts.{UserAccount, get_user_account_by_uuid}
use mod_users.Text.{Text}
use mod_users.SshKey.{
  KeyError, invalid, unsupported_type, too_weak, label_too_long, label_invalid_chars,
}
use mod_users.SshKeys.Table.{
  SshPublicKey, InsertParams, TxError, unique_violation, key_not_found_for_account, failed,
  is_taken, satisfies_checks, has_account, new_row,
}

-- A row of core's entities.
pub record Entity : Type 0 where
  pub id : ℕ
  pub archived_at : Option ℕ

-- The audit detail of a key's row.
pub record Snapshot : Type 0 where
  pub operation : String
  pub target : ℕ
  pub uuid : String
  pub fingerprint : Text
  pub key_type : Text
  pub label : Text
  pub step_up : Bool

-- The tables, the entries written by the observer inside transactions, and those it was told of
-- after them.
pub record Db : Type 0 where
  pub accounts : List UserAccount
  pub entities : List Entity
  pub keys : List SshPublicKey
  pub next_id : ℕ
  pub audit : List Snapshot
  pub notified : List Snapshot

pub data Query : Type 0 where
  get_account get_entity insert get_key archive list_keys count_keys resolve observing : Query

-- What one call meets: whether its caller is authenticated; core's authorizer, where one is
-- configured, which allows an operation on an entity or denies it with an error; the clock, the
-- random uuid, the calls that fail, and whether there is an observer.
pub record Env : Type 0 where
  pub authenticated : Bool
  pub authorizer : Option (String → ℕ → Option ApiError)
  pub now : ℕ
  pub new_uuid : String
  pub fails : Query → Bool
  pub has_observer : Bool

abbrev pub get_entity_by_id : ℕ → List Entity → Option Entity
get_entity_by_id id rows = find (λ e. e.id == id) rows

abbrev pub denied : Option ApiError → Exec Db ApiError Unit
denied none = pure tt
denied (some e) = raise e

-- On a miss the code also asks the authorizer about entity 0, and ignores the answer.
unfoldable pub authorize_user_account : Env → String → String → Exec Db ApiError UserAccount
authorize_user_account env op uuid = do
  guard env.authenticated unauthenticated
  authorize ← row_or forbidden env.authorizer
  found ←
      query (env.fails get_account) internal (λ db. (get_user_account_by_uuid uuid db.accounts, db))
  ua ← row_or forbidden found
  denied (authorize op ua.account_holder)
  pure ua

unfoldable pub load_authorized_account : Env → String → String → Exec Db ApiError UserAccount
unfolding authorize_user_account
load_authorized_account env op uuid = do
  ua ← authorize_user_account env op uuid
  found ←
      query (env.fails get_entity) internal
        (λ db. (get_entity_by_id ua.account_holder db.entities, db))
  entity ← row_or forbidden found
  guard (is_none entity.archived_at) forbidden
  pure ua

abbrev pub detail : String → String → String → ApiError
detail field code message =
    invalid_input (record { field = field; code = code; message = message } ∷ [])

abbrev pub map_parse_error : KeyError → ApiError
map_parse_error too_weak = detail "public_key" "users.ssh_key_too_weak" "key is too weak"
map_parse_error unsupported_type =
    detail "public_key" "users.ssh_key_type_unsupported" "key type is not supported"
map_parse_error invalid = detail "public_key" "users.ssh_key_invalid" "key is invalid"
map_parse_error label_too_long = internal
map_parse_error label_invalid_chars = internal

abbrev pub map_label_error : KeyError → ApiError
map_label_error label_too_long = detail "label" "users.ssh_key_label_too_long" "label is too long"
map_label_error label_invalid_chars =
    detail "label" "users.ssh_key_label_invalid" "label contains invalid characters"
map_label_error too_weak = internal
map_label_error unsupported_type = internal
map_label_error invalid = internal

abbrev pub checked : {A : Type 0} → (KeyError → ApiError) → Result KeyError A → Exec Db ApiError A
checked f (ok a) db = (ok a, db)
checked f (err e) db = (err (f e), db)

abbrev pub key_in_use : ApiError
key_in_use = conflict (
    record {
      field = "public_key";
      code = "users.ssh_key_in_use";
      message = "this public key is already registered";
    }
    ∷ [])

abbrev pub map_insert_error : TxError → ApiError
map_insert_error unique_violation = key_in_use
map_insert_error key_not_found_for_account = internal
map_insert_error failed = internal

abbrev pub map_archive_error : TxError → ApiError
map_archive_error key_not_found_for_account = forbidden
map_archive_error unique_violation = internal
map_archive_error failed = internal

abbrev pub ssh_key_audit_snapshot : String → ℕ → SshPublicKey → Bool → Snapshot
ssh_key_audit_snapshot op target row step_up = record {
  operation = op;
  target = target;
  uuid = row.uuid;
  fingerprint = row.fingerprint_sha256;
  key_type = row.key_type;
  label = row.label;
  step_up = step_up;
}

abbrev pub safe_observe : Env → Snapshot → Exec Db TxError Unit
safe_observe env entry db =
    if not env.has_observer
    then (ok tt, db)
    else if env.fails observing
    then (err failed, db)
    else (ok tt, record db { audit = entry ∷ db.audit })

abbrev pub safe_observe_after_commit : Env → Snapshot → Exec Db ApiError Unit
safe_observe_after_commit env entry db =
    if env.has_observer then (ok tt, record db { notified = entry ∷ db.notified }) else (ok tt, db)

-- InsertSSHPublicKey.
unfoldable pub insert_ssh_public_key : Env → InsertParams → Exec Db TxError SshPublicKey
insert_ssh_public_key env p db =
    let row = new_row db.next_id env.new_uuid env.now p in
    if env.fails insert
    then (err failed, db)
    else if not (satisfies_checks p)
    then (err failed, db)
    else if is_taken env.new_uuid p.fingerprint_sha256 db.keys
    then (err unique_violation, db)
    else if not (has_account p.user_account_id db.accounts)
    then (err failed, db)
    else (ok row, record db { keys = row ∷ db.keys; next_id = db.next_id + 1 })

-- The service's view of a row.
pub record SshKey : Type 0 where
  pub uuid : String
  pub key_type : Text
  pub fingerprint : Text
  pub public_key : Text
  pub label : Text
  pub created_at : ℕ

abbrev pub to_ssh_key : SshPublicKey → SshKey
to_ssh_key row = record {
  uuid = row.uuid;
  key_type = row.key_type;
  fingerprint = row.fingerprint_sha256;
  public_key = row.public_key;
  label = row.label;
  created_at = row.created_at;
}
