-- ===== src/SshKeys/Operations.antt =====
-- Register, List and Revoke of SSHKeyService (api/internal/service/ssh_keys.go).
use mod_users.Prelude.{
  ℕ, zero, suc, String, Bool, not, Option, none, some, List, map, ltb, ◌==◌, if◌then◌else◌,
}
use mod_users.Api.{
  ApiError, forbidden, internal, Result, ok, err, Exec, ◌>>=◌, ◌>>◌, pure, guard, query, row_or,
  TxRunner,
}
use mod_users.Accounts.{UserAccount}
use mod_users.Text.{Text}
use mod_users.SshKey.{SshLib, Parsed, parse, normalize_label}
use mod_users.SshKeys.Table.{
  SshPublicKey, InsertParams, TxError, key_not_found_for_account, failed,
  get_active_for_user_account, archive_ssh_public_key, list_active_by_user_account,
  count_active_by_user_account,
}
use mod_users.SshKeys.Service.{
  Db, get_key, archive, list_keys, count_keys, Env, load_authorized_account, map_parse_error,
  map_label_error, checked, map_insert_error, map_archive_error, ssh_key_audit_snapshot,
  safe_observe, safe_observe_after_commit, insert_ssh_public_key, SshKey, to_ssh_key,
}

abbrev pub Tx : Type 1
Tx = (A : Type 0) → TxRunner Db TxError A

abbrev pub on_error :
    {A : Type 0} → (TxError → ApiError) → Result TxError A × Db → Result ApiError A × Db
on_error f (ok a, db) = (ok a, db)
on_error f (err e, db) = (err (f e), db)

abbrev pub run_tx :
    {A : Type 0} → (TxError → ApiError) → Tx → Exec Db TxError A → Exec Db ApiError A
run_tx {A} f tx body db = on_error f ((tx A).run body db)

abbrev pub insert_params : {Key : Type 0} → UserAccount → Parsed Key → Text → InsertParams
insert_params ua p label = record {
  user_account_id = ua.id;
  key_type = p.type;
  public_key = p.canonical;
  fingerprint_sha256 = p.fingerprint;
  label = label;
}

-- The body of Register's transaction.
unfoldable pub register_body :
    Env → UserAccount → InsertParams → Bool → Exec Db TxError SshPublicKey
unfolding insert_ssh_public_key
register_body env ua params step_up = do
  row ← insert_ssh_public_key env params
  safe_observe env (ssh_key_audit_snapshot "create" ua.account_holder row step_up)
  pure row

-- The body of Revoke's transaction, with the row that was loaded before it.
unfoldable pub revoke_body : Env → UserAccount → String → SshPublicKey → Bool → Exec Db TxError Unit
revoke_body env ua key_uuid before step_up = do
  n ← query (env.fails archive) failed (λ db.
      let (n, rows) = archive_ssh_public_key env.now key_uuid ua.id db.keys in
      (n, record db { keys = rows }))
  guard (not (n == 0)) key_not_found_for_account
  safe_observe env (ssh_key_audit_snapshot "delete" ua.account_holder before step_up)

-- `some` of a limit or an offset that is not negative.
abbrev pub Int32 : Type 0
Int32 = Option ℕ

abbrev pub clamp_limit : Int32 → ℕ
clamp_limit none = 20
clamp_limit (some zero) = 20
clamp_limit (some (suc n)) = if ltb 200 (suc n) then 200 else suc n

abbrev pub clamp_offset : Int32 → ℕ
clamp_offset none = 0
clamp_offset (some n) = n

module _ {Key : Type 0} (lib : SshLib Key) (tx : Tx) where
  unfoldable pub register : Env → String → Text → Option Text → Bool → Exec Db ApiError SshKey
  register env account_uuid line label step_up = do
    parsed ← checked map_parse_error (parse lib line)
    normalized ← checked map_label_error (normalize_label label parsed.comment)
    ua ← load_authorized_account env "assume" account_uuid
    row ←
        run_tx map_insert_error tx
          (register_body env ua (insert_params ua parsed normalized) step_up)
    safe_observe_after_commit env (ssh_key_audit_snapshot "create" ua.account_holder row step_up)
    pure (to_ssh_key row)

unfoldable pub revoke : Tx → Env → String → String → Bool → Exec Db ApiError Unit
revoke tx env account_uuid key_uuid step_up = do
  ua ← load_authorized_account env "assume" account_uuid
  found ←
      query (env.fails get_key) internal
        (λ db. (get_active_for_user_account key_uuid ua.id db.keys, db))
  before ← row_or forbidden found
  run_tx map_archive_error tx (revoke_body env ua key_uuid before step_up)
  safe_observe_after_commit env (ssh_key_audit_snapshot "delete" ua.account_holder before step_up)

-- The keys of the page, and the number of all.
unfoldable pub list : Env → String → Int32 → Int32 → Exec Db ApiError (List SshKey × ℕ)
list env account_uuid limit offset = do
  ua ← load_authorized_account env "read" account_uuid
  rows ← query (env.fails list_keys) internal (λ db.
      (list_active_by_user_account ua.id (clamp_limit limit) (clamp_offset offset) db.keys, db))
  total ←
      query (env.fails count_keys) internal (λ db. (count_active_by_user_account ua.id db.keys, db))
  pure (map to_ssh_key rows, total)
