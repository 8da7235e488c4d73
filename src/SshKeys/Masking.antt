-- ===== src/SshKeys/Masking.antt =====
-- What callers learn of accounts and keys that are not theirs.
use mod_users.Prelude.{
  String, ◌≡◌, ap, Bool, true, false, inl, inr, Option, none, any, Option-cases, arith,
}
use mod_users.Api.{forbidden, ok, err}
use mod_users.Accounts.{UserAccount, get_user_account_by_uuid}
use mod_users.Text.{Text}
use mod_users.SshKey.{SshLib, Parsed, parse, normalize_label}
use mod_users.SshKeys.Table.{
  SshPublicKey, unique_violation, holds, is_taken, satisfies_checks, get_active_for_user_account,
}
use mod_users.SshKeys.Service.{
  Db, get_account, insert, get_key, Env, authorize_user_account, load_authorized_account,
  key_in_use, map_insert_error, insert_ssh_public_key,
}
use mod_users.SshKeys.Operations.{
  Tx, on_error, insert_params, register_body, register, revoke, Int32, list,
}

unknown-load :
    (env : Env) (op uuid : String) (db : Db)
    → env.authenticated ≡ true
    → env.fails get_account ≡ false
    → get_user_account_by_uuid uuid db.accounts ≡ none
    → load_authorized_account env op uuid db ≡ (err forbidden, db)
unfolding load_authorized_account authorize_user_account
unknown-load env op uuid db a f u = elim (Option-cases env.authorizer) [
  | inl nobody ↦ ground arith
  | inr (authorize, configured) ↦ ground arith
]

module _ {Key : Type 0} (lib : SshLib Key) (tx : Tx) where
  -- To an authenticated caller, with a database that answers, an account that does not exist is
  -- forbidden in all three operations, and the store stays as it was; for Register this holds once
  -- the line and the label are valid.
  pub unknown_account_is_forbidden :
      (env : Env) (uuid key_uuid : String) (line : Text) (label : Option Text) (step_up : Bool)
      (limit offset : Int32) (db : Db) (p : Parsed Key) (l : Text)
      → env.authenticated ≡ true
      → env.fails get_account ≡ false
      → get_user_account_by_uuid uuid db.accounts ≡ none
      → parse lib line ≡ ok p
      → normalize_label label p.comment ≡ ok l
      → (register lib tx env uuid line label step_up db ≡ (err forbidden, db))
        × (revoke tx env uuid key_uuid step_up db ≡ (err forbidden, db))
        × (list env uuid limit offset db ≡ (err forbidden, db))
  unfolding register revoke list
  unknown_account_is_forbidden env uuid key_uuid line label step_up limit offset db p l a f u parsed
        labelled =
      let r = unknown-load env "assume" uuid db a f u in
      let s = unknown-load env "read" uuid db a f u in (ground arith, ground arith, ground arith)

  -- Registering a key whose fingerprint is active already, for whichever account, is answered by
  -- the same conflict, and changes nothing. The caller must be authorized, the row must satisfy the
  -- table's checks, and the insertion must not fail otherwise.
  pub register_duplicate :
      (env : Env) (uuid : String) (line : Text) (label : Option Text) (step_up : Bool) (db : Db)
      (p : Parsed Key) (l : Text) (ua : UserAccount)
      → parse lib line ≡ ok p
      → normalize_label label p.comment ≡ ok l
      → load_authorized_account env "assume" uuid db ≡ (ok ua, db)
      → satisfies_checks (insert_params ua p l) ≡ true
      → env.fails insert ≡ false
      → any (holds p.fingerprint) db.keys ≡ true
      → register lib tx env uuid line label step_up db ≡ (err key_in_use, db)
  unfolding register register_body insert_ssh_public_key is_taken
  register_duplicate env uuid line label step_up db p l ua parsed labelled loaded checks up held =
      let body : (register_body env ua (insert_params ua p l) step_up db).0 ≡ err unique_violation =
        ground arith in
      let rolled = ap (on_error map_insert_error) (
        (tx SshPublicKey).rolls_back (register_body env ua (insert_params ua p l) step_up) db
          unique_violation body) in
      ground (arith, rolled)

-- Once the caller is authorized and the key can be looked up, one that is not an active key of the
-- account, be it unknown, revoked, or another account's, is forbidden, and nothing changes.
pub revoke_foreign_key :
    (tx : Tx) (env : Env) (uuid key_uuid : String) (step_up : Bool) (db : Db) (ua : UserAccount)
    → load_authorized_account env "assume" uuid db ≡ (ok ua, db)
    → env.fails get_key ≡ false
    → get_active_for_user_account key_uuid ua.id db.keys ≡ none
    → revoke tx env uuid key_uuid step_up db ≡ (err forbidden, db)
unfolding revoke
revoke_foreign_key tx env uuid key_uuid step_up db ua loaded up missing = ground arith
