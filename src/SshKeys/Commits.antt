-- ===== src/SshKeys/Commits.antt =====
-- What a call of Register or Revoke that succeeds has committed.
use mod_users.Prelude.{
  String, ◌≡◌, Bool, false, ◌⊎◌, inl, inr, Option, none, some, ◌∷◌, Option-cases, Bool-cases, arith,
}
use mod_users.Api.{Result-cases, ApiError, internal, forbidden, Result, ok, err}
use mod_users.Accounts.{UserAccount, get_user_account_by_uuid}
use mod_users.Text.{Text}
use mod_users.SshKey.{SshLib, Parsed, parse, normalize_label}
use mod_users.SshKeys.Table.{
  SshPublicKey, is_taken, new_row, get_active_for_user_account, archive_ssh_public_key,
}
use mod_users.SshKeys.Service.{
  Entity, get_entity_by_id, Db, get_key, Env, load_authorized_account, map_parse_error,
  map_label_error, map_insert_error, map_archive_error, SshKey, to_ssh_key,
}
use mod_users.SshKeys.Operations.{Tx, insert_params, register_body, revoke_body, register, revoke}
use mod_users.SshKeys.Outcomes.{
  run_tx-cases, load-store, load-ok, load-entity, register_body-ok, revoke_body-ok,
}

-- A registration has inserted one row for the account and for the key of the line.
pub record IsRegistered {Key : Type 0} (lib : SshLib Key) (env : Env) (uuid : String) (line : Text)
    (db : Db) (out : Result ApiError SshKey × Db) : Type 0 where
  pub parsed : Parsed Key
  pub label : Text
  pub ua : UserAccount
  pub row : SshPublicKey
  pub is_parsed : parse lib line ≡ ok parsed
  pub loaded : get_user_account_by_uuid uuid db.accounts ≡ some ua
  pub entity : Entity
  pub held : get_entity_by_id ua.account_holder db.entities ≡ some entity
  pub in_use : entity.archived_at ≡ none
  pub is_new : row ≡ new_row db.next_id env.new_uuid env.now (insert_params ua parsed label)
  pub free : is_taken env.new_uuid parsed.fingerprint db.keys ≡ false
  pub answer : out.0 ≡ ok (to_ssh_key row)
  pub keys : out.1.keys ≡ row ∷ db.keys
  pub accounts : out.1.accounts ≡ db.accounts
  pub entities : out.1.entities ≡ db.entities

-- A revocation has archived the row that it loaded.
pub record IsRevoked (env : Env) (uuid key_uuid : String) (db : Db)
    (out : Result {0, 0} ApiError Unit × Db) : Type 0 where
  pub ua : UserAccount
  pub row : SshPublicKey
  pub loaded : get_user_account_by_uuid uuid db.accounts ≡ some ua
  pub owned : get_active_for_user_account key_uuid ua.id db.keys ≡ some row
  pub answer : out.0 ≡ ok tt
  pub keys : out.1.keys ≡ (archive_ssh_public_key env.now key_uuid ua.id db.keys).1
  pub accounts : out.1.accounts ≡ db.accounts
  pub entities : out.1.entities ≡ db.entities

module _ {Key : Type 0} (lib : SshLib Key) (tx : Tx) where
  pub register-cases :
      (env : Env) (uuid : String) (line : Text) (label : Option Text) (step_up : Bool) (db : Db)
      → IsRegistered lib env uuid line db (register lib tx env uuid line label step_up db)
        ⊎ ((e : ApiError) × (register lib tx env uuid line label step_up db ≡ (err e, db)))
  unfolding register
  register-cases env uuid line label step_up db = elim (Result-cases (parse lib line)) [
    | inr (e, bad) ↦ inr (map_parse_error e, ground arith)
    | inl (p, good) ↦ elim (Result-cases (normalize_label label p.comment)) [
      | inr (e, bad) ↦ inr (map_label_error e, ground arith)
      | inl (l, fine) ↦ elim (Result-cases (load_authorized_account env "assume" uuid db).0) [
        | inr (e, bad) ↦ inr (e, ground (arith, load-store env "assume" uuid db))
        | inl (ua, found) ↦
            elim (run_tx-cases map_insert_error tx
              (register_body env ua (insert_params ua p l) step_up) db) [
                | inr (e, bad) ↦ inr (e, ground (arith, load-store env "assume" uuid db))
                | inl (row, body, done) ↦
                    let before = load-store env "assume" uuid db in
                    let (entity, held, in_use) = load-entity env "assume" uuid db ua found in
                    let (is_new, free, keys, accounts, entities) =
                      register_body-ok env ua (insert_params ua p l) step_up db row body in
                    inl (record {
                      parsed = p;
                      label = l;
                      ua = ua;
                      row = row;
                      is_parsed = good;
                      loaded = load-ok env "assume" uuid db ua found;
                      entity = entity;
                      held = held;
                      in_use = in_use;
                      is_new = is_new;
                      free = free;
                      answer = ground (arith, before);
                      keys = ground (arith, before);
                      accounts = ground (arith, before);
                      entities = ground (arith, before);
                    })
              ]
      ]
    ]
  ]

pub revoke-cases :
    (tx : Tx) (env : Env) (uuid key_uuid : String) (step_up : Bool) (db : Db)
    → IsRevoked env uuid key_uuid db (revoke tx env uuid key_uuid step_up db)
      ⊎ ((e : ApiError) × (revoke tx env uuid key_uuid step_up db ≡ (err e, db)))
unfolding revoke
revoke-cases tx env uuid key_uuid step_up db =
    elim (Result-cases (load_authorized_account env "assume" uuid db).0) [
      | inr (e, bad) ↦ inr (e, ground (arith, load-store env "assume" uuid db))
      | inl (ua, found) ↦ elim (Bool-cases (env.fails get_key)) [
        | inl down ↦ inr (internal, ground (arith, load-store env "assume" uuid db))
        | inr up ↦ elim (Option-cases (get_active_for_user_account key_uuid ua.id db.keys)) [
          | inl missing ↦ inr (forbidden, ground (arith, load-store env "assume" uuid db))
          | inr (row, owned) ↦
              elim (run_tx-cases map_archive_error tx (revoke_body env ua key_uuid row step_up)
                db) [
                  | inr (e, bad) ↦ inr (e, ground (arith, load-store env "assume" uuid db))
                  | inl (u, body, done) ↦
                      let before = load-store env "assume" uuid db in
                      let (keys, accounts, entities) =
                        revoke_body-ok env ua key_uuid row step_up db body in
                      inl (record {
                        ua = ua;
                        row = row;
                        loaded = load-ok env "assume" uuid db ua found;
                        owned = owned;
                        answer = ground (arith, before);
                        keys = ground (arith, before);
                        accounts = ground (arith, before);
                        entities = ground (arith, before);
                      })
                ]
        ]
      ]
    ]
