-- ===== src/SshKeys/Outcomes.antt =====
-- How the operations end: with an error and the store as it was, or with a committed transaction.
use mod_users.Prelude.{
  String, ◌≡◌, ap, Bool, false, ◌⊎◌, inl, inr, none, some, ◌∷◌, Option-cases, arith,
}
use mod_users.Api.{Result-cases, ApiError, ok, err, Exec}
use mod_users.Accounts.{UserAccount, get_user_account_by_uuid}
use mod_users.SshKeys.Table.{
  SshPublicKey, InsertParams, TxError, is_taken, new_row, archive_ssh_public_key,
}
use mod_users.SshKeys.Service.{
  Entity, Db, Env, get_entity_by_id, authorize_user_account, load_authorized_account,
  insert_ssh_public_key,
}
use mod_users.SshKeys.Operations.{Tx, run_tx, on_error, register_body, revoke_body}

-- A transaction commits what its body did, or leaves the store.
pub run_tx-cases :
    {A : Type 0} (f : TxError → ApiError) (tx : Tx) (body : Exec Db TxError A) (db : Db)
    → ((a : A) × ((body db).0 ≡ ok a) × (run_tx f tx body db ≡ (ok a, (body db).1)))
      ⊎ ((e : ApiError) × (run_tx f tx body db ≡ (err e, db)))
run_tx-cases {A} f tx body db = elim (Result-cases (body db).0) [
  | inr (e, failed) ↦ inr (f e, ap (on_error f) ((tx A).rolls_back body db e failed))
  | inl (a, good) ↦ elim ((tx A).commits body db a good) [
    | inl same ↦ inl (a, good, ground (arith, same))
    | inr (e, failed) ↦ inr (f e, ap (on_error f) failed)
  ]
]

authorize-store :
    (env : Env) (op uuid : String) (db : Db) → (authorize_user_account env op uuid db).1 ≡ db
unfolding authorize_user_account
authorize-store env op uuid db = elim (Option-cases env.authorizer) [
  | inl nobody ↦ ground arith
  | inr (authorize, configured) ↦ ground arith
]

-- Loading changes nothing, and finds the account that it returns.
pub load-store :
    (env : Env) (op uuid : String) (db : Db) → (load_authorized_account env op uuid db).1 ≡ db
unfolding load_authorized_account authorize_user_account
load-store env op uuid db = elim (Option-cases env.authorizer) [
  | inl nobody ↦ ground arith
  | inr (authorize, configured) ↦ ground arith
]

pub load-ok :
    (env : Env) (op uuid : String) (db : Db) (ua : UserAccount)
    → (load_authorized_account env op uuid db).0 ≡ ok ua
    → get_user_account_by_uuid uuid db.accounts ≡ some ua
unfolding load_authorized_account authorize_user_account
load-ok env op uuid db ua e = elim (Option-cases env.authorizer) [
  | inl nobody ↦ ground arith
  | inr (authorize, configured) ↦ elim (Option-cases (get_user_account_by_uuid uuid db.accounts)) [
    | inl missing ↦ ground arith
    | inr (found, eq) ↦ elim (Option-cases (authorize op found.account_holder)) [
      | inl allowed ↦ ground arith
      | inr (denial, refused) ↦ ground arith
    ]
  ]
]

-- And its holder is not archived.
pub load-entity :
    (env : Env) (op uuid : String) (db : Db) (ua : UserAccount)
    → (load_authorized_account env op uuid db).0 ≡ ok ua
    → (entity : Entity) × (get_entity_by_id ua.account_holder db.entities ≡ some entity)
      × (entity.archived_at ≡ none)
unfolding load_authorized_account
load-entity env op uuid db ua e = elim (Result-cases (authorize_user_account env op uuid db).0) [
  | inr (denial, refused) ↦ absurd (ground arith)
  | inl (found, allowed) ↦
      elim (Option-cases (
        get_entity_by_id found.account_holder (authorize_user_account env op uuid db).1.entities)) [
          | inl missing ↦ absurd (ground arith)
          | inr (entity, stored) ↦
              let same : found ≡ ua = ground arith in
              let kept = authorize-store env op uuid db in
              (entity, ground (arith, kept), ground arith)
        ]
]

pub register_body-ok :
    (env : Env) (ua : UserAccount) (p : InsertParams) (step_up : Bool) (db : Db)
    (row : SshPublicKey)
    → (register_body env ua p step_up db).0 ≡ ok row
    → (row ≡ new_row db.next_id env.new_uuid env.now p)
      × (is_taken env.new_uuid p.fingerprint_sha256 db.keys ≡ false)
      × ((register_body env ua p step_up db).1.keys ≡ row ∷ db.keys)
      × ((register_body env ua p step_up db).1.accounts ≡ db.accounts)
      × ((register_body env ua p step_up db).1.entities ≡ db.entities)
unfolding register_body insert_ssh_public_key
register_body-ok env ua p step_up db row e = ground arith

pub revoke_body-ok :
    (env : Env) (ua : UserAccount) (uuid : String) (before : SshPublicKey) (step_up : Bool)
    (db : Db)
    → (revoke_body env ua uuid before step_up db).0 ≡ ok tt
    → ((revoke_body env ua uuid before step_up db).1.keys
        ≡ (archive_ssh_public_key env.now uuid ua.id db.keys).1)
      × ((revoke_body env ua uuid before step_up db).1.accounts ≡ db.accounts)
      × ((revoke_body env ua uuid before step_up db).1.entities ≡ db.entities)
unfolding revoke_body
revoke_body-ok env ua uuid before step_up db e = ground arith
