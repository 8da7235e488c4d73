-- ===== src/SshKeys/Examples.antt =====
-- A store with two accounts, and the theorems at it.
use mod_users.Prelude.{
  ℕ, ◌≤◌, String, ◌≡◌, refl, inl, true, false, Option, none, some, List, [], ◌∷◌, count, length,
  arith, Among,
}
use mod_users.Api.{invalid_input, forbidden, ok, err}
use mod_users.Api.Sample.{direct_tx}
use mod_users.Accounts.{UserAccount, get_user_account_by_id}
use mod_users.Tokens.{codes}
use mod_users.Text.{Text}
use mod_users.SshKey.{invalid, SshLib, Parsed, not_rsa, parsed_of, fingerprint, canonical}
use mod_users.SshKeys.Table.{
  SshPublicKey, InsertParams, TxError, holds, is_resolved, is_active_of, new_row,
}
use mod_users.SshKeys.Service.{
  Entity, Snapshot, Db, Query, Env, key_in_use, ssh_key_audit_snapshot, SshKey, to_ssh_key,
  get_entity_by_id,
}
use mod_users.SshKeys.Operations.{Tx, insert_params, register, revoke, list}
use mod_users.SshKeys.Resolver.{unknown_ssh_key, resolve_actor}
use mod_users.SshKeys.Unique.{
  Call, registering, revoking, apply, apply_all, failed_call_keeps_store, fingerprints_stay_unique,
}
use mod_users.SshKeys.Resolve.{resolve_sound, register-resolve, revoke-resolve}
use mod_users.SshKeys.Masking.{unknown_account_is_forbidden, register_duplicate, revoke_foreign_key}
use mod_users.SshKeys.Shape.{parse_field_error, validate_ssh_key_shape, register_refuses_bad_shape}
use mod_users.SshKeys.Listing.{list_bounds, list_shows_active}

abbrev tx : Tx
tx A = direct_tx

-- A key is a number, and a line is a key and its comment.
abbrev split_line : Text → Option (ℕ × Text × List Text × Text)
split_line [] = none
split_line (n ∷ comment) = some (n, comment, [], [])

abbrev lib : SshLib ℕ
lib = record {
  parse_authorized_key = split_line;
  key_type = λ k. codes "ssh-ed25519";
  modulus = λ k. not_rsa;
  marshal_authorized_key = λ k. k ∷ [];
  fingerprint_sha256 = λ k. 83 ∷ 72 ∷ 65 ∷ 50 ∷ 53 ∷ 54 ∷ 58 ∷ k ∷ [];
}

abbrev env : Env
env = record {
  authenticated = true;
  authorizer = some (λ op target. none);
  now = 50;
  new_uuid = "k1";
  fails = λ q. false;
  has_observer = true;
}

abbrev account : ℕ → String → ℕ → UserAccount
account id uuid holder = record {
  id = id;
  uuid = uuid;
  account_holder = holder;
  email = none;
  email_verified_at = none;
  default_app_id = none;
}

abbrev ada : UserAccount
ada = account 1 "ada" 11

abbrev entity : ℕ → Entity
entity id = record { id = id; archived_at = none }

abbrev start : Db
start = record {
  accounts = ada ∷ account 2 "bob" 12 ∷ [];
  entities = entity 11 ∷ entity 12 ∷ [];
  keys = [];
  next_id = 1;
  audit = [];
  notified = [];
}

abbrev line : Text
line = 200 ∷ codes " work "

abbrev parsed : Parsed ℕ
parsed = parsed_of lib 200 (codes " work ")

abbrev row : SshPublicKey
row = new_row 1 "k1" 50 (insert_params ada parsed (codes "work"))

abbrev created : Snapshot
created = ssh_key_audit_snapshot "create" 11 row true

abbrev held : Db
held = record start { keys = row ∷ []; next_id = 2; audit = created ∷ []; notified = created ∷ [] }

registered : register lib tx env "ada" line none true start ≡ (ok (to_ssh_key row), held)
unfolding register mod_users.SshKey.parse mod_users.Text.byte_len mod_users.Text.trim_space
    mod_users.SshKey.check_policy mod_users.SshKey.accepted_key_types mod_users.SshKey.key_algo_rsa
    mod_users.SshKey.normalize_label mod_users.SshKeys.Service.load_authorized_account
    mod_users.Accounts.get_user_account_by_uuid mod_users.SshKeys.Operations.register_body
    mod_users.SshKeys.Table.satisfies_checks fingerprint mod_users.SshKey.strip_disallowed
    mod_users.Text.is_space mod_users.SshKey.is_disallowed_label_rune
    mod_users.SshKeys.Table.is_taken get_user_account_by_id canonical
    mod_users.SshKeys.Service.authorize_user_account mod_users.SshKeys.Service.insert_ssh_public_key
    mod_users.SshKeys.Table.has_account mod_users.Text.trim_left mod_users.Text.trim_right
registered = refl

abbrev revoked : Db
revoked = record held {
  keys = record row { archived_at = some 50 } ∷ [];
  audit = ssh_key_audit_snapshot "delete" 11 row false ∷ created ∷ [];
  notified = ssh_key_audit_snapshot "delete" 11 row false ∷ created ∷ [];
}

is_revoked : revoke tx env "ada" "k1" false held ≡ (ok tt, revoked)
unfolding revoke mod_users.SshKeys.Service.load_authorized_account
    mod_users.Accounts.get_user_account_by_uuid mod_users.SshKeys.Table.get_active_for_user_account
    mod_users.SshKeys.Operations.revoke_body mod_users.SshKeys.Table.archive_ssh_public_key
is_revoked = refl

failed_call_keeps_store_example :
    (apply lib tx env (registering "bob" line none true) held).1 ≡ held
unfolding register mod_users.SshKey.parse mod_users.Text.byte_len mod_users.Text.trim_space
    mod_users.SshKey.check_policy mod_users.SshKey.accepted_key_types mod_users.SshKey.key_algo_rsa
    mod_users.SshKey.normalize_label mod_users.SshKeys.Service.load_authorized_account
    mod_users.Accounts.get_user_account_by_uuid mod_users.SshKeys.Operations.register_body
    mod_users.SshKeys.Table.satisfies_checks fingerprint mod_users.SshKey.strip_disallowed
    mod_users.Text.is_space mod_users.SshKey.is_disallowed_label_rune
    mod_users.SshKeys.Table.is_taken get_user_account_by_id canonical
    mod_users.SshKeys.Service.authorize_user_account mod_users.SshKeys.Service.insert_ssh_public_key
    mod_users.SshKeys.Table.has_account mod_users.Text.trim_left mod_users.Text.trim_right apply
failed_call_keeps_store_example =
    failed_call_keeps_store lib tx env (registering "bob" line none true) held key_in_use refl

abbrev calls : List (Env × Call)
calls =
    (env, registering "bob" line none true)
    ∷ (env, revoking "ada" "k1" false)
    ∷ (record env { new_uuid = "k2" }, registering "bob" line none true)
    ∷ []

fingerprints_stay_unique_example :
    count (holds (fingerprint lib 200)) (apply_all lib tx calls held).keys ≤ 1
fingerprints_stay_unique_example =
    fingerprints_stay_unique lib tx calls held (fingerprint lib 200) (ground arith)

resolve_sound_test :
    (r : SshPublicKey) × (ua : UserAccount) × (entity : Entity) × Among r held.keys
    × (is_resolved (fingerprint lib 200) (canonical lib 200) r ≡ true)
    × (get_user_account_by_id r.user_account_id held.accounts ≡ some ua)
    × (ua.account_holder ≡ 11)
    × (get_entity_by_id 11 held.entities ≡ some entity)
    × (entity.archived_at ≡ none)
unfolding resolve_actor mod_users.SshKeys.Table.resolve_active_ssh_public_key fingerprint canonical
    mod_users.Text.trim_space mod_users.Text.is_space get_user_account_by_id
resolve_sound_test = resolve_sound lib env 200 held 11 refl

register-resolve_example : resolve_actor lib env (some 200) held ≡ ok 11
unfolding mod_users.SshKey.parse mod_users.Text.byte_len mod_users.Text.trim_space
    mod_users.SshKey.check_policy mod_users.SshKey.accepted_key_types mod_users.SshKey.key_algo_rsa
    mod_users.Accounts.get_user_account_by_uuid get_user_account_by_id
register-resolve_example =
    register-resolve lib tx env env "ada" line none true start held (to_ssh_key row) parsed ada
      registered refl refl refl refl refl

revoke-resolve_example : resolve_actor lib env (some 200) revoked ≡ err unknown_ssh_key
unfolding mod_users.Accounts.get_user_account_by_uuid
    mod_users.SshKeys.Table.get_active_for_user_account
revoke-resolve_example =
    revoke-resolve lib tx env env "ada" "k1" false held revoked ada row 200 is_revoked refl refl
      (ground arith) refl refl

unknown_account_is_forbidden_test :
    (register lib tx env "eve" line none true held ≡ (err forbidden, held))
    × (revoke tx env "eve" "k1" true held ≡ (err forbidden, held))
    × (list env "eve" none none held ≡ (err forbidden, held))
unfolding mod_users.Accounts.get_user_account_by_uuid mod_users.SshKey.parse mod_users.Text.byte_len
    mod_users.Text.trim_space mod_users.SshKey.check_policy mod_users.SshKey.accepted_key_types
    mod_users.SshKey.key_algo_rsa mod_users.SshKey.normalize_label mod_users.SshKey.strip_disallowed
    mod_users.Text.is_space mod_users.SshKey.is_disallowed_label_rune
unknown_account_is_forbidden_test =
    unknown_account_is_forbidden lib tx env "eve" "k1" line none true none none held parsed
      (codes "work") refl refl refl refl refl

register_duplicate_test : register lib tx env "bob" line none true held ≡ (err key_in_use, held)
unfolding mod_users.SshKey.parse mod_users.Text.byte_len mod_users.Text.trim_space
    mod_users.SshKey.check_policy mod_users.SshKey.accepted_key_types mod_users.SshKey.key_algo_rsa
    mod_users.SshKey.normalize_label mod_users.SshKey.strip_disallowed mod_users.Text.is_space
    mod_users.SshKey.is_disallowed_label_rune mod_users.SshKeys.Service.load_authorized_account
    mod_users.Accounts.get_user_account_by_uuid mod_users.SshKeys.Table.satisfies_checks fingerprint
register_duplicate_test =
    register_duplicate lib tx env "bob" line none true held parsed (codes "work")
      (account 2 "bob" 12) refl refl refl refl refl refl

revoke_foreign_key_test : revoke tx env "bob" "k1" true held ≡ (err forbidden, held)
unfolding mod_users.SshKeys.Service.load_authorized_account
    mod_users.Accounts.get_user_account_by_uuid mod_users.SshKeys.Table.get_active_for_user_account
revoke_foreign_key_test =
    revoke_foreign_key tx env "bob" "k1" true held (account 2 "bob" 12) refl refl refl

list_bounds_test :
    (held ≡ held)
    × (length (to_ssh_key row ∷ []) ≤ 200)
    × (length (to_ssh_key row ∷ []) ≤ 1)
    × (1 ≡ count (is_active_of 1) held.keys)
unfolding list mod_users.SshKeys.Service.load_authorized_account
    mod_users.Accounts.get_user_account_by_uuid mod_users.SshKeys.Table.list_active_by_user_account
    mod_users.SshKeys.Table.count_active_by_user_account mod_users.SshKeys.Table.in_order
list_bounds_test =
    list_bounds env "ada" (some 500) none held held (to_ssh_key row ∷ []) 1 ada refl refl

list_shows_active_test :
    (r : SshPublicKey) × Among r held.keys
    × (r.user_account_id ≡ 1)
    × (r.archived_at ≡ none)
    × (to_ssh_key row ≡ to_ssh_key r)
unfolding list mod_users.SshKeys.Service.load_authorized_account
    mod_users.Accounts.get_user_account_by_uuid mod_users.SshKeys.Table.list_active_by_user_account
    mod_users.SshKeys.Table.count_active_by_user_account mod_users.SshKeys.Table.in_order
list_shows_active_test =
    list_shows_active env "ada" none none held held (to_ssh_key row ∷ []) 1 ada (to_ssh_key row)
      refl refl (inl refl)

register_refuses_bad_shape_example :
    register lib tx env "eve" [] none true held
    ≡ (err (invalid_input (parse_field_error invalid ∷ [])), held)
unfolding validate_ssh_key_shape mod_users.SshKey.parse mod_users.Text.byte_len
register_refuses_bad_shape_example =
    register_refuses_bad_shape lib tx env "eve" [] none true held (parse_field_error invalid) []
      refl
