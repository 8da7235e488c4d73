-- ===== src/SshKeys/Table.antt =====
-- The ssh_public_keys table: model/db/models.go, the queries of model/db/ssh_public_keys.sql.go, and
-- the constraints of model/migrations/sql/0100_baseline.sql.
use mod_users.Prelude.{
  ℕ, suc, String, Bool, true, false, ◌&&◌, ◌||◌, Option, none, some, List, [], ◌∷◌, str_eq, ltb,
  leb, ◌==◌, any, select, find, count, length, take, drop, is_none, is_some, if◌then◌else◌,
}
use mod_users.Accounts.{UserAccount, get_user_account_by_id}
use mod_users.Tokens.{bytes_eq, codes}
use mod_users.Text.{Text}
use mod_users.SshKey.{is_accepted_type}

pub record SshPublicKey : Type 0 where
  pub id : ℕ
  pub uuid : String
  pub user_account_id : ℕ
  pub key_type : Text
  pub public_key : Text
  pub fingerprint_sha256 : Text
  pub label : Text
  pub created_at : ℕ
  pub archived_at : Option ℕ

-- What the row being inserted takes from its caller.
pub record InsertParams : Type 0 where
  pub user_account_id : ℕ
  pub key_type : Text
  pub public_key : Text
  pub fingerprint_sha256 : Text
  pub label : Text

-- How a transaction's body ends early: isPgUniqueViolation, errSSHKeyNotFoundForAccount, and any
-- other error.
pub data TxError : Type 0 where
  unique_violation key_not_found_for_account failed : TxError

-- An entry of ssh_public_keys_active_fingerprint_uq.
abbrev pub holds : Text → SshPublicKey → Bool
holds fp r = bytes_eq r.fingerprint_sha256 fp && is_none r.archived_at

-- The unique indexes that an insertion would violate.
unfoldable pub is_taken : String → Text → List SshPublicKey → Bool
is_taken uuid fp rows = any (λ r. str_eq r.uuid uuid) rows || any (holds fp) rows

abbrev pub starts_with : Text → Text → Bool
starts_with [] s = true
starts_with (p ∷ ps) [] = false
starts_with (p ∷ ps) (c ∷ cs) = p == c && starts_with ps cs

-- The three checks of the table, and its foreign key.
unfoldable pub satisfies_checks : InsertParams → Bool
satisfies_checks p =
    is_accepted_type p.key_type
    && starts_with (codes "SHA256:") p.fingerprint_sha256
    && leb (length p.label) 100

unfoldable pub has_account : ℕ → List UserAccount → Bool
has_account id accounts = is_some (get_user_account_by_id id accounts)

abbrev pub new_row : ℕ → String → ℕ → InsertParams → SshPublicKey
new_row id uuid now p = record {
  id = id;
  uuid = uuid;
  user_account_id = p.user_account_id;
  key_type = p.key_type;
  public_key = p.public_key;
  fingerprint_sha256 = p.fingerprint_sha256;
  label = p.label;
  created_at = now;
  archived_at = none;
}

-- WHERE uuid = $1 AND user_account_id = $2 AND archived_at IS NULL
abbrev pub is_owned : String → ℕ → SshPublicKey → Bool
is_owned uuid uid r = str_eq r.uuid uuid && r.user_account_id == uid && is_none r.archived_at

unfoldable pub get_active_for_user_account : String → ℕ → List SshPublicKey → Option SshPublicKey
get_active_for_user_account uuid uid rows = find (is_owned uuid uid) rows

-- ArchiveSSHPublicKey: the number of rows it set, and the rows.
unfoldable pub archive_ssh_public_key : ℕ → String → ℕ → List SshPublicKey → ℕ × List SshPublicKey
archive_ssh_public_key now uuid uid [] = (0, [])
archive_ssh_public_key now uuid uid (r ∷ rs) =
    let (n, rest) = archive_ssh_public_key now uuid uid rs in
    if is_owned uuid uid r
    then (suc n, record r { archived_at = some now } ∷ rest)
    else (n, r ∷ rest)

abbrev pub is_active_of : ℕ → SshPublicKey → Bool
is_active_of uid r = r.user_account_id == uid && is_none r.archived_at

-- ORDER BY created_at ASC, id ASC
abbrev pub precedes : SshPublicKey → SshPublicKey → Bool
precedes a b = ltb a.created_at b.created_at || (a.created_at == b.created_at && leb a.id b.id)

unfoldable pub insert_ordered : SshPublicKey → List SshPublicKey → List SshPublicKey
insert_ordered a [] = a ∷ []
insert_ordered a (b ∷ bs) =
    let rest = insert_ordered a bs in if precedes a b then a ∷ b ∷ bs else b ∷ rest

unfoldable pub in_order : List SshPublicKey → List SshPublicKey
unfolding insert_ordered
in_order [] = []
in_order (r ∷ rs) = insert_ordered r (in_order rs)

unfoldable pub list_active_by_user_account : ℕ → ℕ → ℕ → List SshPublicKey → List SshPublicKey
list_active_by_user_account uid limit offset rows =
    take limit (drop offset (in_order (select (is_active_of uid) rows)))

unfoldable pub count_active_by_user_account : ℕ → List SshPublicKey → ℕ
count_active_by_user_account uid rows = count (is_active_of uid) rows

-- ResolveActiveSSHPublicKey, with its join on user_accounts.
abbrev pub is_resolved : Text → Text → SshPublicKey → Bool
is_resolved fp pk r =
    bytes_eq r.fingerprint_sha256 fp && bytes_eq r.public_key pk && is_none r.archived_at

abbrev pub joined : Option UserAccount → Option ℕ → Option ℕ
joined none rest = rest
joined (some ua) rest = some ua.account_holder

unfoldable pub resolve_active_ssh_public_key :
    Text → Text → List UserAccount → List SshPublicKey → Option ℕ
resolve_active_ssh_public_key fp pk accounts [] = none
resolve_active_ssh_public_key fp pk accounts (r ∷ rs) =
    let rest = resolve_active_ssh_public_key fp pk accounts rs in
    if is_resolved fp pk r
    then joined (get_user_account_by_id r.user_account_id accounts) rest
    else rest
