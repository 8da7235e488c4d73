-- ===== src/SshKeys/Resolver.antt =====
-- ResolveActor of api/internal/service/ssh_key_resolver.go. It only reads, so it is a function of
-- the store.
use mod_users.Prelude.{ℕ, Option, none, some, is_none, if◌then◌else◌}
use mod_users.Api.{Result, ok, err}
use mod_users.SshKey.{SshLib, canonical, fingerprint}
use mod_users.SshKeys.Table.{resolve_active_ssh_public_key}
use mod_users.SshKeys.Service.{Entity, Db, get_entity, resolve, Env, get_entity_by_id}

pub data ResolveError : Type 0 where
  unknown_ssh_key resolution_failed : ResolveError

abbrev pub usable : ℕ → Option Entity → Result ResolveError ℕ
usable holder none = err unknown_ssh_key
usable holder (some e) = if is_none e.archived_at then ok holder else err unknown_ssh_key

abbrev pub check_holder : Env → Db → Option ℕ → Result ResolveError ℕ
check_holder env db none = err unknown_ssh_key
check_holder env db (some holder) =
    if env.fails get_entity
    then err resolution_failed
    else usable holder (get_entity_by_id holder db.entities)

module _ {Key : Type 0} (lib : SshLib Key) where
  unfoldable pub resolve_actor : Env → Option Key → Db → Result ResolveError ℕ
  resolve_actor env none db = err unknown_ssh_key
  resolve_actor env (some key) db =
      if env.fails resolve
      then err resolution_failed
      else check_holder env db (
          resolve_active_ssh_public_key (fingerprint lib key) (canonical lib key) db.accounts
            db.keys)
