-- ===== src/SshKeys/Resolve.antt =====
-- Which key resolves to which account.
use std.Path.{subst}
use mod_users.Prelude.{
  ℕ, ◌≤◌, String, ◌≡◌, refl, sym, ◌∙◌, ap, Bool, true, false, inl, inr, Option, none, some, List,
  [], ◌∷◌, Option-cases, Bool-cases, count, arith, Among, Among-find,
}
use mod_users.Api.{ApiError, Result, ok, err}
use mod_users.Accounts.{UserAccount, get_user_account_by_id, get_user_account_by_uuid}
use mod_users.Tokens.Split.{bytes_eq_iff}
use mod_users.Text.{Text}
use mod_users.SshKey.{KeyError, SshLib, Parsed, parse, fingerprint, canonical}
use mod_users.SshKey.Policy.{parse-IsAcceptable}
use mod_users.SshKeys.Table.{
  SshPublicKey, holds, is_owned, is_resolved, archive_ssh_public_key, get_active_for_user_account,
  resolve_active_ssh_public_key,
}
use mod_users.SshKeys.Service.{Entity, Db, get_entity, resolve, Env, SshKey, get_entity_by_id}
use mod_users.SshKeys.Operations.{Tx, register, revoke}
use mod_users.SshKeys.Resolver.{unknown_ssh_key, resolve_actor}
use mod_users.SshKeys.Commits.{register-cases, revoke-cases}
use mod_users.SshKeys.Unique.{count-archive-lt}

resolve-Among :
    (fp pk : Text) (accounts : List UserAccount) (rows : List SshPublicKey) (holder : ℕ)
    → resolve_active_ssh_public_key fp pk accounts rows ≡ some holder
    → (r : SshPublicKey) × (ua : UserAccount) × Among r rows
      × (is_resolved fp pk r ≡ true)
      × (get_user_account_by_id r.user_account_id accounts ≡ some ua)
      × (ua.account_holder ≡ holder)
unfolding resolve_active_ssh_public_key
resolve-Among fp pk accounts [] holder e = absurd (cc)
resolve-Among fp pk accounts (r ∷ rows) holder e = elim (Bool-cases (is_resolved fp pk r)) [
  | inl hit ↦ elim (Option-cases (get_user_account_by_id r.user_account_id accounts)) [
    | inl missing ↦
        let (q, ua, m, hit, found, held) =
          resolve-Among fp pk accounts rows holder (ground arith) in
        (q, ua, inr m, hit, found, held)
    | inr (ua, found) ↦ (r, ua, inl refl, hit, found, ground arith)
  ]
  | inr miss ↦
      let (q, ua, m, hit, found, held) = resolve-Among fp pk accounts rows holder (ground arith) in
      (q, ua, inr m, hit, found, held)
]

resolve-none :
    (fp pk : Text) (accounts : List UserAccount) (rows : List SshPublicKey)
    → count (holds fp) rows ≡ 0
    → resolve_active_ssh_public_key fp pk accounts rows ≡ none
unfolding resolve_active_ssh_public_key
resolve-none fp pk accounts [] h = refl
resolve-none fp pk accounts (r ∷ rows) h = ground (arith, resolve-none fp pk accounts rows)

module _ {Key : Type 0} (lib : SshLib Key) where
  -- A key resolves to an account holder only if there is an active row with its fingerprint and its
  -- canonical text, whose account has that holder, and the holder is not archived.
  pub resolve_sound :
      (env : Env) (key : Key) (db : Db) (holder : ℕ)
      → resolve_actor lib env (some key) db ≡ ok holder
      → (r : SshPublicKey) × (ua : UserAccount) × (entity : Entity) × Among r db.keys
        × (is_resolved (fingerprint lib key) (canonical lib key) r ≡ true)
        × (get_user_account_by_id r.user_account_id db.accounts ≡ some ua)
        × (ua.account_holder ≡ holder)
        × (get_entity_by_id holder db.entities ≡ some entity)
        × (entity.archived_at ≡ none)
  unfolding resolve_actor
  resolve_sound env key db holder e =
      elim (Option-cases (
        resolve_active_ssh_public_key (fingerprint lib key) (canonical lib key) db.accounts
          db.keys)) [
            | inl unknown ↦ absurd (ground arith)
            | inr (h, found) ↦ elim (Option-cases (get_entity_by_id h db.entities)) [
              | inl missing ↦ absurd (ground arith)
              | inr (entity, stored) ↦
                  let same : h ≡ holder = ground arith in
                  let (r, ua, m, hit, owner, held) =
                    resolve-Among (fingerprint lib key) (canonical lib key) db.accounts db.keys h
                      found in
                  (r, ua, entity, m, hit, owner, held ∙ same, ground arith, ground arith)
            ]
          ]

resolve-head :
    (fp pk : Text) (accounts : List UserAccount) (row : SshPublicKey) (rows : List SshPublicKey)
    (ua : UserAccount)
    → row.fingerprint_sha256 ≡ fp
    → row.public_key ≡ pk
    → row.archived_at ≡ none
    → get_user_account_by_id row.user_account_id accounts ≡ some ua
    → resolve_active_ssh_public_key fp pk accounts (row ∷ rows) ≡ some ua.account_holder
unfolding resolve_active_ssh_public_key
resolve-head fp pk accounts row rows ua f k a found =
    ground
      (arith, (bytes_eq_iff row.fingerprint_sha256 fp).1 f, (bytes_eq_iff row.public_key pk).1 k)

found_once : {A : Type 0} {o : Option A} {a b : A} → o ≡ some a → o ≡ some b → a ≡ b
found_once e f = cc

got : {A : Type 0} {r : Result {0, 0} KeyError A} {a b : A} → r ≡ ok a → r ≡ ok b → a ≡ b
got e f = cc

find-owned :
    (uuid : String) (uid : ℕ) (rows : List SshPublicKey) (row : SshPublicKey)
    → get_active_for_user_account uuid uid rows ≡ some row
    → Among row rows × (is_owned uuid uid row ≡ true)
unfolding get_active_for_user_account
find-owned uuid uid rows row e = Among-find (is_owned uuid uid) row rows e

module _ {Key : Type 0} (lib : SshLib Key) (tx : Tx) where
  -- After a call of Register that succeeds, the key of its line resolves to the holder of the
  -- account, as long as the account's id is its own and the lookup itself does not fail.
  pub register-resolve :
      (env later : Env) (uuid : String) (line : Text) (label : Option Text) (step_up : Bool)
      (db db' : Db) (out : SshKey) (p : Parsed Key) (ua : UserAccount)
      → register lib tx env uuid line label step_up db ≡ (ok out, db')
      → parse lib line ≡ ok p
      → get_user_account_by_uuid uuid db.accounts ≡ some ua
      → get_user_account_by_id ua.id db.accounts ≡ some ua
      → later.fails resolve ≡ false
      → later.fails get_entity ≡ false
      → resolve_actor lib later (some p.key) db' ≡ ok ua.account_holder
  unfolding resolve_actor
  register-resolve env later uuid line label step_up db db' out p ua e parsed loaded own up up' =
      elim (register-cases lib tx env uuid line label step_up db) [
        | inr (bad, same) ↦ absurd (ground arith)
        | inl done ↦
            let (type_is, canonical_is, fingerprint_is) =
              (parse-IsAcceptable lib line p parsed).derived in
            let same_p : done.parsed ≡ p = got done.is_parsed parsed in
            let same_ua : done.ua ≡ ua = found_once done.loaded loaded in
            let keys : db'.keys ≡ done.row ∷ db.keys =
              ap (λ (o : Result {0, 0} ApiError SshKey × Db). o.1.keys) (sym e) ∙ done.keys in
            let row_is = done.is_new in
            let accounts : db'.accounts ≡ db.accounts =
              ap (λ (o : Result {0, 0} ApiError SshKey × Db). o.1.accounts) (sym e)
              ∙ done.accounts in
            let entities : db'.entities ≡ db.entities =
              ap (λ (o : Result {0, 0} ApiError SshKey × Db). o.1.entities) (sym e)
              ∙ done.entities in
            let head =
              resolve-head (fingerprint lib p.key) (canonical lib p.key) db.accounts done.row
                db.keys ua
                (ap (λ (r : SshPublicKey). r.fingerprint_sha256) row_is
                  ∙ ap (λ (q : Parsed Key). q.fingerprint) same_p
                  ∙ fingerprint_is)
                (ap (λ (r : SshPublicKey). r.public_key) row_is
                  ∙ ap (λ (q : Parsed Key). q.canonical) same_p
                  ∙ canonical_is)
                (ap (λ (r : SshPublicKey). r.archived_at) row_is)
                (ap (λ (r : SshPublicKey). get_user_account_by_id r.user_account_id db.accounts)
                    row_is
                  ∙ ap (λ (a : UserAccount). get_user_account_by_id a.id db.accounts) same_ua
                  ∙ own) in
            let held =
              subst
                (λ (a : UserAccount).
                  get_entity_by_id a.account_holder db.entities ≡ some done.entity)
                same_ua done.held in
            let in_use = done.in_use in
            rw up
              (rw keys (rw accounts (rw head (rw up' (rw entities (rw held (rw in_use refl)))))))
      ]

  -- After a call of Revoke that succeeds, no key with the fingerprint of the revoked row resolves, as
  -- long as the fingerprint was active once at most and the lookup itself does not fail.
  pub revoke-resolve :
      (env later : Env) (uuid key_uuid : String) (step_up : Bool) (db db' : Db) (ua : UserAccount)
      (row : SshPublicKey) (key : Key)
      → revoke tx env uuid key_uuid step_up db ≡ (ok tt, db')
      → get_user_account_by_uuid uuid db.accounts ≡ some ua
      → get_active_for_user_account key_uuid ua.id db.keys ≡ some row
      → count (holds row.fingerprint_sha256) db.keys ≤ 1
      → fingerprint lib key ≡ row.fingerprint_sha256
      → later.fails resolve ≡ false
      → resolve_actor lib later (some key) db' ≡ err unknown_ssh_key
  unfolding resolve_actor
  revoke-resolve env later uuid key_uuid step_up db db' ua row key e loaded owned once same_fp up =
      elim (revoke-cases tx env uuid key_uuid step_up db) [
        | inr (bad, same) ↦ absurd (ground arith)
        | inl done ↦
            let keys' = done.keys in
            let loaded' = done.loaded in
            let owned' = done.owned in
            let same_ua : done.ua ≡ ua = ground arith in
            let after : db'.keys ≡ (archive_ssh_public_key env.now key_uuid ua.id db.keys).1 =
              ground arith in
            let (m, is_own) = find-owned key_uuid ua.id db.keys row owned in
            let fewer =
              count-archive-lt row.fingerprint_sha256 env.now key_uuid ua.id row db.keys m is_own
                ((bytes_eq_iff row.fingerprint_sha256 row.fingerprint_sha256).1 refl) in
            let gone : count (holds row.fingerprint_sha256) db'.keys ≡ 0 = rw after (omega arith) in
            let gone' : count (holds (fingerprint lib key)) db'.keys ≡ 0 = rw same_fp gone in
            let unknown =
              resolve-none (fingerprint lib key) (canonical lib key) db'.accounts db'.keys gone' in
            rw up (rw unknown refl)
      ]
