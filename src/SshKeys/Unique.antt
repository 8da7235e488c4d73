-- ===== src/SshKeys/Unique.antt =====
-- A fingerprint is active once at most, and calls that fail change nothing.
use std.Path.{subst}
use mod_users.Prelude.{
  ℕ, ◌+◌, ◌≤◌, String, ◌≡◌, refl, sym, ap, Bool, true, false, inl, inr, Option, List, [], ◌∷◌,
  Bool-cases, any, count, arith, Among,
}
use mod_users.Api.{ApiError, Result, ok, err}
use mod_users.Tokens.{bytes_eq}
use mod_users.Tokens.Split.{bytes_eq_iff}
use mod_users.Text.{Text}
use mod_users.SshKey.{SshLib}
use mod_users.SshKeys.Table.{SshPublicKey, holds, is_owned, is_taken, archive_ssh_public_key}
use mod_users.SshKeys.Service.{Db, Env}
use mod_users.SshKeys.Operations.{Tx, register, revoke}
use mod_users.SshKeys.Commits.{register-cases, revoke-cases}

-- The calls that write keys.
pub data Call : Type 0 where
  registering : String → Text → Option Text → Bool → Call
  revoking : String → String → Bool → Call

-- A call's answer, without the key that it shows, and the store after it.
abbrev pub unit_of : {A : Type 0} → Result {0, 0} ApiError A → Result {0, 0} ApiError Unit
unit_of (ok a) = ok tt
unit_of (err e) = err e

count-any :
    (p : SshPublicKey → Bool) (rows : List SshPublicKey) → any p rows ≡ false → count p rows ≡ 0
count-any p [] h = refl
count-any p (r ∷ rows) h = ground (arith, count-any p rows)

count-archive :
    (fp : Text) (now : ℕ) (uuid : String) (uid : ℕ) (rows : List SshPublicKey)
    → count (holds fp) (archive_ssh_public_key now uuid uid rows).1 ≤ count (holds fp) rows
unfolding archive_ssh_public_key
count-archive fp now uuid uid [] = omega arith
count-archive fp now uuid uid (r ∷ rows) = ground (arith, count-archive fp now uuid uid rows)

-- Archiving an active row with the fingerprint leaves fewer of them.
pub count-archive-lt :
    (fp : Text) (now : ℕ) (uuid : String) (uid : ℕ) (row : SshPublicKey) (rows : List SshPublicKey)
    → Among row rows
    → is_owned uuid uid row ≡ true
    → bytes_eq row.fingerprint_sha256 fp ≡ true
    → count (holds fp) (archive_ssh_public_key now uuid uid rows).1 + 1 ≤ count (holds fp) rows
unfolding archive_ssh_public_key
count-archive-lt fp now uuid uid row [] m o h = absurd m
count-archive-lt fp now uuid uid row (r ∷ rows) (inl same) o h =
    ground (arith, count-archive fp now uuid uid rows)
count-archive-lt fp now uuid uid row (r ∷ rows) (inr m) o h =
    ground (arith, count-archive-lt fp now uuid uid row rows m)

free-count :
    (uuid : String) (fp : Text) (rows : List SshPublicKey)
    → is_taken uuid fp rows ≡ false
    → count (holds fp) rows ≡ 0
unfolding is_taken
free-count uuid fp rows h = count-any (holds fp) rows (ground arith)

holds-count :
    (fp : Text) (row : SshPublicKey) (rows : List SshPublicKey)
    → count (holds row.fingerprint_sha256) rows ≡ 0
    → count (holds fp) rows ≤ 1
    → count (holds fp) (row ∷ rows) ≤ 1
holds-count fp row rows free h = elim (Bool-cases (bytes_eq row.fingerprint_sha256 fp)) [
  | inr other ↦ ground arith
  | inl same ↦
      let none_yet : count (holds fp) rows ≡ 0 =
        subst (λ f. count (holds f) rows ≡ 0) ((bytes_eq_iff row.fingerprint_sha256 fp).0 same)
          free in
      ground arith
]

module _ {Key : Type 0} (lib : SshLib Key) (tx : Tx) where
  unfoldable pub apply : Env → Call → Db → Result {0, 0} ApiError Unit × Db
  apply env (registering uuid line label step_up) db =
      let (answer, db') = register lib tx env uuid line label step_up db in (unit_of answer, db')
  apply env (revoking uuid key_uuid step_up) db = revoke tx env uuid key_uuid step_up db

  unfoldable pub apply_all : List (Env × Call) → Db → Db
  unfolding apply
  apply_all [] db = db
  apply_all ((env, call) ∷ calls) db = apply_all calls (apply env call db).1

  -- A call of Register or Revoke that answers with an error leaves the whole store as it was:
  -- no key, no audit entry and no notification.
  pub failed_call_keeps_store :
      (env : Env) (call : Call) (db : Db) (e : ApiError)
      → (apply env call db).0 ≡ err e
      → (apply env call db).1 ≡ db
  unfolding apply
  failed_call_keeps_store env (registering uuid line label step_up) db e failed =
      elim (register-cases lib tx env uuid line label step_up db) [
        | inl done ↦ let answer = done.answer in absurd (ground arith)
        | inr (e', same) ↦ ground arith
      ]
  failed_call_keeps_store env (revoking uuid key_uuid step_up) db e failed =
      elim (revoke-cases tx env uuid key_uuid step_up db) [
        | inl done ↦ let answer = done.answer in absurd (ground arith)
        | inr (e', same) ↦ ground arith
      ]

  apply_unique :
      (env : Env) (call : Call) (db : Db) (fp : Text)
      → count (holds fp) db.keys ≤ 1
      → count (holds fp) (apply env call db).1.keys ≤ 1
  unfolding apply
  apply_unique env (registering uuid line label step_up) db fp h =
      elim (register-cases lib tx env uuid line label step_up db) [
        | inr (e, same) ↦ ground arith
        | inl done ↦
            let keys = done.keys in
            let row_is = done.is_new in
            let free = free-count env.new_uuid done.parsed.fingerprint db.keys done.free in
            let fp_is : done.row.fingerprint_sha256 ≡ done.parsed.fingerprint =
              ap (λ (r : SshPublicKey). r.fingerprint_sha256) row_is in
            let fresh : count (holds done.row.fingerprint_sha256) db.keys ≡ 0 =
              subst (λ f. count (holds f) db.keys ≡ 0) (sym fp_is) free in
            rw keys (holds-count fp done.row db.keys fresh h)
      ]
  apply_unique env (revoking uuid key_uuid step_up) db fp h =
      elim (revoke-cases tx env uuid key_uuid step_up db) [
        | inr (e, same) ↦ ground arith
        | inl done ↦
            let keys = done.keys in
            let fewer = count-archive fp env.now key_uuid done.ua.id db.keys in
            rw keys (omega arith)
      ]

  -- Whatever calls of Register and Revoke are made, and whichever of their transactions fail, a
  -- fingerprint that is active at most once in the table stays so.
  pub fingerprints_stay_unique :
      (calls : List (Env × Call)) (db : Db) (fp : Text)
      → count (holds fp) db.keys ≤ 1
      → count (holds fp) (apply_all calls db).keys ≤ 1
  unfolding apply_all
  fingerprints_stay_unique [] db fp h = h
  fingerprints_stay_unique ((env, call) ∷ calls) db fp h =
      fingerprints_stay_unique calls (apply env call db).1 fp (apply_unique env call db fp h)
