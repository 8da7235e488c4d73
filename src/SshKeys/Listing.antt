-- ===== src/SshKeys/Listing.antt =====
-- What a listing shows.
use std.Path.{subst}
use mod_users.Prelude.{
  ℕ, zero, suc, ◌+◌, ◌≤◌, String, ◌≡◌, refl, ◌∙◌, ap, Bool, true, ◌⊎◌, inl, inr, none, some, List,
  [], ◌∷◌, map, count, length, take, drop, select, length-take-le, arith, Among, Among-select,
}
use mod_users.Api.{Result-cases, ok}
use mod_users.Accounts.{UserAccount, get_user_account_by_uuid}
use mod_users.SshKeys.Table.{
  SshPublicKey, is_active_of, insert_ordered, in_order, list_active_by_user_account,
  count_active_by_user_account,
}
use mod_users.SshKeys.Service.{Db, Env, load_authorized_account, SshKey, to_ssh_key}
use mod_users.SshKeys.Operations.{Int32, clamp_limit, clamp_offset, list}
use mod_users.SshKeys.Outcomes.{load-store, load-ok}

length-map : (rows : List SshPublicKey) → length (map to_ssh_key rows) ≡ length rows
length-map [] = refl
length-map (r ∷ rows) = ground (arith, length-map rows)

length-insert_ordered :
    (r : SshPublicKey) (rows : List SshPublicKey) → length (insert_ordered r rows) ≡ length rows + 1
unfolding insert_ordered
length-insert_ordered r [] = omega arith
length-insert_ordered r (b ∷ rows) = ground (arith, length-insert_ordered r rows)

pub length-in_order : (rows : List SshPublicKey) → length (in_order rows) ≡ length rows
unfolding in_order
length-in_order [] = refl
length-in_order (r ∷ rows) =
    ground (arith, length-in_order rows, length-insert_ordered r (in_order rows))

Among-insert_ordered :
    (a r : SshPublicKey) (rows : List SshPublicKey)
    → Among a (insert_ordered r rows)
    → (a ≡ r) ⊎ Among a rows
unfolding insert_ordered
Among-insert_ordered a r [] m = m
Among-insert_ordered a r (b ∷ rows) m = ground (arith, Among-insert_ordered a r rows)

Among-in_order :
    (a : SshPublicKey) (rows : List SshPublicKey) → Among a (in_order rows) → Among a rows
unfolding in_order
Among-in_order a [] m = m
Among-in_order a (r ∷ rows) m =
    ground (arith, Among-in_order a rows, Among-insert_ordered a r (in_order rows))

pub length-select :
    (p : SshPublicKey → Bool) (rows : List SshPublicKey) → length (select p rows) ≡ count p rows
length-select p [] = refl
length-select p (r ∷ rows) = ground (arith, length-select p rows)

length-drop-le : (n : ℕ) (rows : List SshPublicKey) → length (drop n rows) ≤ length rows
length-drop-le zero rows = omega arith
length-drop-le (suc n) [] = omega arith
length-drop-le (suc n) (r ∷ rows) = omega (arith, length-drop-le n rows)

length-take-whole : (n : ℕ) (rows : List SshPublicKey) → length (take n rows) ≤ length rows
length-take-whole zero rows = omega arith
length-take-whole (suc n) [] = omega arith
length-take-whole (suc n) (r ∷ rows) = omega (arith, length-take-whole n rows)

Among-take :
    (a : SshPublicKey) (n : ℕ) (rows : List SshPublicKey) → Among a (take n rows) → Among a rows
Among-take a zero rows m = absurd m
Among-take a (suc n) [] m = m
Among-take a (suc n) (r ∷ rows) m = ground (arith, Among-take a n rows)

Among-drop :
    (a : SshPublicKey) (n : ℕ) (rows : List SshPublicKey) → Among a (drop n rows) → Among a rows
Among-drop a zero rows m = m
Among-drop a (suc n) [] m = m
Among-drop a (suc n) (r ∷ rows) m = ground (arith, Among-drop a n rows)

Among-map :
    (k : SshKey) (rows : List SshPublicKey)
    → Among k (map to_ssh_key rows)
    → (r : SshPublicKey) × Among r rows × (k ≡ to_ssh_key r)
Among-map k [] m = absurd m
Among-map k (r ∷ rows) (inl e) = (r, inl refl, e)
Among-map k (r ∷ rows) (inr m) = let (q, n, e) = Among-map k rows m in (q, inr n, e)

clamp-le : (limit : Int32) → clamp_limit limit ≤ 200
clamp-le none = omega arith
clamp-le (some zero) = omega arith
clamp-le (some (suc n)) = ground arith

pub list-ok :
    (env : Env) (uuid : String) (limit offset : Int32) (db db' : Db) (page : List SshKey)
    (total : ℕ)
    → list env uuid limit offset db ≡ (ok (page, total), db')
    → (ua : UserAccount) × (get_user_account_by_uuid uuid db.accounts ≡ some ua)
      × (page
          ≡ map to_ssh_key
              (list_active_by_user_account ua.id (clamp_limit limit) (clamp_offset offset) db.keys))
      × (total ≡ count_active_by_user_account ua.id db.keys)
      × (db' ≡ db)
unfolding list
list-ok env uuid limit offset db db' page total e =
    elim (Result-cases (load_authorized_account env "read" uuid db).0) [
      | inr (denial, refused) ↦ absurd (ground arith)
      | inl (ua, found) ↦
          let kept = load-store env "read" uuid db in
          (
            ua,
            load-ok env "read" uuid db ua found,
            ground (arith, kept),
            ground (arith, kept),
            ground (arith, kept),
          )
    ]

-- A listing changes nothing. Its page has at most 200 keys, whatever limit was asked for, and no
-- more keys than the total, which is the number of active keys of the account.
pub list_bounds :
    (env : Env) (uuid : String) (limit offset : Int32) (db db' : Db) (page : List SshKey)
    (total : ℕ) (ua : UserAccount)
    → list env uuid limit offset db ≡ (ok (page, total), db')
    → get_user_account_by_uuid uuid db.accounts ≡ some ua
    → (db' ≡ db)
      × (length page ≤ 200)
      × (length page ≤ total)
      × (total ≡ count (is_active_of ua.id) db.keys)
unfolding list_active_by_user_account count_active_by_user_account
list_bounds env uuid limit offset db db' page total ua e loaded =
    let (ua', loaded', page_is, total_is, same) =
      list-ok env uuid limit offset db db' page total e in
    let same_ua : ua' ≡ ua = cc in
    let chosen : List SshPublicKey = in_order (select (is_active_of ua'.id) db.keys) in
    let dropped : List SshPublicKey = drop (clamp_offset offset) chosen in
    let size : length page ≡ length (take (clamp_limit limit) dropped) =
      ap (λ (p : List SshKey). length p) page_is ∙ length-map (take (clamp_limit limit) dropped) in
    let active : total ≡ count (is_active_of ua'.id) db.keys = total_is in
    (
      same,
      omega (arith, size, length-take-le (clamp_limit limit) dropped, clamp-le limit),
      omega (
        arith,
        size,
        active,
        length-take-whole (clamp_limit limit) dropped,
        length-drop-le (clamp_offset offset) chosen,
        length-in_order (select (is_active_of ua'.id) db.keys),
        length-select (is_active_of ua'.id) db.keys,
      ),
      active ∙ ap (λ (a : UserAccount). count (is_active_of a.id) db.keys) same_ua,
    )

-- Every key that a listing shows, on whatever page, is a row of the account that is not archived.
pub list_shows_active :
    (env : Env) (uuid : String) (limit offset : Int32) (db db' : Db) (page : List SshKey)
    (total : ℕ) (ua : UserAccount) (k : SshKey)
    → list env uuid limit offset db ≡ (ok (page, total), db')
    → get_user_account_by_uuid uuid db.accounts ≡ some ua
    → Among k page
    → (r : SshPublicKey) × Among r db.keys
      × (r.user_account_id ≡ ua.id)
      × (r.archived_at ≡ none)
      × (k ≡ to_ssh_key r)
unfolding list_active_by_user_account
list_shows_active env uuid limit offset db db' page total ua k e loaded m =
    let (ua', loaded', page_is, total_is, same) =
      list-ok env uuid limit offset db db' page total e in
    let same_ua : ua' ≡ ua = cc in
    let chosen : List SshPublicKey = in_order (select (is_active_of ua'.id) db.keys) in
    let dropped : List SshPublicKey = drop (clamp_offset offset) chosen in
    let (r, taken, shown) =
      Among-map k (take (clamp_limit limit) dropped) (subst (λ p. Among k p) page_is m) in
    let (row, active) = Among-select (is_active_of ua'.id) r db.keys (
      Among-in_order r (select (is_active_of ua'.id) db.keys) (
        Among-drop r (clamp_offset offset) chosen
          (Among-take r (clamp_limit limit) dropped taken))) in
    let here : is_active_of ua.id r ≡ true =
      subst (λ (a : UserAccount). is_active_of a.id r ≡ true) same_ua active in
    (r, row, ground (arith, here), ground (arith, here), shown)
