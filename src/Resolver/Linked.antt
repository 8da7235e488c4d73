-- ===== src/Resolver/Linked.antt =====
-- What a successful call of api/internal/auth/resolver.go links.
use mod_users.Prelude.{
  ℕ, ◌≡◌, ap, ◌∙◌, inl, inr, String, true, Option, some, List, [], ◌∷◌, ◌==◌, Bool-cases, Among,
  Among-find, arith, eq_iff,
}
use mod_users.Api.{ok}
use mod_users.Accounts.{UserAccount, get_user_account_by_id, update_user_account}
use mod_users.Claims.{Principal}
use mod_users.Resolver.{
  OidcIdentity, Db, Env, seen_at, get_oidc_identity_by_issuer_subject,
  touch_oidc_identity_last_seen, new_identity, insert_oidc_identity, verified_at,
}
use mod_users.Resolver.Link.{link_identity, verify_and_link}
use mod_users.Resolver.Create.{
  new_account, has_identity, create_user_account, auto_create_email_fields, auto_create,
}

-- The principal's identity is linked to an account that exists.
pub record IsLinked (p : Principal) (id : ℕ) (db : Db) : Type 0 where
  pub row : OidcIdentity
  pub account : UserAccount
  pub linked : get_oidc_identity_by_issuer_subject p.issuer p.subject db.identities ≡ some row
  pub to_account : row.user_account_id ≡ id
  pub exists : get_user_account_by_id id db.accounts ≡ some account

module _ (env : Env) (p : Principal) (db : Db) where
  pub link_identity-ok :
      (ua : UserAccount)
      → (link_identity env ua p db).0 ≡ ok tt
      → ((link_identity env ua p db).1.accounts ≡ db.accounts)
        × ((link_identity env ua p db).1.identities
            ≡ new_identity env ua.id p (verified_at env p) ∷ db.identities)
  unfolding link_identity insert_oidc_identity
  link_identity-ok ua e = ground arith

  pub verify_and_link-ok :
      (ua : UserAccount)
      → (verify_and_link env ua p db).0 ≡ ok tt
      → ((verify_and_link env ua p db).1.accounts
          ≡ update_user_account ua.id ua.email (some env.now) db.accounts)
        × ((verify_and_link env ua p db).1.identities
            ≡ new_identity env ua.id p (some env.now) ∷ db.identities)
  unfolding verify_and_link insert_oidc_identity
  verify_and_link-ok ua e = ground arith

  pub auto_create-ok :
      (ua : UserAccount)
      → has_identity p ≡ true
      → (auto_create env p db).0 ≡ ok ua
      → (ua ≡ new_account env p)
        × ((auto_create env p db).1.accounts ≡ new_account env p ∷ db.accounts)
        × ((auto_create env p db).1.identities
            ≡ new_identity env env.new_account_id p (verified_at env p) ∷ db.identities)
  unfolding auto_create create_user_account insert_oidc_identity auto_create_email_fields
  auto_create-ok ua has e = ground arith

pub find-account :
    (ua : UserAccount) (rows : List UserAccount)
    → Among ua rows
    → (found : UserAccount) × (get_user_account_by_id ua.id rows ≡ some found)
unfolding get_user_account_by_id
find-account ua [] m = absurd m
find-account ua (r ∷ rows) m = elim (Bool-cases (r.id == ua.id)) [
  | inl here ↦ (r, ground arith)
  | inr elsewhere ↦ elim m [
    | inl same ↦ absurd (ground arith)
    | inr later ↦ let (found, e) = find-account ua rows later in (found, ground arith)
  ]
]

find-update :
    (ua : UserAccount) (email : Option String) (at : Option ℕ) (rows : List UserAccount)
    → Among ua rows
    → (found : UserAccount) × (get_user_account_by_id ua.id
          (update_user_account ua.id email at rows)
        ≡ some found)
unfolding get_user_account_by_id update_user_account
find-update ua email at [] m = absurd m
find-update ua email at (r ∷ rows) m = elim (Bool-cases (r.id == ua.id)) [
  | inl here ↦ (record r { email = email; email_verified_at = at }, ground arith)
  | inr elsewhere ↦ elim m [
    | inl same ↦ absurd (ground arith)
    | inr later ↦ let (found, e) = find-update ua email at rows later in (found, ground arith)
  ]
]

pub find-new :
    (p : Principal) (new : OidcIdentity) (rows : List OidcIdentity)
    → new.issuer ≡ p.issuer
    → new.subject ≡ p.subject
    → get_oidc_identity_by_issuer_subject p.issuer p.subject (new ∷ rows) ≡ some new
unfolding get_oidc_identity_by_issuer_subject
find-new p new rows issuer subject =
    ground (arith, eq_iff new.issuer p.issuer, eq_iff new.subject p.subject)

pub find-touch :
    (p : Principal) (now id : ℕ) (row : OidcIdentity) (rows : List OidcIdentity)
    → get_oidc_identity_by_issuer_subject p.issuer p.subject rows ≡ some row
    → get_oidc_identity_by_issuer_subject p.issuer p.subject
        (touch_oidc_identity_last_seen now id rows)
      ≡ some (seen_at now id row)
unfolding get_oidc_identity_by_issuer_subject touch_oidc_identity_last_seen
find-touch p now id row [] e = cc
find-touch p now id row (r ∷ rows) e = ground (arith, find-touch p now id row rows)

pub found-id :
    (id : ℕ) (ua : UserAccount) (rows : List UserAccount)
    → get_user_account_by_id id rows ≡ some ua
    → ua.id ≡ id
unfolding get_user_account_by_id
found-id id ua rows e = let (m, h) = Among-find (λ r. r.id == id) ua rows e in ground arith

pub IsLinked-in :
    (p : Principal) (id : ℕ) (db : Db) (row : OidcIdentity) (account : UserAccount)
    (rows : List OidcIdentity) (accounts : List UserAccount)
    → db.identities ≡ rows
    → db.accounts ≡ accounts
    → get_oidc_identity_by_issuer_subject p.issuer p.subject rows ≡ some row
    → row.user_account_id ≡ id
    → get_user_account_by_id id accounts ≡ some account
    → IsLinked p id db
IsLinked-in p id db row account rows accounts same_rows same_accounts found to exists = record {
  row = row;
  account = account;
  linked = ap (λ xs. get_oidc_identity_by_issuer_subject p.issuer p.subject xs) same_rows ∙ found;
  to_account = to;
  exists = ap (λ xs. get_user_account_by_id id xs) same_accounts ∙ exists;
}
