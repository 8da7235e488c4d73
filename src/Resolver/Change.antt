-- ===== src/Resolver/Change.antt =====
-- What a call of Resolve of api/internal/auth/resolver.go may change.
use std.Path.{subst}
use mod_users.Prelude.{
  ℕ, ◌≡◌, sym, ap, ◌∙◌, ◌⊎◌, inl, inr, true, false, some, List, ◌∷◌, str_eq, is_some, Bool-cases,
  Option-cases, arith,
}
use mod_users.Api.{Result, Result-cases}
use mod_users.Accounts.{UserAccount, get_user_account_by_email, update_user_account}
use mod_users.Claims.{Principal}
use mod_users.Resolver.{
  OidcIdentity, Db, Env, UserContext, ResolveError, failed, get_by_email, get_identity,
  get_oidc_identity_by_issuer_subject, touch_oidc_identity_last_seen, new_identity, clashes,
  insert_oidc_identity, verified_at,
}
use mod_users.Resolver.Link.{link_identity, verify_and_link}
use mod_users.Resolver.Create.{
  account_clashes, new_account, has_identity, create_user_account, auto_create_email_fields,
  auto_create,
}
use mod_users.Resolver.Resolve.{
  load_account, no_account, same_email_account, asserted_email, known_identity, new_to_us,
  resolve_external, resolve_local, is_local, resolve,
}

link_identity-tables :
    (env : Env) (ua : UserAccount) (p : Principal) (db : Db)
    → ((link_identity env ua p db).1.accounts ≡ db.accounts)
      × (((link_identity env ua p db).1.identities ≡ db.identities)
          ⊎ ((clashes (new_identity env ua.id p (verified_at env p)) db.identities ≡ false)
              × ((link_identity env ua p db).1.identities
                  ≡ new_identity env ua.id p (verified_at env p) ∷ db.identities)))
unfolding link_identity insert_oidc_identity
link_identity-tables env ua p db = ground arith

verify_and_link-tables :
    (env : Env) (ua : UserAccount) (p : Principal) (db : Db)
    → (((verify_and_link env ua p db).1.accounts ≡ db.accounts)
        × ((verify_and_link env ua p db).1.identities ≡ db.identities))
      ⊎ ((clashes (new_identity env ua.id p (some env.now)) db.identities ≡ false)
          × ((verify_and_link env ua p db).1.accounts
              ≡ update_user_account ua.id ua.email (some env.now) db.accounts)
          × ((verify_and_link env ua p db).1.identities
              ≡ new_identity env ua.id p (some env.now) ∷ db.identities))
unfolding verify_and_link insert_oidc_identity
verify_and_link-tables env ua p db = ground arith

auto_create-tables :
    (env : Env) (p : Principal) (db : Db)
    → (((auto_create env p db).1.accounts ≡ db.accounts)
        × ((auto_create env p db).1.identities ≡ db.identities))
      ⊎ ((account_clashes (new_account env p) db.accounts ≡ false)
          × ((auto_create env p db).1.accounts ≡ new_account env p ∷ db.accounts)
          × (((has_identity p ≡ false) × ((auto_create env p db).1.identities ≡ db.identities))
              ⊎ ((has_identity p ≡ true)
                  × (clashes
                        (new_identity env env.new_account_id p (verified_at env p))
                        db.identities
                      ≡ false)
                  × ((auto_create env p db).1.identities
                      ≡ new_identity env env.new_account_id p (verified_at env p)
                        ∷ db.identities))))
unfolding auto_create create_user_account insert_oidc_identity auto_create_email_fields
auto_create-tables env p db = ground arith

load_account-store :
    (env : Env) (missing : ResolveError) (id : ℕ) (db : Db)
    → (load_account env missing id db).1 ≡ db
load_account-store env missing id db = ground arith

asserted_email-store :
    (env : Env) (p : Principal) (ua : UserAccount) (db : Db)
    → (asserted_email env p ua db).1 ≡ (verify_and_link env ua p db).1
asserted_email-store env p ua db =
    ground (arith, load_account-store env failed ua.id (verify_and_link env ua p db).1)

same_email_asserted :
    (env : Env) (p : Principal) (ua : UserAccount) (db : Db)
    → is_some ua.email_verified_at ≡ false
    → p.email_verified ≡ true
    → (same_email_account env p ua db).1 ≡ (verify_and_link env ua p db).1
same_email_asserted env p ua db unverified asserted =
    let same : same_email_account env p ua db ≡ asserted_email env p ua db = ground arith in
    ap (λ (r : Result ResolveError UserContext × Db). r.1) same ∙ asserted_email-store env p ua db

known_identity-tables :
    (env : Env) (p : Principal) (row : OidcIdentity) (db : Db)
    → ((known_identity env p row db).1.accounts ≡ db.accounts)
      × (((known_identity env p row db).1.identities ≡ db.identities)
          ⊎ ((known_identity env p row db).1.identities
              ≡ touch_oidc_identity_last_seen env.now row.id db.identities))
known_identity-tables env p row db = ground arith

resolve_local-store : (env : Env) (p : Principal) (db : Db) → (resolve_local env p db).1 ≡ db
resolve_local-store env p db = ground arith

module _ (env : Env) (p : Principal) (db : Db) where
  -- The account that has the principal's email.
  abbrev pub HasEmail : UserAccount → Type 0
  HasEmail ua = get_user_account_by_email env.lower (env.canonical p.email) db.accounts ≡ some ua

  -- The decision table: the accounts and identities that one call may leave.
  pub data Change : List UserAccount → List OidcIdentity → Type 0 where
    unchanged : Change db.accounts db.identities
    touched : (id : ℕ) → Change db.accounts (touch_oidc_identity_last_seen env.now id db.identities)
    linked_to_verified :
        (ua : UserAccount)
        → HasEmail ua
        → is_some ua.email_verified_at ≡ true
        → clashes (new_identity env ua.id p (verified_at env p)) db.identities ≡ false
        → Change db.accounts (new_identity env ua.id p (verified_at env p) ∷ db.identities)
    linked_and_verified :
        (ua : UserAccount)
        → HasEmail ua
        → p.email_verified ≡ true
        → clashes (new_identity env ua.id p (some env.now)) db.identities ≡ false
        → Change
            (update_user_account ua.id ua.email (some env.now) db.accounts)
            (new_identity env ua.id p (some env.now) ∷ db.identities)
    created_account :
        account_clashes (new_account env p) db.accounts ≡ false
        → has_identity p ≡ false
        → Change (new_account env p ∷ db.accounts) db.identities
    created_with_identity :
        account_clashes (new_account env p) db.accounts ≡ false
        → clashes (new_identity env env.new_account_id p (verified_at env p)) db.identities ≡ false
        → Change
            (new_account env p ∷ db.accounts)
            (new_identity env env.new_account_id p (verified_at env p) ∷ db.identities)

  changed_to :
      {accounts accounts' : List UserAccount} {rows rows' : List OidcIdentity}
      → accounts ≡ accounts'
      → rows ≡ rows'
      → Change accounts' rows'
      → Change accounts rows
  changed_to {accounts'} {rows} a r c =
      subst (λ xs. Change xs rows) (sym a) (subst (λ ys. Change accounts' ys) (sym r) c)

  link_identity-Change :
      (ua : UserAccount)
      → HasEmail ua
      → is_some ua.email_verified_at ≡ true
      → Change (link_identity env ua p db).1.accounts (link_identity env ua p db).1.identities
  link_identity-Change ua email verified =
      let (same, ids) = link_identity-tables env ua p db in
      elim ids [
        | inl same_ids ↦ changed_to same same_ids unchanged
        | inr (free, more) ↦ changed_to same more (linked_to_verified ua email verified free)
      ]

  verify_and_link-Change :
      (ua : UserAccount)
      → HasEmail ua
      → p.email_verified ≡ true
      → Change (verify_and_link env ua p db).1.accounts (verify_and_link env ua p db).1.identities
  verify_and_link-Change ua email asserted = elim (verify_and_link-tables env ua p db) [
    | inl (same, same_ids) ↦ changed_to same same_ids unchanged
    | inr (free, more, more_ids) ↦
        changed_to more more_ids (linked_and_verified ua email asserted free)
  ]

  auto_create-Change : Change (auto_create env p db).1.accounts (auto_create env p db).1.identities
  auto_create-Change = elim (auto_create-tables env p db) [
    | inl (same, same_ids) ↦ changed_to same same_ids unchanged
    | inr (free, more, ids) ↦ elim ids [
      | inl (no_identity, same_ids) ↦ changed_to more same_ids (created_account free no_identity)
      | inr (has, free_id, more_ids) ↦ changed_to more more_ids (created_with_identity free free_id)
    ]
  ]

  no_account-Change : Change (no_account env p db).1.accounts (no_account env p db).1.identities
  no_account-Change = elim (Result-cases (auto_create env p db).0) [
    | inl (ua, done) ↦ rw done auto_create-Change
    | inr (e, refused) ↦ rw refused auto_create-Change
  ]

  same_email-Change :
      (ua : UserAccount)
      → HasEmail ua
      → Change
          (same_email_account env p ua db).1.accounts
          (same_email_account env p ua db).1.identities
  same_email-Change ua email = elim (Bool-cases (is_some ua.email_verified_at)) [
    | inl verified ↦ elim (Result-cases (link_identity env ua p db).0) [
      | inl (u, done) ↦ rw (verified, done) (link_identity-Change ua email verified)
      | inr (e, refused) ↦ rw (verified, refused) (link_identity-Change ua email verified)
    ]
    | inr unverified ↦ elim (Bool-cases p.email_verified) [
      | inr not_asserted ↦ rw (unverified, not_asserted) unchanged
      | inl asserted ↦
          let store = same_email_asserted env p ua db unverified asserted in
          changed_to (ap (λ (d : Db). d.accounts) store) (ap (λ (d : Db). d.identities) store)
            (verify_and_link-Change ua email asserted)
    ]
  ]

  new_to_us-Change : Change (new_to_us env p db).1.accounts (new_to_us env p db).1.identities
  new_to_us-Change = elim (Bool-cases (str_eq (env.canonical p.email) "")) [
    | inl blank ↦ rw blank no_account-Change
    | inr some_email ↦ elim (Bool-cases (env.fails get_by_email)) [
      | inl down ↦ rw (some_email, down) unchanged
      | inr up ↦
          elim (Option-cases
            (get_user_account_by_email env.lower (env.canonical p.email) db.accounts)) [
              | inl nobody ↦ rw (some_email, up, nobody) no_account-Change
              | inr (ua, found) ↦ rw (some_email, up, found) (same_email-Change ua found)
            ]
    ]
  ]

  known_identity-Change :
      (row : OidcIdentity)
      → Change (known_identity env p row db).1.accounts (known_identity env p row db).1.identities
  known_identity-Change row =
      let (same, ids) = known_identity-tables env p row db in
      elim ids [
        | inl same_ids ↦ changed_to same same_ids unchanged
        | inr seen ↦ changed_to same seen (touched row.id)
      ]

  external-Change :
      Change (resolve_external env p db).1.accounts (resolve_external env p db).1.identities
  external-Change = elim (Bool-cases (has_identity p)) [
    | inr without ↦ rw without new_to_us-Change
    | inl has ↦ elim (Bool-cases (env.fails get_identity)) [
      | inl down ↦ rw (has, down) unchanged
      | inr up ↦
          elim (Option-cases
            (get_oidc_identity_by_issuer_subject p.issuer p.subject db.identities)) [
              | inl unknown ↦ rw (has, up, unknown) new_to_us-Change
              | inr (row, found) ↦ rw (has, up, found) (known_identity-Change row)
            ]
    ]
  ]

  -- Whatever fails, a call leaves the accounts and identities as they were, marks an identity as
  -- seen, links a new identity of the principal to the account that has its email, which is verified
  -- or is verified now because the provider asserts the email, or creates an account, with its
  -- identity if the principal has an issuer and a subject.
  pub resolve-Change : Change (resolve env p db).1.accounts (resolve env p db).1.identities
  unfolding resolve
  resolve-Change = elim (Bool-cases (is_local env p)) [
    | inl local ↦ rw (local, resolve_local-store env p db) unchanged
    | inr external ↦ rw external external-Change
  ]
