-- ===== src/Resolver/Again.antt =====
-- A principal is resolved to the same account again: Resolve of api/internal/auth/resolver.go.
use std.Path.{subst}
use mod_users.Prelude.{
  ℕ, ◌≡◌, refl, sym, ap, ◌∙◌, inl, inr, String, true, false, some, List, ◌∷◌, str_eq, is_some,
  Bool-cases, Option-cases, Among, Among-find, arith,
}
use mod_users.Api.{Result, ok, Result-cases}
use mod_users.Accounts.{UserAccount, email_is, get_user_account_by_email, get_user_account_by_id}
use mod_users.Claims.{Principal}
use mod_users.Resolver.{
  OidcIdentity, Db, Env, UserContext, ResolveError, get_by_email, get_by_id, get_identity, touch,
  seen_at, get_oidc_identity_by_issuer_subject, touch_oidc_identity_last_seen, new_identity,
  verified_at,
}
use mod_users.Resolver.Link.{link_identity, verify_and_link}
use mod_users.Resolver.Create.{new_account, has_identity, auto_create}
use mod_users.Resolver.Resolve.{
  build_user_context, no_account, same_email_account, asserted_email, known_identity, new_to_us,
  resolve_external, is_local, resolve,
}
use mod_users.Resolver.Linked.{
  IsLinked, link_identity-ok, verify_and_link-ok, auto_create-ok, find-account, find-new,
  find-touch, found-id, IsLinked-in,
}

-- The answer and the store of a call that is another one.
via :
    {p : Principal} {id : ℕ} {r r' : Result ResolveError UserContext × Db}
    → r ≡ r'
    → IsLinked p id r'.1
    → IsLinked p id r.1
via {p} {id} same l = subst (λ s. IsLinked p id s.1) (sym same) l

email-Among :
    (env : Env) (email : String) (ua : UserAccount) (rows : List UserAccount)
    → get_user_account_by_email env.lower email rows ≡ some ua
    → Among ua rows
unfolding get_user_account_by_email
email-Among env email ua rows e = (Among-find (λ r. email_is env.lower email r.email) ua rows e).0

module _ (env : Env) (p : Principal) (db : Db) (uc : UserContext) where
  no_account-IsLinked :
      has_identity p ≡ true
      → (no_account env p db).0 ≡ ok uc
      → IsLinked p uc.user_account_id (no_account env p db).1
  unfolding build_user_context
  no_account-IsLinked has e = elim (Result-cases (auto_create env p db).0) [
    | inr (bad, refused) ↦ absurd (ground arith)
    | inl (ua, made) ↦
        let (new, accounts, rows) = auto_create-ok env p db ua has made in
        let row : OidcIdentity = new_identity env env.new_account_id p (verified_at env p) in
        let store : (no_account env p db).1 ≡ (auto_create env p db).1 = ground arith in
        IsLinked-in p uc.user_account_id (no_account env p db).1 row (new_account env p)
          (row ∷ db.identities) (new_account env p ∷ db.accounts)
          (ap (λ (d : Db). d.identities) store ∙ rows)
          (ap (λ (d : Db). d.accounts) store ∙ accounts) (find-new p row db.identities refl refl)
          (ground arith) (unfold get_user_account_by_id in ground arith)
  ]

  module _ (ua : UserAccount) (among : Among ua db.accounts) where
    verified_account-IsLinked :
        is_some ua.email_verified_at ≡ true
        → (same_email_account env p ua db).0 ≡ ok uc
        → IsLinked p uc.user_account_id (same_email_account env p ua db).1
    unfolding build_user_context
    verified_account-IsLinked verified e = elim (Result-cases (link_identity env ua p db).0) [
      | inr (bad, refused) ↦ absurd (ground arith)
      | inl (u, made) ↦
          let (accounts, rows) = link_identity-ok env p db ua made in
          let row : OidcIdentity = new_identity env ua.id p (verified_at env p) in
          let store : (same_email_account env p ua db).1 ≡ (link_identity env ua p db).1 =
            ground arith in
          let (found, exists) = find-account ua db.accounts among in
          let same : uc.user_account_id ≡ ua.id = ground arith in
          IsLinked-in p uc.user_account_id (same_email_account env p ua db).1 row found
            (row ∷ db.identities) db.accounts (ap (λ (d : Db). d.identities) store ∙ rows)
            (ap (λ (d : Db). d.accounts) store ∙ accounts) (find-new p row db.identities refl refl)
            (sym same) (rw same exists)
    ]

    asserted-IsLinked :
        (asserted_email env p ua db).0 ≡ ok uc
        → IsLinked p uc.user_account_id (asserted_email env p ua db).1
    unfolding build_user_context
    asserted-IsLinked e = elim (Result-cases (verify_and_link env ua p db).0) [
      | inr (bad, refused) ↦ absurd (ground arith)
      | inl (u, made) ↦
          let (accounts, rows) = verify_and_link-ok env p db ua made in
          let row : OidcIdentity = new_identity env ua.id p (some env.now) in
          let s : Db = (verify_and_link env ua p db).1 in
          elim (Option-cases (get_user_account_by_id ua.id s.accounts)) [
            | inl gone ↦ absurd (ground arith)
            | inr (found, exists) ↦
                let store : (asserted_email env p ua db).1 ≡ s = ground arith in
                let same : uc.user_account_id ≡ ua.id =
                  ground (arith, found-id ua.id found s.accounts exists) in
                IsLinked-in p uc.user_account_id (asserted_email env p ua db).1 row found
                  (row ∷ db.identities) s.accounts (ap (λ (d : Db). d.identities) store ∙ rows)
                  (ap (λ (d : Db). d.accounts) store) (find-new p row db.identities refl refl)
                  (sym same) (rw same exists)
          ]
    ]

  known-IsLinked :
      (row : OidcIdentity)
      → get_oidc_identity_by_issuer_subject p.issuer p.subject db.identities ≡ some row
      → (known_identity env p row db).0 ≡ ok uc
      → IsLinked p uc.user_account_id (known_identity env p row db).1
  unfolding build_user_context
  known-IsLinked row known e =
      elim (Option-cases (get_user_account_by_id row.user_account_id db.accounts)) [
        | inl gone ↦ absurd (ground arith)
        | inr (found, exists) ↦ elim (Bool-cases (env.fails touch)) [
          | inl down ↦
              let same : uc.user_account_id ≡ row.user_account_id =
                ground (arith, found-id row.user_account_id found db.accounts exists) in
              IsLinked-in p uc.user_account_id (known_identity env p row db).1 row found
                db.identities db.accounts (ground arith) (ground arith) known (sym same)
                (rw same exists)
          | inr up ↦
              let same : uc.user_account_id ≡ row.user_account_id =
                ground (arith, found-id row.user_account_id found db.accounts exists) in
              IsLinked-in p uc.user_account_id (known_identity env p row db).1
                (seen_at env.now row.id row) found
                (touch_oidc_identity_last_seen env.now row.id db.identities) db.accounts
                (ground arith) (ground arith) (find-touch p env.now row.id row db.identities known)
                (ground arith) (rw same exists)
        ]
      ]

  same_email-IsLinked :
      (ua : UserAccount)
      → Among ua db.accounts
      → (same_email_account env p ua db).0 ≡ ok uc
      → IsLinked p uc.user_account_id (same_email_account env p ua db).1
  same_email-IsLinked ua among e = elim (Bool-cases (is_some ua.email_verified_at)) [
    | inl verified ↦ verified_account-IsLinked ua among verified e
    | inr unverified ↦ elim (Bool-cases p.email_verified) [
      | inr silent ↦ absurd (ground arith)
      | inl asserted ↦
          let same : same_email_account env p ua db ≡ asserted_email env p ua db = ground arith in
          via same (asserted-IsLinked ua among (sym (ap (λ r. r.0) same) ∙ e))
    ]
  ]

  new_to_us-IsLinked :
      has_identity p ≡ true
      → (new_to_us env p db).0 ≡ ok uc
      → IsLinked p uc.user_account_id (new_to_us env p db).1
  new_to_us-IsLinked has e = elim (Bool-cases (str_eq (env.canonical p.email) "")) [
    | inl blank ↦
        let same : new_to_us env p db ≡ no_account env p db = rw blank refl in
        via same (no_account-IsLinked has (sym (ap (λ r. r.0) same) ∙ e))
    | inr some_email ↦ elim (Bool-cases (env.fails get_by_email)) [
      | inl down ↦ absurd (ground arith)
      | inr up ↦
          elim (Option-cases
            (get_user_account_by_email env.lower (env.canonical p.email) db.accounts)) [
              | inl nobody ↦
                  let same : new_to_us env p db ≡ no_account env p db =
                    rw (some_email, up, nobody) refl in
                  via same (no_account-IsLinked has (sym (ap (λ r. r.0) same) ∙ e))
              | inr (ua, found) ↦
                  let same : new_to_us env p db ≡ same_email_account env p ua db =
                    rw (some_email, up, found) refl in
                  via same (
                    same_email-IsLinked ua
                      (email-Among env (env.canonical p.email) ua db.accounts found)
                      (sym (ap (λ r. r.0) same) ∙ e))
            ]
    ]
  ]

  external-IsLinked :
      has_identity p ≡ true
      → (resolve_external env p db).0 ≡ ok uc
      → IsLinked p uc.user_account_id (resolve_external env p db).1
  external-IsLinked has e = elim (Bool-cases (env.fails get_identity)) [
    | inl down ↦ absurd (ground arith)
    | inr up ↦
        elim (Option-cases (get_oidc_identity_by_issuer_subject p.issuer p.subject db.identities)) [
          | inl unknown ↦
              let same : resolve_external env p db ≡ new_to_us env p db =
                rw (has, up, unknown) refl in
              via same (new_to_us-IsLinked has (sym (ap (λ r. r.0) same) ∙ e))
          | inr (row, known) ↦
              let same : resolve_external env p db ≡ known_identity env p row db =
                rw (has, up, known) refl in
              via same (known-IsLinked row known (sym (ap (λ r. r.0) same) ∙ e))
        ]
  ]

linked_again :
    (env : Env) (p : Principal) (db : Db) (id : ℕ)
    → has_identity p ≡ true
    → env.fails get_identity ≡ false
    → env.fails get_by_id ≡ false
    → IsLinked p id db
    → (uc : UserContext) × ((resolve_external env p db).0 ≡ ok uc) × (uc.user_account_id ≡ id)
unfolding build_user_context
linked_again env p db id has up up_id l =
    let same : resolve_external env p db ≡ known_identity env p l.row db =
      rw (has, up, l.linked) refl in
    let there : get_user_account_by_id l.row.user_account_id db.accounts ≡ some l.account =
      rw l.to_account l.exists in
    let right = found-id id l.account db.accounts l.exists in
    (build_user_context env l.account p db.accounts, ap (λ r. r.0) same ∙ ground arith, right)

-- A principal with an issuer, not the local one, and a subject, that has been resolved once is
-- resolved again, at any later time and whatever its email and roles then are, to the same account,
-- as long as the two lookups of the identity and of its account do not fail.
pub resolve_again :
    (env later : Env) (p q : Principal) (db : Db) (uc : UserContext)
    → has_identity p ≡ true
    → q.issuer ≡ p.issuer
    → q.subject ≡ p.subject
    → is_local env p ≡ false
    → is_local later q ≡ false
    → (resolve env p db).0 ≡ ok uc
    → later.fails get_identity ≡ false
    → later.fails get_by_id ≡ false
    → (uc' : UserContext) × ((resolve later q (resolve env p db).1).0 ≡ ok uc')
      × (uc'.user_account_id ≡ uc.user_account_id)
unfolding resolve
resolve_again env later p q db uc has issuer subject external external' e up up_id =
    let same : resolve env p db ≡ resolve_external env p db = rw external refl in
    let l : IsLinked p uc.user_account_id (resolve env p db).1 =
      via same (external-IsLinked env p db uc has (sym (ap (λ r. r.0) same) ∙ e)) in
    let l' : IsLinked q uc.user_account_id (resolve env p db).1 = record {
      row = l.row;
      account = l.account;
      linked = rw (issuer, subject) l.linked;
      to_account = l.to_account;
      exists = l.exists;
    } in
    let has' : has_identity q ≡ true = rw (issuer, subject) has in
    let (uc', again, right) =
      linked_again later q (resolve env p db).1 uc.user_account_id has' up up_id l' in
    (uc', rw external' again, right)
