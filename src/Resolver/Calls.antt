-- ===== src/Resolver/Calls.antt =====
-- Sequences of calls of Resolve of api/internal/auth/resolver.go.
use mod_users.Prelude.{
  ℕ, ◌≤◌, ◌≡◌, refl, ◌∙◌, inl, inr, String, Bool, true, false, ◌&&◌, some, List, [], ◌∷◌, ◌==◌, any,
  count, is_some, Bool-cases, Among-find, Among-any, All, arith, eq_iff,
}
use mod_users.Accounts.{UserAccount, email_is, get_user_account_by_email}
use mod_users.Claims.{Principal}
use mod_users.Resolver.{
  OidcIdentity, Db, Env, is_identity, seen_at, touch_oidc_identity_last_seen, new_identity, clashes,
  verified_at,
}
use mod_users.Resolver.Create.{account_clashes, new_account}
use mod_users.Resolver.Resolve.{resolve}
use mod_users.Resolver.Change.{
  Change, unchanged, touched, linked_to_verified, linked_and_verified, created_account,
  created_with_identity, resolve-Change,
}

unfoldable pub resolve_all : List (Env × Principal) → Db → Db
resolve_all [] db = db
resolve_all ((env, p) ∷ calls) db = resolve_all calls (resolve env p db).1

count-touch :
    (f : OidcIdentity → Bool) (now id : ℕ) (rows : List OidcIdentity)
    → ((r : OidcIdentity) → f (seen_at now id r) ≡ f r)
    → count f (touch_oidc_identity_last_seen now id rows) ≡ count f rows
unfolding touch_oidc_identity_last_seen
count-touch f now id [] same = refl
count-touch f now id (r ∷ rows) same = ground (arith, same r, count-touch f now id rows same)

count-free :
    (issuer subject : String) (new : OidcIdentity) (rows : List OidcIdentity)
    → is_identity issuer subject new ≡ true
    → clashes new rows ≡ false
    → count (is_identity issuer subject) rows ≡ 0
count-free issuer subject new [] same free = refl
count-free issuer subject new (r ∷ rows) same free = ground (
  arith,
  count-free issuer subject new rows same,
  eq_iff new.issuer issuer,
  eq_iff new.subject subject,
)

seen-identity :
    (issuer subject : String) (now id : ℕ) (r : OidcIdentity)
    → is_identity issuer subject (seen_at now id r) ≡ is_identity issuer subject r
seen-identity issuer subject now id r = ground arith

count-insert :
    (issuer subject : String) (new : OidcIdentity) (rows : List OidcIdentity)
    → clashes new rows ≡ false
    → count (is_identity issuer subject) rows ≤ 1
    → count (is_identity issuer subject) (new ∷ rows) ≤ 1
count-insert issuer subject new rows free unique =
    elim (Bool-cases (is_identity issuer subject new)) [
      | inl same ↦ ground (arith, count-free issuer subject new rows same free)
      | inr other ↦ ground arith
    ]

Change-unique :
    (env : Env) (p : Principal) (db : Db) (issuer subject : String) (accounts : List UserAccount)
    (rows : List OidcIdentity)
    → count (is_identity issuer subject) db.identities ≤ 1
    → Change env p db accounts rows
    → count (is_identity issuer subject) rows ≤ 1
Change-unique env p db issuer subject accounts rows unique unchanged = unique
Change-unique env p db issuer subject accounts rows unique (touched id) = omega (
  arith,
  unique,
  count-touch (is_identity issuer subject) env.now id db.identities
      (λ r. seen-identity issuer subject env.now id r),
)
Change-unique env p db issuer subject accounts rows unique
      (linked_to_verified ua email verified free) =
    count-insert issuer subject (new_identity env ua.id p (verified_at env p)) db.identities free
      unique
Change-unique env p db issuer subject accounts rows unique
      (linked_and_verified ua email asserted free) =
    count-insert issuer subject (new_identity env ua.id p (some env.now)) db.identities free unique
Change-unique env p db issuer subject accounts rows unique (created_account free without) = unique
Change-unique env p db issuer subject accounts rows unique (created_with_identity free free_id) =
    count-insert issuer subject (new_identity env env.new_account_id p (verified_at env p))
      db.identities free_id unique

-- Whatever principals are resolved, and whatever fails, no issuer and subject are linked twice: an
-- identity names one account.
pub identities_stay_unique :
    (calls : List (Env × Principal)) (db : Db) (issuer subject : String)
    → count (is_identity issuer subject) db.identities ≤ 1
    → count (is_identity issuer subject) (resolve_all calls db).identities ≤ 1
unfolding resolve_all
identities_stay_unique [] db issuer subject unique = unique
identities_stay_unique ((env, p) ∷ calls) db issuer subject unique =
    identities_stay_unique calls (resolve env p db).1 issuer subject
      (Change-unique env p db issuer subject _ _ unique (resolve-Change env p db))

-- The account exists, and its email is not verified.
abbrev pub IsUnverified : ℕ → List UserAccount → Type 0
IsUnverified v accounts =
    (any (λ r. r.id == v) accounts ≡ true)
    × (any (λ r. r.id == v && is_some r.email_verified_at) accounts ≡ false)

abbrev pub identities_of : ℕ → List OidcIdentity → ℕ
identities_of v rows = count (λ r. r.user_account_id == v) rows

new_id :
    (v : ℕ) (new : UserAccount) (rows : List UserAccount)
    → account_clashes new rows ≡ false
    → any (λ r. r.id == v) rows ≡ true
    → (new.id == v) ≡ false
new_id v new [] free known = absurd (cc)
new_id v new (r ∷ rows) free known = ground (arith, new_id v new rows)

verified_is_other :
    (env : Env) (email : String) (v : ℕ) (ua : UserAccount) (accounts : List UserAccount)
    → get_user_account_by_email env.lower email accounts ≡ some ua
    → is_some ua.email_verified_at ≡ true
    → any (λ r. r.id == v && is_some r.email_verified_at) accounts ≡ false
    → (ua.id == v) ≡ false
unfolding get_user_account_by_email
verified_is_other env email v ua accounts found verified unverified =
    let (among, matches) = Among-find (λ r. email_is env.lower email r.email) ua accounts found in
    elim (Bool-cases (ua.id == v)) [
      | inr other ↦ other
      | inl same ↦
          let hit : any (λ r. r.id == v && is_some r.email_verified_at) accounts ≡ true =
            Among-any (λ r. r.id == v && is_some r.email_verified_at) ua accounts among
              (ground arith) in
          absurd (ground arith)
    ]

Change-IsUnverified :
    (env : Env) (p : Principal) (db : Db) (v : ℕ) (accounts : List UserAccount)
    (rows : List OidcIdentity)
    → p.email_verified ≡ false
    → IsUnverified v db.accounts
    → Change env p db accounts rows
    → IsUnverified v accounts × (identities_of v rows ≡ identities_of v db.identities)
Change-IsUnverified env p db v accounts rows silent (known, unverified) unchanged =
    ((known, unverified), refl)
Change-IsUnverified env p db v accounts rows silent (known, unverified) (touched id) = (
  (known, unverified),
  count-touch (λ r. r.user_account_id == v) env.now id db.identities (λ r. ground arith),
)
Change-IsUnverified env p db v accounts rows silent (known, unverified)
      (linked_to_verified ua email verified free) =
    let other =
      verified_is_other env (env.canonical p.email) v ua db.accounts email verified unverified in
    ((known, unverified), ground arith)
Change-IsUnverified env p db v accounts rows silent (known, unverified)
      (linked_and_verified ua email asserted free) =
    absurd (ground arith)
Change-IsUnverified env p db v accounts rows silent (known, unverified)
      (created_account free without) =
    let other = new_id v (new_account env p) db.accounts free known in
    ((ground arith, ground arith), refl)
Change-IsUnverified env p db v accounts rows silent (known, unverified)
      (created_with_identity free free_id) =
    let other = new_id v (new_account env p) db.accounts free known in
    ((ground arith, ground arith), ground arith)

-- As long as no provider asserts an email, an account whose email is not verified gets no identity
-- and stays unverified, whatever principals are resolved, their emails included, and whatever fails.
pub no_takeover :
    (calls : List (Env × Principal)) (db : Db) (v : ℕ)
    → All (λ call. call.1.email_verified ≡ false) calls
    → IsUnverified v db.accounts
    → IsUnverified v (resolve_all calls db).accounts
      × (identities_of v (resolve_all calls db).identities ≡ identities_of v db.identities)
unfolding resolve_all
no_takeover [] db v silent unverified = (unverified, refl)
no_takeover ((env, p) ∷ calls) db v silent unverified =
    let (still, same) =
      Change-IsUnverified env p db v (resolve env p db).1.accounts (resolve env p db).1.identities
        silent.0 unverified (resolve-Change env p db) in
    let (still', same') = no_takeover calls (resolve env p db).1 v silent.1 still in
    (still', same' ∙ same)
