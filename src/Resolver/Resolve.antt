-- ===== src/Resolver/Resolve.antt =====
-- Resolve and buildUserContext of api/internal/auth/resolver.go.
use mod_users.Prelude.{
  ℕ, String, Bool, false, not, ◌&&◌, Option, none, some, List, str_eq, is_some, if◌then◌else◌,
}
use mod_users.Api.{ok, ◌>>=◌, ◌>>◌, raise, row_or}
use mod_users.Accounts.{
  UserAccount, get_user_account_by_id, get_user_account_by_email, get_user_account_by_uuid,
}
use mod_users.Claims.{Principal}
use mod_users.Resolver.{
  OidcIdentity, get_by_uuid, get_identity, touch, get_by_id, get_by_email, get_sudo, Env,
  ResolveError, user_gone, unverified_takeover, subject_is_no_uuid, failed, AssumedUserInfo,
  UserContext, Run, fetch, get_oidc_identity_by_issuer_subject, touch_oidc_identity_last_seen,
  or_empty,
}
use mod_users.Resolver.Link.{link_identity, verify_and_link}
use mod_users.Resolver.Create.{has_identity, auto_create}

abbrev pub assumed_of : UserAccount → AssumedUserInfo
assumed_of ua = record {
  user_account_id = ua.id;
  user_uuid = ua.uuid;
  entity_id = ua.account_holder;
  email = or_empty ua.email;
}

-- A sudo user that cannot be looked up is skipped.
abbrev pub sudo_user : Env → Option String → List UserAccount → Option AssumedUserInfo
sudo_user env none accounts = none
sudo_user env (some uuid) accounts =
    if env.fails get_sudo then none else elim (get_user_account_by_uuid uuid accounts) [
      | none ↦ none
      | some ua ↦ some (assumed_of ua)
    ]

unfoldable pub build_user_context : Env → UserAccount → Principal → List UserAccount → UserContext
build_user_context env ua p accounts = record {
  user_account_id = ua.id;
  user_uuid = ua.uuid;
  entity_id = ua.account_holder;
  email = or_empty ua.email;
  email_verified_at = ua.email_verified_at;
  assumed_user =
      if str_eq p.sudo_user_uuid ""
      then none
      else sudo_user env (env.parse_uuid p.sudo_user_uuid) accounts;
  app_id = ua.default_app_id;
}

abbrev pub context : Env → Principal → UserAccount → Run UserContext
context env p ua = fetch false (λ db. build_user_context env ua p db.accounts)

abbrev pub is_local : Env → Principal → Bool
is_local env p =
    not (str_eq env.local_issuer "") && str_eq p.issuer env.local_issuer && env.has_uuid_lookup

-- The fast path of a local token.
abbrev pub resolve_local : Env → Principal → Run UserContext
resolve_local env p = do
  uuid ← row_or subject_is_no_uuid (env.parse_uuid p.subject)
  found ← fetch (env.fails get_by_uuid) (λ db. get_user_account_by_uuid uuid db.accounts)
  ua ← row_or user_gone found
  context env p ua

abbrev pub load_account : Env → ResolveError → ℕ → Run UserAccount
load_account env missing id = do
  found ← fetch (env.fails get_by_id) (λ db. get_user_account_by_id id db.accounts)
  row_or missing found

-- A failure of the touch is not one of the call.
abbrev pub touch_identity : Env → ℕ → Run Unit
touch_identity env id db =
    if env.fails touch
    then (ok tt, db)
    else (ok tt, record db { identities = touch_oidc_identity_last_seen env.now id db.identities })

-- Branch 1: the identity is linked.
abbrev pub known_identity : Env → Principal → OidcIdentity → Run UserContext
known_identity env p identity = do
  touch_identity env identity.id
  ua ← load_account env user_gone identity.user_account_id
  context env p ua

-- Branch 3: the provider asserts the email of an account that is not verified.
abbrev pub asserted_email : Env → Principal → UserAccount → Run UserContext
asserted_email env p ua = do
  verify_and_link env ua p
  ua' ← load_account env failed ua.id
  context env p ua'

-- Branches 2 to 4: an account has the email.
abbrev pub same_email_account : Env → Principal → UserAccount → Run UserContext
same_email_account env p ua =
    if is_some ua.email_verified_at
    then (link_identity env ua p >> context env p ua)
    else if p.email_verified
    then asserted_email env p ua
    else raise unverified_takeover

-- Branch 5: no account has the email.
abbrev pub no_account : Env → Principal → Run UserContext
no_account env p = do ua ← auto_create env p; context env p ua

abbrev pub for_account : Env → Principal → Option UserAccount → Run UserContext
for_account env p none = no_account env p
for_account env p (some ua) = same_email_account env p ua

abbrev pub find_account : Env → String → Run (Option UserAccount)
find_account env email db =
    if str_eq email ""
    then (ok none, db)
    else fetch (env.fails get_by_email) (λ s. get_user_account_by_email env.lower email s.accounts)
        db

abbrev pub new_to_us : Env → Principal → Run UserContext
new_to_us env p = do found ← find_account env (env.canonical p.email); for_account env p found

abbrev pub for_identity : Env → Principal → Option OidcIdentity → Run UserContext
for_identity env p none = new_to_us env p
for_identity env p (some identity) = known_identity env p identity

abbrev pub find_identity : Env → Principal → Run (Option OidcIdentity)
find_identity env p db =
    if has_identity p
    then fetch (env.fails get_identity)
        (λ s. get_oidc_identity_by_issuer_subject p.issuer p.subject s.identities) db
    else (ok none, db)

abbrev pub resolve_external : Env → Principal → Run UserContext
resolve_external env p = do known ← find_identity env p; for_identity env p known

unfoldable pub resolve : Env → Principal → Run UserContext
unfolding build_user_context link_identity verify_and_link auto_create
resolve env p = if is_local env p then resolve_local env p else resolve_external env p
