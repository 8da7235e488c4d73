-- ===== src/Resolver/Create.antt =====
-- A new account for a principal: autoCreateEmailFields and autoCreate of
-- api/internal/auth/resolver.go.
use Prim.Native.Char.{code}
use mod_users.Prelude.{
  String, Bool, false, not, ◌&&◌, ◌||◌, Option, none, some, List, ◌∷◌, str_eq, ◌==◌, any, length,
  if◌then◌else◌,
}
use mod_users.Api.{ok, ◌>>=◌, ◌>>◌, pure, guard, query}
use mod_users.Accounts.{UserAccount}
use mod_users.Claims.{Principal}
use mod_users.Resolver.{
  Entry, count_accounts, get_type, create_entity, create_legal_entity, create_natural_person,
  create_account, Env, failed, Run, fetch, in_tx, entry, safe_observe, safe_observe_after_commit,
  text_or_null, new_identity, insert_oidc_identity, verified_at,
}
use mod_users.Resolver.Link.{linked}

abbrev pub has_at : String → Bool
has_at String.[] = false
has_at (String.◌∷◌ c s) = code c == b'@' || has_at s

-- What stands before the first "@".
unfoldable pub before_at : String → String
before_at String.[] = ""
before_at (String.◌∷◌ c s) =
    let rest = before_at s in if code c == b'@' then "" else String.◌∷◌ c rest

abbrev pub given_name_of : String → String
given_name_of email =
    if has_at email && not (str_eq (before_at email) "") then before_at email else email

-- The canonical email and the given name.
unfoldable pub auto_create_email_fields : (String → String) → String → String × String
unfolding before_at
auto_create_email_fields canonical raw = (canonical raw, given_name_of (canonical raw))

abbrev pub same_email : Option String → UserAccount → Bool
same_email none r = false
same_email (some s) r = elim r.email [ none ↦ false | some t ↦ str_eq t s ]

-- The key and the unique columns of user_accounts; nulls do not clash.
abbrev pub account_clashes : UserAccount → List UserAccount → Bool
account_clashes new rows =
    any
      (λ r.
        r.id == new.id
        || str_eq r.uuid new.uuid
        || r.account_holder == new.account_holder
        || same_email new.email r)
      rows

unfoldable pub create_user_account : Env → UserAccount → Run UserAccount
create_user_account env new = do
  taken ← fetch (env.fails create_account) (λ db. account_clashes new db.accounts)
  guard (not taken) failed
  query false failed (λ db. (new, record db { accounts = new ∷ db.accounts }))

abbrev pub new_account : Env → Principal → UserAccount
new_account env p = record {
  id = env.new_account_id;
  uuid = env.new_account_uuid;
  account_holder = env.new_entity_id;
  email = text_or_null (env.canonical p.email);
  email_verified_at = verified_at env p;
  default_app_id = none;
}

abbrev pub has_identity : Principal → Bool
has_identity p = not (str_eq p.issuer "") && not (str_eq p.subject "")

-- `if b { … }`
abbrev pub when : Bool → Run Unit → Run Unit
when b m db = if b then m db else (ok tt, db)

abbrev pub call : Bool → Run Unit
call fails = guard (not fails) failed

-- The entity, legal entity and natural person, which the core model's queries create.
abbrev pub create_person : Env → String → Run Unit
create_person env given_name = do
  call (env.fails get_type)
  call (env.fails create_entity)
  call (env.fails create_legal_entity)
  query (env.fails create_natural_person) failed (λ db. (
    tt,
    record db {
      persons = record { entity_id = env.new_entity_id; given_name = given_name } ∷ db.persons;
    },
  ))

abbrev pub created : Env → Entry
created env = entry "create" "user_account" env.new_entity_id env.new_account_uuid

-- The transaction, which tells whether the account is the first one.
abbrev pub create_body : Env → Principal → Run (Bool × UserAccount)
create_body env p = do
  first ← fetch (env.fails count_accounts) (λ db. length db.accounts == 0)
  create_person env (auto_create_email_fields env.canonical p.email).1
  ua ← create_user_account env (new_account env p)
  when (has_identity p) (insert_oidc_identity env (new_identity env ua.id p (verified_at env p)))
  safe_observe env (created env)
  when (has_identity p) (safe_observe env (linked env env.new_entity_id))
  pure (first, ua)

abbrev pub call_hook : Env → Run Unit
call_hook env db =
    if env.has_first_user_hook
    then (ok tt, record db { hooked = env.new_entity_id ∷ db.hooked })
    else (ok tt, db)

unfoldable pub auto_create : Env → Principal → Run UserAccount
unfolding create_user_account insert_oidc_identity auto_create_email_fields
auto_create env p = do
  made ← in_tx env (create_body env p)
  safe_observe_after_commit env (created env)
  when (has_identity p) (safe_observe_after_commit env (linked env env.new_entity_id))
  when made.0 (call_hook env)
  pure made.1
