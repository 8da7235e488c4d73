-- ===== src/Resolver.antt =====
-- The account of a principal: api/internal/auth/resolver.go, with the queries of
-- model/db/auth_oidc_identities.sql.go and model/db/user_accounts.sql.go that it makes.
pub mod Link
pub mod Create
pub mod Resolve
pub mod Change
pub mod Calls
pub mod Linked
pub mod Again
mod Examples
use mod_users.Prelude.{
  ℕ, ◌+◌, String, Bool, true, false, not, ◌&&◌, ◌||◌, Option, none, some, List, [], ◌∷◌, str_eq,
  ◌==◌, any, find, map, is_none, length, if◌then◌else◌,
}
use mod_users.Api.{Result, ok, err, Exec, ◌>>=◌, ◌>>◌, pure, raise, guard, query, row_or}
use mod_users.Accounts.{
  UserAccount, get_user_account_by_id, get_user_account_by_email, get_user_account_by_uuid,
  update_user_account,
}
use mod_users.Claims.{Principal}

-- A row of auth_oidc_identities; it was linked at some time, which is left out.
pub record OidcIdentity : Type 0 where
  pub id : ℕ
  pub uuid : String
  pub user_account_id : ℕ
  pub issuer : String
  pub subject : String
  pub email : Option String
  pub email_verified_at_idp : Option ℕ
  pub last_seen_at : ℕ

-- What the observer is told: the operation, the resource, the entity and the row's uuid.
pub record Entry : Type 0 where
  pub operation : String
  pub resource : String
  pub entity_id : ℕ
  pub uuid : String

-- A natural person of the core model, with the entity and legal entity that it stands on.
pub record NaturalPerson : Type 0 where
  pub entity_id : ℕ
  pub given_name : String

-- The tables, the observer's entries inside and after transactions, and the entities that the
-- first-user hook was called with.
pub record Db : Type 0 where
  pub accounts : List UserAccount
  pub identities : List OidcIdentity
  pub persons : List NaturalPerson
  pub audit : List Entry
  pub notified : List Entry
  pub hooked : List ℕ

pub data Query : Type 0 where
  get_by_uuid get_identity touch get_by_id get_by_email get_sudo : Query
  begin insert_identity update_account observing commit count_accounts : Query
  get_type create_entity create_legal_entity create_natural_person create_account : Query

-- What one call meets: the clock, the calls that fail, whether there is an observer, a hook and a
-- lookup by uuid, the ids that the database gives to new rows, uuid.Parse, the database's lower, and
-- Go's lower-casing and trimming. The issuer of local tokens is "" where there are none.
pub record Env : Type 0 where
  pub now : ℕ
  pub fails : Query → Bool
  pub local_issuer : String
  pub has_uuid_lookup : Bool
  pub has_observer : Bool
  pub has_first_user_hook : Bool
  pub new_account_id : ℕ
  pub new_account_uuid : String
  pub new_identity_id : ℕ
  pub new_identity_uuid : String
  pub new_entity_id : ℕ
  pub parse_uuid : String → Option String
  pub lower : String → String
  pub canonical : String → String

pub data ResolveError : Type 0 where
  user_gone unverified_takeover subject_is_no_uuid failed : ResolveError

pub record AssumedUserInfo : Type 0 where
  pub user_account_id : ℕ
  pub user_uuid : String
  pub entity_id : ℕ
  pub email : String

pub record UserContext : Type 0 where
  pub user_account_id : ℕ
  pub user_uuid : String
  pub entity_id : ℕ
  pub email : String
  pub email_verified_at : Option ℕ
  pub assumed_user : Option AssumedUserInfo
  pub app_id : Option ℕ

abbrev pub Run : Type 0 → Type 0
Run A = Exec Db ResolveError A

abbrev pub fetch : {A : Type 0} → Bool → (Db → A) → Run A
fetch fails f = query fails failed (λ db. (f db, db))

-- A transaction that is committed where its body returns, and rolled back otherwise.
abbrev pub settle :
    {A : Type 0} → Bool → Db → Result ResolveError A × Db → Result ResolveError A × Db
settle commit_fails before (err e, db) = (err e, before)
settle commit_fails before (ok a, db) = if commit_fails then (err failed, before) else (ok a, db)

abbrev pub in_tx : {A : Type 0} → Env → Run A → Run A
in_tx env body db =
    if env.fails begin then (err failed, db) else settle (env.fails commit) db (body db)

abbrev pub entry : String → String → ℕ → String → Entry
entry operation resource entity uuid = record {
  operation = operation;
  resource = resource;
  entity_id = entity;
  uuid = uuid;
}

abbrev pub safe_observe : Env → Entry → Run Unit
safe_observe env e db =
    if not env.has_observer
    then (ok tt, db)
    else if env.fails observing
    then (err failed, db)
    else (ok tt, record db { audit = e ∷ db.audit })

abbrev pub safe_observe_after_commit : Env → Entry → Run Unit
safe_observe_after_commit env e db =
    if env.has_observer then (ok tt, record db { notified = e ∷ db.notified }) else (ok tt, db)

abbrev pub is_identity : String → String → OidcIdentity → Bool
is_identity issuer subject r = str_eq r.issuer issuer && str_eq r.subject subject

unfoldable pub get_oidc_identity_by_issuer_subject :
    String → String → List OidcIdentity → Option OidcIdentity
get_oidc_identity_by_issuer_subject issuer subject rows = find (is_identity issuer subject) rows

abbrev pub seen_at : ℕ → ℕ → OidcIdentity → OidcIdentity
seen_at now id r = if r.id == id then record r { last_seen_at = now } else r

unfoldable pub touch_oidc_identity_last_seen : ℕ → ℕ → List OidcIdentity → List OidcIdentity
touch_oidc_identity_last_seen now id rows = map (seen_at now id) rows

abbrev pub text_or_null : String → Option String
text_or_null s = if str_eq s "" then none else some s

abbrev pub or_empty : Option String → String
or_empty none = ""
or_empty (some s) = s

-- The row that InsertOIDCIdentity adds for a principal.
abbrev pub new_identity : Env → ℕ → Principal → Option ℕ → OidcIdentity
new_identity env account p verified = record {
  id = env.new_identity_id;
  uuid = env.new_identity_uuid;
  user_account_id = account;
  issuer = p.issuer;
  subject = p.subject;
  email = text_or_null p.email;
  email_verified_at_idp = verified;
  last_seen_at = env.now;
}

-- UNIQUE (issuer, subject), and the key.
abbrev pub clashes : OidcIdentity → List OidcIdentity → Bool
clashes new rows = any (λ r. is_identity new.issuer new.subject r || r.id == new.id) rows

unfoldable pub insert_oidc_identity : Env → OidcIdentity → Run Unit
insert_oidc_identity env new = do
  taken ← fetch (env.fails insert_identity) (λ db. clashes new db.identities)
  guard (not taken) failed
  query false failed (λ db. (tt, record db { identities = new ∷ db.identities }))

abbrev pub verified_at : Env → Principal → Option ℕ
verified_at env p = if p.email_verified then some env.now else none
