-- ===== src/Guards.antt =====
-- Who may make a request: AuthenticateRequest, RequireAuth and what they call of
-- api/internal/auth/middleware.go, the anonymous actor of api/internal/auth/anonymous_actor.go and
-- anonymous_actor_service.go, and RequireVerifiedEmail of api/internal/auth/require_verified.go.
pub mod Boot
pub mod Anonymous
pub mod SignedIn
mod Examples
use mod_users.Prelude.{
  ℕ, String, Bool, true, false, Option, none, some, List, [], ◌∷◌, ◌==◌, is_some, if◌then◌else◌,
}
use mod_users.Api.{ApiError, literal, internal, action_required, Result, ok, err, Exec}
use mod_users.Api.Checks.{Checked}
use mod_users.Tokens.{Bytes, codes, is_empty}
use mod_users.Claims.{Fields, ClaimError, Principal}
use mod_users.Claims.Mappers.{ClaimMapper, map_claims}
use mod_users.Jwt.{Crypto, Verifier, VerifyError, verify}
use mod_users.Resolver.{Db, ResolveError, user_gone, UserContext}
use mod_users.Resolver.Resolve.{resolve}

-- What authentication is given: the time in nanoseconds, the verifier, the mapper with Go's
-- strings.ToLower, and what the resolver meets.
pub record Gate : Type 0 where
  pub clock : ℕ
  pub crypto : Crypto
  pub verifier : Verifier
  pub mapper : ClaimMapper
  pub to_lower : String → String
  pub resolver : mod_users.Resolver.Env

pub data AuthError : Type 0 where
  no_auth_header invalid_token : AuthError
  claim_map : ClaimError → AuthError
  not_resolved : ResolveError → AuthError

-- The rest of a text after a prefix.
abbrev pub strip_prefix : Bytes → Bytes → Option Bytes
strip_prefix [] s = some s
strip_prefix (c ∷ prefix) [] = none
strip_prefix (c ∷ prefix) (d ∷ s) = if c == d then strip_prefix prefix s else none

abbrev pub bearer : Bytes
bearer = codes "Bearer "

abbrev pub resolved :
    Result {0, 0} ResolveError UserContext × Db → Result AuthError UserContext × Db
resolved (ok uc, db) = (ok uc, db)
resolved (err e, db) = (err (not_resolved e), db)

abbrev pub with_principal : Gate → Result ClaimError Principal → Exec Db AuthError UserContext
with_principal gate (err e) db = (err (claim_map e), db)
with_principal gate (ok p) db = resolved (resolve gate.resolver p db)

abbrev pub with_claims : Gate → Result VerifyError Fields → Exec Db AuthError UserContext
with_claims gate (err e) db = (err invalid_token, db)
with_claims gate (ok claims) db =
    with_principal gate (map_claims gate.to_lower gate.mapper claims) db

abbrev pub with_token : Gate → Option Bytes → Exec Db AuthError UserContext
with_token gate none db = (err no_auth_header, db)
with_token gate (some token) db =
    with_claims gate (verify gate.crypto gate.verifier gate.clock token) db

-- The Authorization header is "" where the request has none.
unfoldable pub authenticate_request : Gate → Bytes → Exec Db AuthError UserContext
authenticate_request gate header =
    with_token gate (if is_empty header then none else strip_prefix bearer header)

abbrev pub unauthorized : String → ApiError
unauthorized message = literal 401 "unauthorized" message

-- writeAuthError.
abbrev pub auth_answer : Bytes → AuthError → ApiError
auth_answer header no_auth_header = unauthorized (
    if is_empty header
    then "missing Authorization header"
    else "invalid Authorization header format")
auth_answer header invalid_token = unauthorized "invalid or expired token"
auth_answer header (not_resolved user_gone) = unauthorized "user no longer exists"
auth_answer header (claim_map e) =
    literal 500 "internal_error" "failed to process authentication claims"
auth_answer header (not_resolved e) = literal 500 "internal_error" "failed to resolve user"

-- The context of a request that the guards let through.
pub record RequestContext : Type 0 where
  pub user : Option UserContext
  pub actor : Option ℕ
  pub sudo_actor : Option ℕ
  pub anonymous : Bool

unfoldable pub context_with_authenticated_actor : UserContext → RequestContext
context_with_authenticated_actor uc = record {
  user = some uc;
  actor = some uc.entity_id;
  sudo_actor = elim uc.assumed_user [ none ↦ none | some assumed ↦ some assumed.entity_id ];
  anonymous = false;
}

abbrev pub anonymous_context : ℕ → RequestContext
anonymous_context actor = record {
  user = none;
  actor = some actor;
  sudo_actor = none;
  anonymous = true;
}

abbrev pub admitted :
    Bytes → Result {0, 0} AuthError UserContext × Db → Result {0, 0} ApiError RequestContext × Db
admitted header (ok uc, db) = (ok (context_with_authenticated_actor uc), db)
admitted header (err e, db) = (err (auth_answer header e), db)

-- RequireAuth: the context that the handler runs with, or the answer.
unfoldable pub require_auth : Gate → Bytes → Exec Db ApiError RequestContext
unfolding authenticate_request context_with_authenticated_actor
require_auth gate header db = admitted header (authenticate_request gate header db)

abbrev pub or_anonymous :
    ℕ
    → Bytes
    → Result {0, 0} AuthError UserContext × Db
    → Result {0, 0} ApiError RequestContext × Db
or_anonymous actor header (ok uc, db) = (ok (context_with_authenticated_actor uc), db)
or_anonymous actor header (err no_auth_header, db) =
    if is_empty header
    then (ok (anonymous_context actor), db)
    else (err (auth_answer header no_auth_header), db)
or_anonymous actor header (err e, db) = (err (auth_answer header e), db)

unfoldable pub resolve_actor_or_anonymous : Gate → ℕ → Bytes → Exec Db ApiError RequestContext
unfolding authenticate_request context_with_authenticated_actor
resolve_actor_or_anonymous gate actor header db =
    or_anonymous actor header (authenticate_request gate header db)

pub data ActorError : Type 0 where
  actor_not_found lookup_failed grants_check_failed actor_has_grants : ActorError

-- newAnonymousActor: the lookup of the slug fails, finds no row or one; the check of its grants may
-- fail.
unfoldable pub new_anonymous_actor : Option (Option ℕ) → (ℕ → Option Bool) → Checked ActorError ℕ
new_anonymous_actor none has_grants = err lookup_failed
new_anonymous_actor (some none) has_grants = err actor_not_found
new_anonymous_actor (some (some entity)) has_grants = elim (has_grants entity) [
  | none ↦ err grants_check_failed
  | some exists ↦ if exists then err actor_has_grants else ok entity
]

abbrev pub verified_user : Option UserContext → Checked ApiError Unit
verified_user none = err internal
verified_user (some uc) =
    if is_some uc.email_verified_at then ok tt else err (action_required "users.email_unverified")

unfoldable pub require_verified_email : RequestContext → Checked ApiError Unit
require_verified_email ctx = verified_user ctx.user
