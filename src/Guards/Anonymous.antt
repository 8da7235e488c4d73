-- ===== src/Guards/Anonymous.antt =====
-- The anonymous actor is for requests without credentials: ResolveActorOrAnonymous of
-- api/internal/auth/anonymous_actor.go.
use mod_users.Prelude.{ℕ, ◌≡◌, refl, ◌⊎◌, inl, inr, true, false, Bool-cases}
use mod_users.Api.{ApiError, Result, ok, err, internal}
use mod_users.Tokens.{Bytes, is_empty}
use mod_users.Resolver.{Db, UserContext}
use mod_users.Guards.{
  Gate, AuthError, no_auth_header, invalid_token, claim_map, not_resolved, authenticate_request,
  auth_answer, admitted, or_anonymous, context_with_authenticated_actor, anonymous_context,
  require_auth, resolve_actor_or_anonymous, require_verified_email,
}

same_answer :
    (actor : ℕ) (header : Bytes) (r : Result AuthError UserContext × Db)
    → is_empty header ≡ false
    → or_anonymous actor header r ≡ admitted header r
same_answer actor header (ok uc, db) present = refl
same_answer actor header (err no_auth_header, db) present = rw present refl
same_answer actor header (err invalid_token, db) present = refl
same_answer actor header (err (claim_map e), db) present = refl
same_answer actor header (err (not_resolved e), db) present = refl

admitted_user :
    (header : Bytes) (r : Result AuthError UserContext × Db)
    → ((e : ApiError) × ((admitted header r).0 ≡ err e))
      ⊎ ((uc : UserContext) × (r.0 ≡ ok uc)
          × ((admitted header r).0 ≡ ok (context_with_authenticated_actor uc)))
admitted_user header (ok uc, db) = inr (uc, refl, refl)
admitted_user header (err e, db) = inl (auth_answer header e, refl)

-- A request without a header runs as the anonymous actor, with no user, no sudo actor and the store
-- as it was, and does not pass RequireVerifiedEmail. A request with a header is answered as
-- RequireAuth answers it: it is refused, or runs as the user that its token was resolved to and not
-- as an anonymous one.
pub never_downgraded :
    (gate : Gate) (actor : ℕ) (header : Bytes) (db : Db)
    → ((is_empty header ≡ true)
        × (resolve_actor_or_anonymous gate actor header db ≡ (ok (anonymous_context actor), db))
        × (require_verified_email (anonymous_context actor) ≡ err internal))
      ⊎ ((is_empty header ≡ false)
          × (resolve_actor_or_anonymous gate actor header db ≡ require_auth gate header db)
          × (((e : ApiError) × ((require_auth gate header db).0 ≡ err e))
              ⊎ ((uc : UserContext) × ((authenticate_request gate header db).0 ≡ ok uc)
                  × ((require_auth gate header db).0 ≡ ok (context_with_authenticated_actor uc))
                  × ((context_with_authenticated_actor uc).anonymous ≡ false))))
unfolding resolve_actor_or_anonymous require_auth require_verified_email authenticate_request
    context_with_authenticated_actor
never_downgraded gate actor header db = elim (Bool-cases (is_empty header)) [
  | inl absent ↦ inl (absent, rw (absent, absent) refl, refl)
  | inr present ↦
      let r : Result AuthError UserContext × Db = authenticate_request gate header db in
      inr (
        present,
        same_answer actor header r present,
        elim (admitted_user header r) [
          | inl refused ↦ inl refused
          | inr (uc, done, admitted_) ↦ inr (uc, done, admitted_, refl)
        ],
      )
]
