-- ===== src/Guards/SignedIn.antt =====
-- From the issue of a token to the request that it signs in: local_jwt.go, jwt.go, the claim mappers,
-- resolver.go and middleware.go of api/internal/auth together.
use mod_users.Prelude.{
  ℕ, ◌+◌, ◌*◌, ◌≤◌, ◌<◌, ◌≡◌, refl, sym, ap, ◌∙◌, String, Bool, true, false, Option, some, List,
  ◌++◌, str_eq, eq_iff,
}
use mod_users.Api.{ok}
use mod_users.Tokens.{Bytes}
use mod_users.Accounts.{UserAccount, get_user_account_by_uuid}
use mod_users.Claims.{
  Fields, Principal, extract_required, get_string, get_string_by_path, get_string_slice_by_path,
  lowercase_all,
}
use mod_users.Claims.Mappers.{
  ClaimMapper, google, microsoft, authelia, keycloak, cognito, auth0, firebase, generic, map_claims,
  mapped, principal_of, map_generic, MapperOptions,
}
use mod_users.Claims.Identity.{principal_of_claims}
use mod_users.Jwt.{Crypto, OidcVerifier, Verifier, second, verify}
use mod_users.Jwt.Options.{is_hs256, LocalAuthConfig, public_of, new_local_verifier}
use mod_users.Jwt.Signer.{JwtLibrary, Signer, new_signer, day, exact, issue_local_jwt}
use mod_users.Jwt.Issued.{issued_is_accepted}
use mod_users.Resolver.{Db, Env, get_by_uuid, UserContext}
use mod_users.Resolver.Resolve.{build_user_context, resolve}
use mod_users.Guards.{Gate, bearer, authenticate_request}

-- The generic mapper has its two paths.
abbrev pub IsConfigured : ClaimMapper → Type 0
IsConfigured (generic opts) =
    (str_eq opts.email_path "" ≡ false) × (str_eq opts.roles_path "" ≡ false)
IsConfigured _ = Unit

extract_required-some :
    (claims : Fields) (sub iss : String)
    → get_string claims "sub" ≡ sub
    → get_string claims "iss" ≡ iss
    → str_eq sub "" ≡ false
    → str_eq iss "" ≡ false
    → extract_required claims ≡ ok (sub, iss)
unfolding extract_required
extract_required-some claims sub iss s i some_sub some_iss = rw (s, i, some_sub, some_iss) refl

mapped-some :
    (claims : Fields) (email : String) (roles : List String) (ids : String × String)
    → extract_required claims ≡ ok ids
    → (p : Principal) × (mapped claims email roles ≡ ok p)
mapped-some claims email roles ids e = (principal_of claims email roles "" ids, rw e refl)

generic-some :
    (lower : String → String) (opts : MapperOptions) (claims : Fields) (ids : String × String)
    → str_eq opts.email_path "" ≡ false
    → str_eq opts.roles_path "" ≡ false
    → extract_required claims ≡ ok ids
    → (p : Principal) × (map_generic lower opts claims ≡ ok p)
generic-some lower opts claims ids email roles e = (
  principal_of claims (get_string_by_path claims opts.email_path)
      (lowercase_all lower (get_string_slice_by_path claims opts.roles_path))
      (get_string claims "sudo_user_uuid") ids,
  rw (e, email, roles) refl,
)

map_claims-ok :
    (lower : String → String) (m : ClaimMapper) (claims : Fields) (ids : String × String)
    → IsConfigured m
    → extract_required claims ≡ ok ids
    → (p : Principal) × (map_claims lower m claims ≡ ok p)
unfolding map_claims
map_claims-ok lower (google opts) claims ids c e = mapped-some claims _ _ ids e
map_claims-ok lower (microsoft opts) claims ids c e = mapped-some claims _ _ ids e
map_claims-ok lower (authelia opts) claims ids c e = mapped-some claims _ _ ids e
map_claims-ok lower (keycloak opts) claims ids c e = mapped-some claims _ _ ids e
map_claims-ok lower (cognito opts) claims ids c e = mapped-some claims _ _ ids e
map_claims-ok lower (auth0 opts) claims ids c e = mapped-some claims _ _ ids e
map_claims-ok lower (firebase opts) claims ids c e = mapped-some claims _ _ ids e
map_claims-ok lower (generic opts) claims ids (email, roles) e =
    generic-some lower opts claims ids email roles e

resolve-local :
    (env : Env) (p : Principal) (ua : UserAccount) (db : Db)
    → str_eq env.local_issuer "" ≡ false
    → p.issuer ≡ env.local_issuer
    → p.subject ≡ ua.uuid
    → env.has_uuid_lookup ≡ true
    → env.parse_uuid ua.uuid ≡ some ua.uuid
    → env.fails get_by_uuid ≡ false
    → get_user_account_by_uuid ua.uuid db.accounts ≡ some ua
    → resolve env p db ≡ (ok (build_user_context env ua p db.accounts), db)
unfolding resolve
resolve-local env p ua db some_issuer issuer subject has parsed up found =
    rw
      (
        issuer,
        subject,
        some_issuer,
        (eq_iff env.local_issuer env.local_issuer).1 refl,
        has,
        parsed,
        up,
        found,
      )
      refl

module _ (crypto : Crypto) (library : JwtLibrary crypto) where
  -- Signing in from end to end, on one configuration: if the signer and the verifier can be built and
  -- under EdDSA the private key signs what the public key verifies, the token that is issued for an account, sent
  -- as a bearer token until a second before a day has passed, authenticates the request as that
  -- account, whichever configured mapper is in use, and changes nothing. The account is in the store
  -- and its lookup does not fail.
  pub issued_token_signs_in :
      (discover : String → String → Bool → Option OidcVerifier) (lc : LocalAuthConfig)
      (v : Verifier) (s : Signer) (issued now : ℕ) (m : ClaimMapper) (lower : String → String)
      (env : Env) (ua : UserAccount) (db : Db)
      → (is_hs256 lc.jwt_alg ≡ false
          → (text : Bytes)
          → crypto.ed_verify
              (public_of lc.jwt_signing_key)
              text
              (library.ed_sign lc.jwt_signing_key text)
            ≡ true)
      → new_signer lc ≡ ok s
      → new_local_verifier discover lc ≡ ok v
      → issued + day < exact * second
      → now + second ≤ issued + day
      → IsConfigured m
      → env.local_issuer ≡ lc.local_issuer
      → str_eq lc.local_issuer "" ≡ false
      → str_eq ua.uuid "" ≡ false
      → env.has_uuid_lookup ≡ true
      → env.parse_uuid ua.uuid ≡ some ua.uuid
      → env.fails get_by_uuid ≡ false
      → get_user_account_by_uuid ua.uuid db.accounts ≡ some ua
      → let gate : Gate = record {
        clock = now;
        crypto = crypto;
        verifier = v;
        mapper = m;
        to_lower = lower;
        resolver = env;
      } in
        (token : Bytes) × (uc : UserContext) × (issue_local_jwt crypto library issued ua.uuid s
            lc.local_issuer
          ≡ ok token)
        × (authenticate_request gate (bearer ++ token) db ≡ (ok uc, db))
        × (uc.user_account_id ≡ ua.id)
        × (uc.entity_id ≡ ua.account_holder)
  unfolding authenticate_request verify build_user_context
  issued_token_signs_in discover lc v s issued now m lower env ua db pair signer verifier early
        alive configured issuer some_issuer some_uuid has parsed up found =
      let (token, f, made, read, sub, iss) =
        issued_is_accepted crypto library discover lc v s issued now ua.uuid pair signer verifier
          early alive in
      let ids = extract_required-some f ua.uuid lc.local_issuer sub iss some_uuid some_issuer in
      let (p, mapped) = map_claims-ok lower m f (ua.uuid, lc.local_issuer) configured ids in
      let who = principal_of_claims lower m f p mapped in
      let resolved =
        resolve-local env p ua db (ap (λ i. str_eq i "") issuer ∙ some_issuer)
          (who.1 ∙ iss ∙ sym issuer) (who.0 ∙ sub) has parsed up found in
      (
        token,
        build_user_context env ua p db.accounts,
        made,
        rw (read, mapped, resolved) refl,
        refl,
        refl,
      )
