-- ===== src/Lib.antt =====
-- The user accounts service of moduleforge/mod-users: the parts that guard credentials. A request
-- carries a bearer token, which is verified, mapped to a principal and resolved to an account, and
-- what the account may do is decided over grants. Accounts sign in and confirm changes with
-- six-digit codes sent by email; a confirmed change carries a short-lived step-up token; sign-in
-- with an OpenID provider carries its progress in a signed state; the providers offered are merged
-- from the environment and the database; accounts register SSH public keys, which a git transport
-- resolves to their holder.
--
-- Files and the code they model:
--   Prelude, Prelude/Tests, Prelude/Lists: Boolean tests, and lists measured by native numbers.
--   Api: error answers (api/internal/server/respond.go), and computations over a store that may end
--     early with an error; what was written before the end stays. Api/Checks: those without a store.
--     TxRunner states what the transaction helper of core-api promises: an error of the body undoes
--     its writes.
--   Accounts: the rows and queries of model/db/models.go and model/db/user_accounts.sql.go.
--   EmailCode/Table: the email_codes table, its queries (model/db/email_codes.sql.go) and the SQL
--     function of migration 0103. Verify and Send: EmailCodeVerify and sendEmailCode of
--     api/internal/handlers/auth/emailcode.go, StepUpVerify and sendStepUpCode of
--     api/internal/handlers/identities.go. Race: the same verifications as atomic steps,
--     interleaved. Race/Sequential ties the steps to the handler. Success, Refusal, Cooldown: what
--     the handlers do on each outcome.
--   Tokens, Tokens/Split, Tokens/Sample: byte strings joined by dots, and the codec.
--   StepUp: api/internal/auth/stepup.go and checkStepUp of api/internal/handlers/identities.go.
--   Identities/Handlers and Password: Unlink, RemovePassword and SetPassword of
--     api/internal/handlers/identities.go, with IdentityCounts of api/internal/service/identities.go
--     and the queries of model/db/auth_oidc_identities.sql.go and model/db/auth_local.sql.go; they
--     call the step-up gate of StepUp. Remaining, Requests, Calls, Access: what they keep and what
--     they need.
--   OauthState: api/internal/auth/oauth_state.go.
--   Text, Text/Trim: strings.TrimSpace, strings.Split and strings.ToUpper.
--   Providers, Providers/Load, Providers/Merge: api/internal/config/providers.go and
--     provider_merge.go. Cascade and Registry: what the merge offers.
--   SshKey: api/internal/sshkey. Policy and Label: what it accepts.
--   SshKeys/Table: the ssh_public_keys table with its constraints (model/db/ssh_public_keys.sql.go,
--     model/migrations/sql/0100_baseline.sql). Service and Operations: Register, List and Revoke of
--     api/internal/service/ssh_keys.go, and authorizeUserAccount of
--     api/internal/service/user_accounts.go. Resolver: api/internal/service/ssh_key_resolver.go.
--     Shape: ValidateSSHKeyShape. Outcomes and Commits: how a call ends. Unique, Resolve, Masking,
--     Listing, Whole: their properties.
--   Claims: the parsed claims of a token and api/internal/auth/claims_helpers.go. Claims/Mappers:
--     the mappers of claims.go and claims_*.go beside it. Paths, Identity, Groups: what they read.
--   Jwt: verifyLocal and Verify of api/internal/auth/jwt.go. Jwt/Options: its options and
--     constructors, and ValidateKID of api/internal/config/jwt_signing.go. Jwt/Signer: signer.go and
--     local_jwt.go. Jwt/DerivedKeys: derived_keys.go. Bearer, Separate, Configured, Issued: which
--     tokens are accepted. Sample and Keyed: a library that meets the laws, and a configuration.
--   Resolver, Link, Create, Resolve in its folder: api/internal/auth/resolver.go with the queries it
--     makes. Change: what a call may change, as an indexed type. Calls: sequences of calls. Linked
--     and Again: a principal that was resolved.
--   Guards: middleware.go, anonymous_actor.go, anonymous_actor_service.go and require_verified.go of
--     api/internal/auth. Guards/Boot: api/internal/config/oidc_state.go and require_confirmed.go.
--     Anonymous and SignedIn: who is let through, the second from the issue of a token on.
--   Authz/Chain: the recursive queries of api/internal/authz/authz.go, in rounds as SQL runs them.
--     Authz/Check: its two checks and their queries. Closure: what the recursive queries find.
--     Policy: who may do what, without queries. Seeds, Decide, Allow: the checks decide as the
--     policy does.
-- The Examples modules run the definitions on small stores.
--
-- How it is modelled. A handler is a function of its environment and of the tables, from the decoded
-- request on; the environment holds the clock, which is read once for a handler's run (only a new
-- email code's cooldown is tested later, after the wait for its advisory lock), the random values
-- that are drawn, the calls that fail, and the functions of packages that are not in the repository:
-- golang-jwt (JwtLibrary, whose laws are the form of a signed token and that JSON reads back what
-- was written), go-oidc, Ed25519 and HKDF, core's queries and operation registry, bcrypt's
-- comparison, the database's lower(), base64 and HMAC (Codec, whose laws are that encodings have no
-- dot and decode to what was encoded), encoding/json on the payloads, the parser of
-- golang.org/x/crypto/ssh (SshLib), core-api's authorizer and transaction helper. Texts are lists of
-- code points or bytes where their parts matter, and strings where only equality does. Times are
-- whole seconds, but nanoseconds where tokens expire; the addition of time.Unix keeps its 64-bit
-- bound. Numbers are natural numbers: ids and counters never reach the bound of their column.
-- Recursion is structural, but for two functions on fuel: a recursive query has a round for each row
-- of the membership table and one more, and a dotted path a call for each character and one more;
-- the theorems of Authz/Closure and Claims/Paths say that this is enough. A Go map is a list in the
-- order in which it is ranged over, and a nil slice the empty list.
--
-- Concurrency. The verification of a code is also modelled as two atomic steps, the claim of an
-- attempt and the comparison with its consumption, which is what the database serialises; any number
-- of requests and requests for new codes interleave in any order. A call of Register or Revoke is
-- one step, since its writes are one transaction.
--
-- Not modelled: the HTTP transport and routes, logging, the delivery of email, the reading of the
-- process's configuration; registration, login and reset; the OAuth flow around the signed state;
-- linking and listing of identities; administration of accounts, providers and the OIDC
-- configuration; the web client. They are further components of the service, or glue.
pub mod Prelude
pub mod Api
pub mod Accounts
pub mod EmailCode
pub mod Tokens
pub mod Text
pub mod StepUp
pub mod Identities
pub mod OauthState
pub mod Providers
pub mod SshKey
pub mod SshKeys
pub mod Authz
pub mod Claims
pub mod Jwt
pub mod Resolver
pub mod Guards
