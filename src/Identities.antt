-- ===== src/Identities.antt =====
-- Ways to sign in, and their removal: Unlink, SetPassword and RemovePassword of
-- api/internal/handlers/identities.go, IdentityCounts of api/internal/service/identities.go, and the
-- queries of model/db/auth_oidc_identities.sql.go and model/db/auth_local.sql.go.
pub mod Handlers
pub mod Password
pub mod Remaining
pub mod Requests
pub mod Calls
pub mod Access
mod Examples
