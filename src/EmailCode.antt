-- ===== src/EmailCode.antt =====
-- One-time email codes: the email_codes table (model/db/email_codes.sql.go and its SQL), the
-- unauthenticated endpoints (api/internal/handlers/auth/emailcode.go) and the step-up endpoints
-- (api/internal/handlers/identities.go).
pub mod Table
pub mod Verify
pub mod Race
pub mod Send
pub mod Success
mod Examples
pub mod Cooldown
pub mod Refusal
