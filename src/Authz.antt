-- ===== src/Authz.antt =====
-- The authorizer: api/internal/authz/authz.go, and the tables that its queries read.
pub mod Chain
pub mod Check
pub mod Closure
pub mod Policy
pub mod Seeds
pub mod Decide
pub mod Allow
mod Examples
