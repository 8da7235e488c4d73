-- ===== src/SshKeys.antt =====
-- Registered SSH keys: api/internal/service/ssh_keys.go and ssh_key_resolver.go, authorizeUserAccount
-- of api/internal/service/user_accounts.go, and model/db/ssh_public_keys.sql.go.
pub mod Table
pub mod Service
pub mod Operations
pub mod Resolver
pub mod Outcomes
pub mod Commits
pub mod Unique
pub mod Resolve
pub mod Masking
pub mod Listing
pub mod Whole
pub mod Shape
mod Examples
