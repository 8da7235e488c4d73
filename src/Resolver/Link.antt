-- ===== src/Resolver/Link.antt =====
-- Linking an identity to an account: linkIdentity and verifyAndLink of api/internal/auth/resolver.go.
use mod_users.Prelude.{ℕ, some}
use mod_users.Api.{◌>>◌, query}
use mod_users.Accounts.{UserAccount, update_user_account}
use mod_users.Claims.{Principal}
use mod_users.Resolver.{
  Entry, update_account, Env, failed, Run, in_tx, entry, safe_observe, safe_observe_after_commit,
  new_identity, insert_oidc_identity, verified_at,
}

-- What is observed of a new identity.
abbrev pub linked : Env → ℕ → Entry
linked env entity = entry "create" "auth_oidc_identity" entity env.new_identity_uuid

abbrev pub link_body : Env → UserAccount → Principal → Run Unit
link_body env ua p = do
  insert_oidc_identity env (new_identity env ua.id p (verified_at env p))
  safe_observe env (linked env ua.account_holder)

unfoldable pub link_identity : Env → UserAccount → Principal → Run Unit
unfolding insert_oidc_identity
link_identity env ua p = do
  in_tx env (link_body env ua p)
  safe_observe_after_commit env (linked env ua.account_holder)

abbrev pub verified_entry : UserAccount → Entry
verified_entry ua = entry "update" "user_account" ua.account_holder ua.uuid

abbrev pub verify_body : Env → UserAccount → Principal → Run Unit
verify_body env ua p = do
  query (env.fails update_account) failed (λ db.
      (tt, record db { accounts = update_user_account ua.id ua.email (some env.now) db.accounts }))
  insert_oidc_identity env (new_identity env ua.id p (some env.now))
  safe_observe env (verified_entry ua)
  safe_observe env (linked env ua.account_holder)

unfoldable pub verify_and_link : Env → UserAccount → Principal → Run Unit
unfolding insert_oidc_identity
verify_and_link env ua p = do
  in_tx env (verify_body env ua p)
  safe_observe_after_commit env (verified_entry ua)
  safe_observe_after_commit env (linked env ua.account_holder)
