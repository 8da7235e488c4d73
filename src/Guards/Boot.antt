-- ===== src/Guards/Boot.antt =====
-- Whether single sign-on is configured: DetermineBootState of api/internal/config/oidc_state.go, and
-- RequireOIDCConfirmed of api/internal/auth/require_confirmed.go.
use mod_users.Prelude.{
  ℕ, ◌+◌, ◌-◌, String, Bool, true, false, not, ◌&&◌, ◌||◌, List, [], ◌∷◌, ltb, ◌==◌, length,
  if◌then◌else◌,
}
use mod_users.Api.{ApiError, action_required, ok, err}
use mod_users.Api.Checks.{Checked}

pub data BootState : Type 0 where
  confirmed_ok confirmed_opt_out init_failed no_env_no_flag : BootState

unfoldable pub confirmed : BootState → Bool
confirmed confirmed_ok = true
confirmed confirmed_opt_out = true
confirmed init_failed = false
confirmed no_env_no_flag = false

pub record ProviderInitView : Type 0 where
  pub id : String
  pub configured : Bool
  pub enabled : Bool
  pub init_ok : Bool

-- The counters of the loop over the providers.
pub record Tally : Type 0 where
  pub enabled : List String
  pub init_ok : ℕ
  pub candidates : ℕ

abbrev pub add_provider : ProviderInitView → Tally → Tally
add_provider p t =
    if not p.configured
    then t
    else if not p.enabled
    then record t { candidates = t.candidates + 1 }
    else record {
      enabled = p.id ∷ t.enabled;
      init_ok = t.init_ok + (if p.init_ok then 1 else 0);
      candidates = t.candidates + 1;
    }

-- The loop, from the last provider on: the ids are in the order of the providers.
unfoldable pub tally : List ProviderInitView → Tally
tally [] = record { enabled = []; init_ok = 0; candidates = 0 }
tally (p ∷ ps) = add_provider p (tally ps)

abbrev pub boot_state : Tally → Bool → Bool → BootState
boot_state t opt_out env_no_oidc_accounts =
    if t.candidates == 0
    then (if opt_out || env_no_oidc_accounts then confirmed_opt_out else no_env_no_flag)
    else if length t.enabled == 0
    then (if opt_out then confirmed_opt_out else init_failed)
    else if ltb 0 (length t.enabled - t.init_ok)
    then init_failed
    else confirmed_ok

unfoldable pub determine_boot_state : List ProviderInitView → Bool → Bool → BootState × List String
unfolding tally
determine_boot_state providers opt_out env_no_oidc_accounts =
    let t = tally providers in (boot_state t opt_out env_no_oidc_accounts, t.enabled)

unfoldable pub require_oidc_confirmed : BootState → Checked ApiError Unit
unfolding confirmed
require_oidc_confirmed state =
    if confirmed state then ok tt else err (action_required "users.oidc_not_confirmed")

abbrev pub is_offered : ProviderInitView → Bool
is_offered p = p.configured && p.enabled

abbrev pub is_broken : ProviderInitView → Bool
is_broken p = is_offered p && not p.init_ok
