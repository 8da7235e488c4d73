-- ===== src/Providers.antt =====
-- The OIDC provider registry: api/internal/config/providers.go (what the environment declares) and
-- api/internal/config/provider_merge.go (the database's overrides on top of it).
pub mod Load
pub mod Merge
pub mod Cascade
pub mod Registry
mod Examples
use mod_users.Prelude.{
  ℕ, Bool, true, false, ◌||◌, Option, none, some, List, [], ◌∷◌, ◌++◌, if◌then◌else◌,
}
use mod_users.Tokens.{bytes_eq, is_empty, codes}
use mod_users.Text.{Text, upper_char}

pub record Provider : Type 0 where
  pub id : Text
  pub display_name : Text
  pub issuer_url : Text
  pub client_id : Text
  pub client_secret : Text
  pub claim_style : Text
  pub scopes : List Text
  pub multi_tenant_issuer : Bool

pub record ProviderDefaults : Type 0 where
  pub issuer_url : Text
  pub claim_style : Text
  pub display_name : Text

-- The entries of wellKnownProviders.
unfoldable pub google : ProviderDefaults
google = record {
  issuer_url = codes "https://accounts.google.com";
  claim_style = codes "google";
  display_name = codes "Google";
}

unfoldable pub microsoft : ProviderDefaults
microsoft = record {
  issuer_url = codes "https://login.microsoftonline.com/common/v2.0";
  claim_style = codes "microsoft";
  display_name = codes "Microsoft";
}

-- A lookup in the map wellKnownProviders.
unfoldable pub well_known : Text → Option ProviderDefaults
unfolding google microsoft
well_known id =
    if bytes_eq id (codes "google")
    then some google
    else if bytes_eq id (codes "microsoft")
    then some microsoft
    else none

unfoldable pub default_scopes : List Text
default_scopes = codes "openid" ∷ codes "email" ∷ codes "profile" ∷ []

-- Membership in microsoftMultiTenantIssuers.
unfoldable pub is_multi_tenant_issuer : Text → Bool
is_multi_tenant_issuer url =
    bytes_eq url (codes "https://login.microsoftonline.com/common/v2.0")
    || bytes_eq url (codes "https://login.microsoftonline.com/organizations/v2.0")
    || bytes_eq url (codes "https://login.microsoftonline.com/consumers/v2.0")

-- firstNonEmpty, and pickStr.
unfoldable pub pick_str : List Text → Text
pick_str [] = []
pick_str (c ∷ cs) = if is_empty c then pick_str cs else c

unfoldable pub title_case : Text → Text
title_case [] = []
title_case (c ∷ s) = upper_char c ∷ s
