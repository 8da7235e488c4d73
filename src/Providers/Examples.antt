-- ===== src/Providers/Examples.antt =====
-- One provider in the environment and one row over it, and the theorems at them.
use mod_users.Prelude.{◌≡◌, ◌↔◌, refl, true, none, some, List, [], ◌∷◌, Among, if◌then◌else◌}
use mod_users.Api.{ok}
use mod_users.Tokens.{bytes_eq, codes}
use mod_users.Text.{Text}
use mod_users.Providers.{Provider, ProviderDefaults, well_known, title_case}
use mod_users.Providers.Load.{load_provider, load_all, built}
use mod_users.Providers.Merge.{
  OidcProvider, DbProviderRow, MergedProvider, to_db_provider_row, merge_fields,
  load_merged_providers, merged_registry,
}
use mod_users.Providers.Cascade.{Cascades, merge_cascade, merge-load_provider}
use mod_users.Providers.Registry.{IsOffered, registry_iff}

abbrev google_id : Text
google_id = codes "google"

-- AUTH_PROVIDER_GOOGLE_CLIENT_ID=cid, AUTH_PROVIDER_GOOGLE_CLIENT_SECRET=sec
abbrev getenv : Text → Text
getenv key =
    if bytes_eq key (codes "AUTH_PROVIDER_GOOGLE_CLIENT_ID")
    then codes "cid"
    else if bytes_eq key (codes "AUTH_PROVIDER_GOOGLE_CLIENT_SECRET")
    then codes "sec"
    else []

google_loads : load_provider getenv google_id ≡ ok (some (built getenv google_id))
unfolding load_provider mod_users.Providers.Load.client_id_of mod_users.Providers.Load.env_key
    mod_users.Text.to_upper mod_users.Providers.Load.client_secret_of
    mod_users.Providers.Load.issuer_url_of mod_users.Providers.pick_str well_known
    mod_users.Providers.Load.claim_style_of
google_loads = refl

merge-load_provider_test :
    (merge_fields google_id (some (built getenv google_id)) none (well_known google_id)).effective
    ≡ built getenv google_id
merge-load_provider_test =
    merge-load_provider getenv google_id (built getenv google_id) google_loads

abbrev row : OidcProvider
row = record {
  id = google_id;
  display_name = some (codes "Corp login");
  issuer_url = none;
  client_id = some [];
  client_secret = none;
  claim_style = none;
  scopes = none;
  enabled = true;
}

abbrev env_list : List Provider
env_list = built getenv google_id ∷ []

merge_cascade_example :
    Cascades google_id
      (some (built getenv google_id))
      (some (to_db_provider_row row))
      (well_known google_id)
      (merge_fields google_id
        (some (built getenv google_id))
        (some (to_db_provider_row row))
        (well_known google_id))
merge_cascade_example =
    merge_cascade google_id (some (built getenv google_id)) (some (to_db_provider_row row))
      (well_known google_id)

abbrev merged : List MergedProvider
merged =
    merge_fields google_id (some (built getenv google_id)) (some (to_db_provider_row row))
      (well_known google_id)
    ∷ []

merged_loads : load_merged_providers env_list (some (row ∷ [])) ≡ some merged
unfolding load_merged_providers mod_users.Providers.Merge.merge_ids
    mod_users.Providers.Merge.union_ids mod_users.Providers.Merge.env_ids
    mod_users.Providers.Merge.env_by_id mod_users.Providers.Merge.db_by_id
merged_loads = refl

registry_iff_example :
    Among (built getenv google_id) (merged_registry merged)
    ↔ IsOffered env_list (row ∷ []) (built getenv google_id)
registry_iff_example = registry_iff env_list (row ∷ []) merged (built getenv google_id) merged_loads
