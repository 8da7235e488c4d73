-- ===== src/Providers/Merge.antt =====
-- provider_merge.go: the merge of one provider's layers, and of the whole registry.
use mod_users.Prelude.{
  Bool, true, false, not, ◌&&◌, ◌||◌, Option, none, some, List, [], ◌∷◌, any, if◌then◌else◌,
}
use mod_users.Tokens.{bytes_eq, is_empty}
use mod_users.Text.{Text}
use mod_users.Providers.{
  Provider, ProviderDefaults, well_known, default_scopes, is_multi_tenant_issuer, pick_str,
  title_case,
}

-- A row of oidc_providers (model/db/models.go); NULL is `none`.
pub record OidcProvider : Type 0 where
  pub id : Text
  pub display_name : Option Text
  pub issuer_url : Option Text
  pub client_id : Option Text
  pub client_secret : Option Text
  pub claim_style : Option Text
  pub scopes : Option (List Text)
  pub enabled : Bool

pub record DbProviderRow : Type 0 where
  pub id : Text
  pub display_name : Option Text
  pub issuer_url : Option Text
  pub client_id : Option Text
  pub client_secret : Option Text
  pub claim_style : Option Text
  pub scopes : List Text
  pub scopes_set : Bool
  pub enabled : Bool

pub record MergedProvider : Type 0 where
  pub id : Text
  pub effective : Provider
  pub db_override : Option DbProviderRow
  pub env_values : Option Provider
  pub well_known_defaults : Option ProviderDefaults
  pub has_client_secret : Bool

abbrev pub row_scopes : Option (List Text) → List Text
row_scopes none = []
row_scopes (some s) = s

abbrev pub is_set : Option (List Text) → Bool
is_set none = false
is_set (some s) = true

unfoldable pub to_db_provider_row : OidcProvider → DbProviderRow
to_db_provider_row r = record {
  id = r.id;
  display_name = r.display_name;
  issuer_url = r.issuer_url;
  client_id = r.client_id;
  client_secret = r.client_secret;
  claim_style = r.claim_style;
  scopes = row_scopes r.scopes;
  scopes_set = is_set r.scopes;
  enabled = r.enabled;
}

-- The value of a text that is not NULL and not empty.
unfoldable pub pgtype_text : Option Text → Option Text
pgtype_text none = none
pgtype_text (some t) = if is_empty t then none else some t

abbrev pub or_empty : Option Text → Text
or_empty none = []
or_empty (some t) = t

unfoldable pub nullable_str : Option DbProviderRow → (DbProviderRow → Option Text) → Text
unfolding pgtype_text
nullable_str none field = []
nullable_str (some r) field = or_empty (pgtype_text (field r))

unfoldable pub env_str : Option Provider → (Provider → Text) → Text
env_str none field = []
env_str (some p) field = field p

unfoldable pub defaults_str : Option ProviderDefaults → (ProviderDefaults → Text) → Text
defaults_str none field = []
defaults_str (some d) field = field d

abbrev pub has_scopes : List Text → Bool
has_scopes [] = false
has_scopes (s ∷ ss) = true

abbrev pub env_scopes : Option Provider → List Text → List Text
env_scopes none fallback = fallback
env_scopes (some p) fallback = if has_scopes p.scopes then p.scopes else fallback

unfoldable pub pick_scopes : Option DbProviderRow → Option Provider → List Text → List Text
pick_scopes none env fallback = env_scopes env fallback
pick_scopes (some r) env fallback =
    if r.scopes_set && has_scopes r.scopes then r.scopes else env_scopes env fallback

-- The effective provider of the layers.
unfoldable pub effective_of :
    Text → Option Provider → Option DbProviderRow → Option ProviderDefaults → Provider
unfolding nullable_str env_str defaults_str pick_scopes
effective_of id env db defaults =
    let issuer : Text = pick_str (
      nullable_str db (λ r. r.issuer_url)
      ∷ env_str env (λ p. p.issuer_url)
      ∷ defaults_str defaults (λ d. d.issuer_url)
      ∷ []) in
    record {
      id = id;
      display_name = pick_str (
          nullable_str db (λ r. r.display_name)
          ∷ env_str env (λ p. p.display_name)
          ∷ defaults_str defaults (λ d. d.display_name)
          ∷ title_case id
          ∷ []);
      issuer_url = issuer;
      client_id =
          pick_str (nullable_str db (λ r. r.client_id) ∷ env_str env (λ p. p.client_id) ∷ []);
      client_secret =
          pick_str
            (nullable_str db (λ r. r.client_secret) ∷ env_str env (λ p. p.client_secret) ∷ []);
      claim_style = pick_str (
          nullable_str db (λ r. r.claim_style)
          ∷ env_str env (λ p. p.claim_style)
          ∷ defaults_str defaults (λ d. d.claim_style)
          ∷ []);
      scopes = pick_scopes db env default_scopes;
      multi_tenant_issuer = is_multi_tenant_issuer issuer;
    }

unfoldable pub merge_fields :
    Text → Option Provider → Option DbProviderRow → Option ProviderDefaults → MergedProvider
unfolding effective_of
merge_fields id env db defaults = record {
  id = id;
  effective = effective_of id env db defaults;
  db_override = db;
  env_values = env;
  well_known_defaults = defaults;
  has_client_secret = not (is_empty (effective_of id env db defaults).client_secret);
}

-- A lookup in the map of the environment's providers, keyed by id.
unfoldable pub env_by_id : Text → List Provider → Option Provider
env_by_id id [] = none
env_by_id id (p ∷ ps) = if bytes_eq p.id id then some p else env_by_id id ps

-- A lookup in dbByID: of rows with one id the last stands.
abbrev pub last_or : Option DbProviderRow → Option DbProviderRow → Option DbProviderRow
last_or (some r) q = some r
last_or none q = q

unfoldable pub db_by_id : Text → List OidcProvider → Option DbProviderRow
unfolding to_db_provider_row
db_by_id id [] = none
db_by_id id (r ∷ rs) =
    last_or (db_by_id id rs) (if bytes_eq r.id id then some (to_db_provider_row r) else none)

-- The union of the ids that either layer knows.
abbrev pub has_id : Text → List Text → Bool
has_id id ids = any (λ i. bytes_eq i id) ids

abbrev pub add_id : Text → List Text → List Text
add_id id ids = if has_id id ids then ids else id ∷ ids

unfoldable pub env_ids : List Provider → List Text
env_ids [] = []
env_ids (p ∷ ps) = add_id p.id (env_ids ps)

unfoldable pub union_ids : List Provider → List OidcProvider → List Text
union_ids env [] = env_ids env
union_ids env (r ∷ rs) = add_id r.id (union_ids env rs)

abbrev pub merged_of : List Provider → List OidcProvider → Text → MergedProvider
merged_of env rows id = merge_fields id (env_by_id id env) (db_by_id id rows) (well_known id)

unfoldable pub merge_ids : List Provider → List OidcProvider → List Text → List MergedProvider
merge_ids env rows [] = []
merge_ids env rows (id ∷ ids) = merged_of env rows id ∷ merge_ids env rows ids

-- LoadMergedProviders; `none` is a query that failed.
unfoldable pub load_merged_providers :
    List Provider → Option (List OidcProvider) → Option (List MergedProvider)
load_merged_providers env none = none
load_merged_providers env (some rows) = some (merge_ids env rows (union_ids env rows))

abbrev pub row_enabled : Option DbProviderRow → Bool
row_enabled none = true
row_enabled (some r) = r.enabled

unfoldable pub merged_enabled : MergedProvider → Bool
merged_enabled m = row_enabled m.db_override

-- The minimum that OAuth needs.
abbrev pub is_viable : Provider → Bool
is_viable p = not (is_empty p.client_id || is_empty p.issuer_url || is_empty p.claim_style)

unfoldable pub merged_registry : List MergedProvider → List Provider
unfolding merged_enabled
merged_registry [] = []
merged_registry (m ∷ ms) =
    let rest = merged_registry ms in
    if not (merged_enabled m)
    then rest
    else if not (is_viable m.effective)
    then rest
    else m.effective ∷ rest
