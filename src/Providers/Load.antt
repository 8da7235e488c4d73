-- ===== src/Providers/Load.antt =====
-- loadProvider, parseScopes and the loop of LoadProviders in api/internal/config/providers.go.
use mod_users.Prelude.{Option, none, some, List, [], ◌∷◌, ◌++◌, if◌then◌else◌}
use mod_users.Api.{Result, ok, err}
use mod_users.Tokens.{is_empty, codes}
use mod_users.Text.{Text, trim_space, split_on, to_upper}
use mod_users.Providers.{
  Provider, ProviderDefaults, well_known, default_scopes, is_multi_tenant_issuer, pick_str,
  title_case,
}

-- Whitespace-only entries are dropped.
unfoldable pub keep_scopes : List Text → List Text
keep_scopes [] = []
keep_scopes (p ∷ ps) =
    let t = trim_space p in if is_empty t then keep_scopes ps else t ∷ keep_scopes ps

unfoldable pub parse_scopes : Text → List Text
parse_scopes raw = if is_empty raw then [] else keep_scopes (split_on b',' raw)

abbrev pub or_default_scopes : List Text → List Text
or_default_scopes [] = default_scopes
or_default_scopes (s ∷ ss) = s ∷ ss

pub data LoadError : Type 0 where
  missing_secret missing_issuer missing_claim_style : Text → LoadError

abbrev pub or_none : Option ProviderDefaults → ProviderDefaults
or_none none = record { issuer_url = []; claim_style = []; display_name = [] }
or_none (some d) = d

-- The key AUTH_PROVIDER_{ID}_{FIELD}.
unfoldable pub env_key : Text → Text → Text
env_key id field = codes "AUTH_PROVIDER_" ++ to_upper id ++ codes "_" ++ field

-- The environment gives "" for a variable that is not set.
module _ (getenv : Text → Text) where
  unfoldable pub client_id_of : Text → Text
  client_id_of id = getenv (env_key id (codes "CLIENT_ID"))

  unfoldable pub client_secret_of : Text → Text
  client_secret_of id = getenv (env_key id (codes "CLIENT_SECRET"))

  unfoldable pub issuer_url_of : Text → Text
  issuer_url_of id =
      pick_str
        (getenv (env_key id (codes "ISSUER_URL")) ∷ (or_none (well_known id)).issuer_url ∷ [])

  unfoldable pub claim_style_of : Text → Text
  claim_style_of id =
      pick_str
        (getenv (env_key id (codes "CLAIM_STYLE")) ∷ (or_none (well_known id)).claim_style ∷ [])

  unfoldable pub display_name_of : Text → Text
  display_name_of id = pick_str (
      getenv (env_key id (codes "DISPLAY_NAME"))
      ∷ (or_none (well_known id)).display_name
      ∷ title_case id
      ∷ [])

  unfoldable pub scopes_of : Text → List Text
  scopes_of id = or_default_scopes (parse_scopes (getenv (env_key id (codes "SCOPES"))))

  -- The provider that is built when nothing required is missing.
  abbrev pub built : Text → Provider
  built id = record {
    id = id;
    display_name = display_name_of id;
    issuer_url = issuer_url_of id;
    client_id = client_id_of id;
    client_secret = client_secret_of id;
    claim_style = claim_style_of id;
    scopes = scopes_of id;
    multi_tenant_issuer = is_multi_tenant_issuer (issuer_url_of id);
  }

  -- `none` is a provider that is not enabled.
  unfoldable pub load_provider : Text → Result LoadError (Option Provider)
  load_provider id =
      if is_empty (client_id_of id)
      then ok none
      else if is_empty (client_secret_of id)
      then err (missing_secret id)
      else if is_empty (issuer_url_of id)
      then err (missing_issuer id)
      else if is_empty (claim_style_of id)
      then err (missing_claim_style id)
      else ok (some (built id))

  abbrev pub add_loaded :
      Result LoadError (Option Provider)
      → List LoadError × List Provider
      → List LoadError × List Provider
  add_loaded (err e) (problems, registry) = (e ∷ problems, registry)
  add_loaded (ok none) (problems, registry) = (problems, registry)
  add_loaded (ok (some p)) (problems, registry) = (problems, p ∷ registry)

  -- The loop over the candidate ids: the problems and the enabled providers.
  unfoldable pub load_all : List Text → List LoadError × List Provider
  load_all [] = ([], [])
  load_all (id ∷ ids) = add_loaded (load_provider id) (load_all ids)

  abbrev pub without_problems :
      List LoadError × List Provider → Result (List LoadError) (List Provider)
  without_problems ([], registry) = ok registry
  without_problems (e ∷ es, registry) = err (e ∷ es)

  unfoldable pub load_providers : List Text → Result (List LoadError) (List Provider)
  load_providers candidates = without_problems (load_all candidates)
