-- ===== src/Providers/Cascade.antt =====
-- Which layer decides each field.
use mod_users.Prelude.{◌≡◌, refl, sym, not, Option, none, some, List, [], ◌∷◌, if◌then◌else◌, arith}
use mod_users.Api.{ok}
use mod_users.Tokens.{is_empty}
use mod_users.Text.{Text}
use mod_users.Providers.{
  Provider, ProviderDefaults, well_known, default_scopes, pick_str, title_case,
}
use mod_users.Providers.Merge.{
  DbProviderRow, MergedProvider, has_scopes, nullable_str, env_str, defaults_str, pgtype_text,
  merge_fields, or_empty,
}
use mod_users.Providers.Load.{
  load_provider, built, issuer_url_of, claim_style_of, display_name_of, scopes_of, or_none,
  or_default_scopes,
}

-- A layer's opinion on a text field: a text that is present and not empty.
abbrev pub opinion : Option Text → Option Text
opinion none = none
opinion (some t) = if is_empty t then none else some t

-- The first layer with an opinion, or the last resort.
abbrev pub first_opinion : Option Text → Option Text → Option Text → Text → Text
first_opinion (some t) e d last = t
first_opinion none (some t) d last = t
first_opinion none none (some t) last = t
first_opinion none none none last = last

abbrev pub from_row : Option DbProviderRow → (DbProviderRow → Option Text) → Option Text
from_row none f = none
from_row (some r) f = opinion (f r)

abbrev pub from_env : Option Provider → (Provider → Text) → Option Text
from_env none f = none
from_env (some p) f = opinion (some (f p))

abbrev pub from_defaults : Option ProviderDefaults → (ProviderDefaults → Text) → Option Text
from_defaults none f = none
from_defaults (some d) f = opinion (some (f d))

pick_str-two :
    (a b : Text)
    → pick_str (a ∷ b ∷ []) ≡ first_opinion (opinion (some a)) (opinion (some b)) none []
unfolding pick_str
pick_str-two [] [] = refl
pick_str-two [] (x ∷ b) = refl
pick_str-two (x ∷ a) b = refl

pick_str-three :
    (a b c : Text)
    → pick_str (a ∷ b ∷ c ∷ [])
      ≡ first_opinion (opinion (some a)) (opinion (some b)) (opinion (some c)) []
unfolding pick_str
pick_str-three [] [] [] = refl
pick_str-three [] [] (x ∷ c) = refl
pick_str-three [] (x ∷ b) c = refl
pick_str-three (x ∷ a) b c = refl

pick_str-four :
    (a b c d : Text)
    → pick_str (a ∷ b ∷ c ∷ d ∷ [])
      ≡ first_opinion (opinion (some a)) (opinion (some b)) (opinion (some c)) d
unfolding pick_str
pick_str-four [] [] [] [] = refl
pick_str-four [] [] [] (x ∷ d) = refl
pick_str-four [] [] (x ∷ c) d = refl
pick_str-four [] (x ∷ b) c d = refl
pick_str-four (x ∷ a) b c d = refl

opinion-or_empty : (o : Option Text) → opinion (some (or_empty (opinion o))) ≡ opinion o
opinion-or_empty none = refl
opinion-or_empty (some []) = refl
opinion-or_empty (some (x ∷ t)) = refl

pgtype_text-eq-opinion : (o : Option Text) → pgtype_text o ≡ opinion o
unfolding pgtype_text
pgtype_text-eq-opinion none = refl
pgtype_text-eq-opinion (some t) = refl

opinion-nullable_str :
    (db : Option DbProviderRow) (f : DbProviderRow → Option Text)
    → opinion (some (nullable_str db f)) ≡ from_row db f
unfolding nullable_str
opinion-nullable_str none f = refl
opinion-nullable_str (some r) f = opinion-or_empty (f r)

opinion-env_str :
    (env : Option Provider) (f : Provider → Text) → opinion (some (env_str env f)) ≡ from_env env f
unfolding env_str
opinion-env_str none f = refl
opinion-env_str (some p) f = refl

opinion-defaults_str :
    (d : Option ProviderDefaults) (f : ProviderDefaults → Text)
    → opinion (some (defaults_str d f)) ≡ from_defaults d f
unfolding defaults_str
opinion-defaults_str none f = refl
opinion-defaults_str (some p) f = refl

ruleset cascade_rules = (
  pick_str-two, pick_str-three, pick_str-four, opinion-nullable_str, opinion-env_str,
  opinion-defaults_str,
)

-- Every text field of the effective provider is the first opinion in the order database row,
-- environment, built-in default; the display name falls back to the id in title case; the client id
-- and secret have no built-in default; has_client_secret says whether a layer has a secret.
pub record Cascades (id : Text) (env : Option Provider) (db : Option DbProviderRow)
    (defaults : Option ProviderDefaults) (m : MergedProvider) : Type 0 where
  pub issuer_url :
      m.effective.issuer_url
      ≡ first_opinion
          (from_row db (λ r. r.issuer_url))
          (from_env env (λ p. p.issuer_url))
          (from_defaults defaults (λ d. d.issuer_url))
          []
  pub claim_style :
      m.effective.claim_style
      ≡ first_opinion
          (from_row db (λ r. r.claim_style))
          (from_env env (λ p. p.claim_style))
          (from_defaults defaults (λ d. d.claim_style))
          []
  pub display_name :
      m.effective.display_name
      ≡ first_opinion
          (from_row db (λ r. r.display_name))
          (from_env env (λ p. p.display_name))
          (from_defaults defaults (λ d. d.display_name))
          (title_case id)
  pub client_id :
      m.effective.client_id
      ≡ first_opinion (from_row db (λ r. r.client_id)) (from_env env (λ p. p.client_id)) none []
  pub client_secret :
      m.effective.client_secret
      ≡ first_opinion
          (from_row db (λ r. r.client_secret))
          (from_env env (λ p. p.client_secret))
          none
          []
  pub has_client_secret :
      m.has_client_secret
      ≡ not (
          is_empty (
            first_opinion
              (from_row db (λ r. r.client_secret))
              (from_env env (λ p. p.client_secret))
              none
              []))

-- In the merge of a provider each text field comes from the first layer that has a value for it,
-- in the order database row, environment, built-in default; the display name falls back to the id in
-- title case, the client id and secret have no built-in default, and has_client_secret says whether
-- some layer has a secret.
pub merge_cascade :
    (id : Text) (env : Option Provider) (db : Option DbProviderRow)
    (defaults : Option ProviderDefaults)
    → Cascades id env db defaults (merge_fields id env db defaults)
unfolding merge_fields
merge_cascade id env db defaults = record {
  issuer_url = simp cascade_rules;
  claim_style = simp cascade_rules;
  display_name = simp cascade_rules;
  client_id = simp cascade_rules;
  client_secret = simp cascade_rules;
  has_client_secret = simp cascade_rules;
}

pick_str_again :
    (a b c : Text)
    → pick_str ([] ∷ pick_str (a ∷ b ∷ c ∷ []) ∷ b ∷ c ∷ []) ≡ pick_str (a ∷ b ∷ c ∷ [])
unfolding pick_str
pick_str_again [] [] [] = refl
pick_str_again [] [] (x ∷ c) = refl
pick_str_again [] (x ∷ b) c = refl
pick_str_again (x ∷ a) b c = refl

pick_str_once_more :
    (a b : Text) → pick_str ([] ∷ pick_str (a ∷ b ∷ []) ∷ b ∷ []) ≡ pick_str (a ∷ b ∷ [])
unfolding pick_str
pick_str_once_more [] [] = refl
pick_str_once_more [] (x ∷ b) = refl
pick_str_once_more (x ∷ a) b = refl

pick_str_alone : (a : Text) → pick_str ([] ∷ a ∷ []) ≡ a
unfolding pick_str
pick_str_alone [] = refl
pick_str_alone (x ∷ a) = refl

scopes_again :
    (s : List Text)
    → (if has_scopes (or_default_scopes s) then or_default_scopes s else default_scopes)
      ≡ or_default_scopes s
unfolding default_scopes
scopes_again [] = refl
scopes_again (x ∷ s) = refl

defaults_str-or_none :
    (d : Option ProviderDefaults) (f : ProviderDefaults → Text)
    → f (or_none none) ≡ []
    → defaults_str d f ≡ f (or_none d)
unfolding defaults_str
defaults_str-or_none none f h = sym h
defaults_str-or_none (some p) f h = refl

merge_built :
    (getenv : Text → Text) (id : Text)
    → (merge_fields id (some (built getenv id)) none (well_known id)).effective ≡ built getenv id
unfolding merge_fields issuer_url_of claim_style_of display_name_of scopes_of
merge_built getenv id =
    let d : Option ProviderDefaults = well_known id in
    simp (
      defaults_str-or_none d (λ (x : ProviderDefaults). x.issuer_url) refl,
      defaults_str-or_none d (λ (x : ProviderDefaults). x.claim_style) refl,
      defaults_str-or_none d (λ (x : ProviderDefaults). x.display_name) refl,
      pick_str_again,
      pick_str_once_more,
      pick_str_alone,
      scopes_again,
    )

-- A provider that the environment declares is its own merge: with no database row the effective
-- provider is the one that was loaded.
pub merge-load_provider :
    (getenv : Text → Text) (id : Text) (p : Provider)
    → load_provider getenv id ≡ ok (some p)
    → (merge_fields id (some p) none (well_known id)).effective ≡ p
unfolding load_provider
merge-load_provider getenv id p e =
    let same : p ≡ built getenv id = ground arith in rw same (merge_built getenv id)
