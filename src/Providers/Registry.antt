-- ===== src/Providers/Registry.antt =====
-- Which providers the merged registry offers.
use mod_users.Prelude.{
  ◌≡◌, ◌↔◌, refl, Bool, true, false, ◌||◌, some, is_some, ◌⊎◌, inl, inr, List, [], ◌∷◌, arith,
  Among, Bool-cases,
}
use mod_users.Tokens.{is_empty}
use mod_users.Tokens.Split.{bytes_eq_iff}
use mod_users.Text.{Text}
use mod_users.Providers.{Provider}
use mod_users.Providers.Merge.{
  OidcProvider, MergedProvider, has_id, add_id, env_ids, union_ids, env_by_id, db_by_id, merged_of,
  merge_fields, merge_ids, load_merged_providers, row_enabled, merged_enabled, is_viable,
  merged_registry,
}

has_id-Among : (id : Text) (ids : List Text) → (has_id id ids ≡ true) ↔ Among id ids
has_id-Among id [] = ((λ h. cc), λ h. absurd h)
has_id-Among id (i ∷ ids) = ground (arith, has_id-Among id ids, bytes_eq_iff i id)

add_id-Among : (i id : Text) (ids : List Text) → Among i (add_id id ids) ↔ ((i ≡ id) ⊎ Among i ids)
add_id-Among i id ids = elim (Bool-cases (has_id id ids)) [
  | inl there ↦ rw there ((λ m. inr m), λ m. known m ((has_id-Among id ids).0 there))
  | inr new ↦ rw new ((λ m. m), λ m. m)
]
  where
    known : ((i ≡ id) ⊎ Among i ids) → Among id ids → Among i ids
    known (inl e) there = rw e there
    known (inr m) there = m

-- Some layer has a provider of this id.
abbrev pub is_known : List Provider → List OidcProvider → Text → Bool
is_known env rows id = is_some (db_by_id id rows) || is_some (env_by_id id env)

env_ids-Among :
    (id : Text) (env : List Provider) → Among id (env_ids env) ↔ (is_some (env_by_id id env) ≡ true)
unfolding env_ids env_by_id
env_ids-Among id [] = ((λ h. absurd h), λ h. cc)
env_ids-Among id (p ∷ env) =
    ground (arith, add_id-Among id p.id (env_ids env), env_ids-Among id env, bytes_eq_iff p.id id)

union_ids-Among :
    (id : Text) (env : List Provider) (rows : List OidcProvider)
    → Among id (union_ids env rows) ↔ (is_known env rows id ≡ true)
unfolding union_ids db_by_id
union_ids-Among id env [] = env_ids-Among id env
union_ids-Among id env (r ∷ rows) = ground (
  arith,
  add_id-Among id r.id (union_ids env rows),
  union_ids-Among id env rows,
  bytes_eq_iff r.id id,
)

-- A provider is offered if it is the effective provider of a known id that the database does not
-- disable, and it has what OAuth needs.
pub record IsOffered (env : List Provider) (rows : List OidcProvider) (p : Provider) : Type 0 where
  pub id : Text
  pub known : is_known env rows id ≡ true
  pub enabled : row_enabled (db_by_id id rows) ≡ true
  pub effective : p ≡ (merged_of env rows id).effective
  pub has_client_id : is_empty p.client_id ≡ false
  pub has_issuer : is_empty p.issuer_url ≡ false
  pub has_claim_style : is_empty p.claim_style ≡ false

viable_of_offered :
    (p : Provider) (id : Text) (env : List Provider) (rows : List OidcProvider)
    → p ≡ (merged_of env rows id).effective
    → is_empty p.client_id ≡ false
    → is_empty p.issuer_url ≡ false
    → is_empty p.claim_style ≡ false
    → is_viable (merged_of env rows id).effective ≡ true
viable_of_offered p id env rows same c i s = rw (← same) (ground arith)

module _ (env : List Provider) (rows : List OidcProvider) where
  IsOffered-of_merged :
      (p : Provider) (ids : List Text)
      → ((id : Text) → Among id ids → is_known env rows id ≡ true)
      → Among p (merged_registry (merge_ids env rows ids))
      → IsOffered env rows p
  unfolding merged_registry merge_ids
  IsOffered-of_merged p [] k m = absurd m
  IsOffered-of_merged p (id ∷ ids) k m =
      elim (Bool-cases (merged_enabled (merged_of env rows id))) [
        | inr off ↦ IsOffered-of_merged p ids (λ i a. k i (inr a)) (ground arith)
        | inl on ↦ elim (Bool-cases (is_viable (merged_of env rows id).effective)) [
          | inr bad ↦ IsOffered-of_merged p ids (λ i a. k i (inr a)) (ground arith)
          | inl good ↦ split on good (IsOffered-of_merged p ids (λ i a. k i (inr a))) (ground arith)
        ]
      ]
    where
      split :
          merged_enabled (merged_of env rows id) ≡ true
          → is_viable (merged_of env rows id).effective ≡ true
          → (Among p (merged_registry (merge_ids env rows ids)) → IsOffered env rows p)
          → ((p ≡ (merged_of env rows id).effective)
              ⊎ Among p (merged_registry (merge_ids env rows ids)))
          → IsOffered env rows p
      split on good later (inl e) = record {
        id = id;
        known = k id (inl refl);
        enabled = unfold merge_fields merged_enabled in on;
        effective = e;
        has_client_id = rw e (ground arith);
        has_issuer = rw e (ground arith);
        has_claim_style = rw e (ground arith);
      }
      split on good later (inr a) = later a

  here :
      (id : Text) (ids : List Text)
      → row_enabled (db_by_id id rows) ≡ true
      → is_viable (merged_of env rows id).effective ≡ true
      → Among (merged_of env rows id).effective (merged_registry (merge_ids env rows (id ∷ ids)))
  unfolding merged_registry merge_ids merge_fields merged_enabled
  here id ids on good = rw (on, good) (inl refl)

  merged_of_offered :
      (o : Text) (ids : List Text)
      → Among o ids
      → row_enabled (db_by_id o rows) ≡ true
      → is_viable (merged_of env rows o).effective ≡ true
      → Among (merged_of env rows o).effective (merged_registry (merge_ids env rows ids))
  unfolding merged_registry merge_ids merge_fields merged_enabled
  merged_of_offered o [] m on good = absurd m
  merged_of_offered o (id ∷ ids) (inl e) on good = rw e (here id ids (rw e at on) (rw e at good))
  merged_of_offered o (id ∷ ids) (inr m) on good = ground (arith, merged_of_offered o ids m on good)

  -- The merged registry offers exactly the effective providers of the ids that the environment or
  -- the database knows, whose row, if there is one, is enabled, and whose effective client id,
  -- issuer and claim style are not empty.
  pub registry_iff :
      (ms : List MergedProvider) (p : Provider)
      → load_merged_providers env (some rows) ≡ some ms
      → Among p (merged_registry ms) ↔ IsOffered env rows p
  unfolding load_merged_providers
  registry_iff ms p e =
      let same : merge_ids env rows (union_ids env rows) ≡ ms = ground arith in
      rw (← same) (
        IsOffered-of_merged p (union_ids env rows) (λ id a. (union_ids-Among id env rows).0 a),
        λ o. rw o.effective (
            merged_of_offered o.id (union_ids env rows) ((union_ids-Among o.id env rows).1 o.known)
              o.enabled
              (viable_of_offered p o.id env rows o.effective o.has_client_id o.has_issuer
                o.has_claim_style)),
      )
