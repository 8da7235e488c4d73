-- ===== src/Authz/Decide.antt =====
-- The queries of api/internal/authz/authz.go find the grants and owners of the policy.
use mod_users.Prelude.{
  ℕ, ◌≤◌, ◌≡◌, ◌↔◌, ◌⊎◌, inl, inr, true, some, List, [], ◌∷◌, ◌==◌, any, count, Bool-cases,
  Option-cases, any-Among, Among-any, arith,
}
use mod_users.Authz.Chain.{contains, chain}
use mod_users.Authz.Closure.{chain_iff}
use mod_users.Authz.Check.{
  Db, is_wildcard, is_granted, is_owned, type_seeds, target_seeds, check_wildcard_grant,
  check_grant_or_own, check_type_grant,
}
use mod_users.Authz.Policy.{
  HoldsWildcard, HoldsGrantOn, IsEntityOfType, Covers, Owns, MayActOn, MayActOnType,
}
use mod_users.Authz.Seeds.{
  from_one, to_all, type_seeds_sound, type_seeds_complete, Covers-of_seed, seed_of_Covers,
}

wildcard_sound :
    (db : Db) (actor : ℕ) (ops : List ℕ)
    → check_wildcard_grant actor ops db ≡ true
    → HoldsWildcard db actor ops
unfolding check_wildcard_grant
wildcard_sound db actor ops h =
    let (g, m, hit) =
      any-Among (is_wildcard (chain db.actor_members (actor ∷ [])) ops) db.grants h in
    (
      g,
      (m, (chain_iff db.actor_members (actor ∷ []) g.actor_id).0 (ground arith), ground arith),
      elim (Option-cases g.target_id) [ inl no_ ↦ no_ | inr (t, found) ↦ absurd (ground arith) ],
    )

wildcard_complete :
    (db : Db) (actor : ℕ) (ops : List ℕ)
    → HoldsWildcard db actor ops
    → check_wildcard_grant actor ops db ≡ true
unfolding check_wildcard_grant
wildcard_complete db actor ops (g, (m, reach, op), wild) =
    Among-any (is_wildcard (chain db.actor_members (actor ∷ [])) ops) g db.grants m
      (ground (arith, (chain_iff db.actor_members (actor ∷ []) g.actor_id).1 reach))

grant_sound :
    (db : Db) (actor : ℕ) (ops seeds : List ℕ)
    → any
        (is_granted (chain db.actor_members (actor ∷ [])) (chain db.target_members seeds) ops)
        db.grants
      ≡ true
    → (s : ℕ) × (contains s seeds ≡ true) × HoldsGrantOn db actor ops s
grant_sound db actor ops seeds h =
    let (g, m, hit) =
      any-Among
        (is_granted (chain db.actor_members (actor ∷ [])) (chain db.target_members seeds) ops)
        db.grants h in
    elim (Option-cases g.target_id) [
      | inl no_ ↦ absurd (ground arith)
      | inr (t, found) ↦
          let (s, start, reach) =
            from_one ((chain_iff db.target_members seeds t).0 (ground arith)) in
          (
            s,
            start,
            (
              g,
              t,
              (
                m,
                (chain_iff db.actor_members (actor ∷ []) g.actor_id).0 (ground arith),
                ground arith,
              ),
              found,
              reach,
            ),
          )
    ]

grant_complete :
    (db : Db) (actor s : ℕ) (ops seeds : List ℕ)
    → contains s seeds ≡ true
    → HoldsGrantOn db actor ops s
    → any
        (is_granted (chain db.actor_members (actor ∷ [])) (chain db.target_members seeds) ops)
        db.grants
      ≡ true
grant_complete db actor s ops seeds start (g, t, (m, holder, op), on, reach) =
    Among-any (is_granted (chain db.actor_members (actor ∷ [])) (chain db.target_members seeds) ops)
      g db.grants m
      (ground (
        arith,
        (chain_iff db.actor_members (actor ∷ []) g.actor_id).1 holder,
        (chain_iff db.target_members seeds t).1 (to_all start reach),
      ))

owner_sound :
    (db : Db) (actor target : ℕ)
    → any (is_owned actor target) db.entities ≡ true
    → Owns db actor target
owner_sound db actor target h =
    let (e, m, hit) = any-Among (is_owned actor target) db.entities h in
    elim (Option-cases e.owner_id) [
      | inl no_ ↦ absurd (ground arith)
      | inr (o, found) ↦ (e, m, ground arith, ground arith)
    ]

owner_complete :
    (db : Db) (actor target : ℕ)
    → Owns db actor target
    → any (is_owned actor target) db.entities ≡ true
owner_complete db actor target (e, m, i, o) =
    Among-any (is_owned actor target) e db.entities m (ground arith)

pub wildcard_iff :
    (db : Db) (actor : ℕ) (ops : List ℕ)
    → (check_wildcard_grant actor ops db ≡ true) ↔ HoldsWildcard db actor ops
wildcard_iff db actor ops = (wildcard_sound db actor ops, wildcard_complete db actor ops)

-- What a granted target rests on.
pub target_sound :
    (db : Db) (actor target : ℕ) (ops : List ℕ)
    → check_grant_or_own actor target ops db ≡ true
    → MayActOn db actor ops (some target)
unfolding check_grant_or_own
target_sound db actor target ops h = elim (Bool-cases (any (is_owned actor target) db.entities)) [
  | inl owned ↦ inr (inr (owner_sound db actor target owned))
  | inr no_ ↦
      let (s, start, grant) = grant_sound db actor ops (target_seeds target db) (ground arith) in
      inr (inl (s, Covers-of_seed db target s start, grant))
]

pub target_complete :
    (db : Db) (actor target : ℕ) (ops : List ℕ)
    → count (λ e. e.id == target) db.entities ≤ 1
    → (((s : ℕ) × Covers db target s × HoldsGrantOn db actor ops s) ⊎ Owns db actor target)
    → check_grant_or_own actor target ops db ≡ true
unfolding check_grant_or_own
target_complete db actor target ops unique (inl (s, covers, grant)) = ground (
  arith,
  grant_complete db actor s ops (target_seeds target db) (seed_of_Covers db target s unique covers)
      grant,
)
target_complete db actor target ops unique (inr owns) =
    ground (arith, owner_complete db actor target owns)

pub type_sound :
    (db : Db) (actor id : ℕ) (ops : List ℕ)
    → check_type_grant actor id ops db ≡ true
    → MayActOnType db actor ops id
unfolding check_type_grant
type_sound db actor id ops h =
    let (s, start, grant) = grant_sound db actor ops (type_seeds id db.types) h in
    inr (s, type_seeds_sound db id s db.types start, grant)

pub type_complete :
    (db : Db) (actor id : ℕ) (ops : List ℕ)
    → ((s : ℕ) × IsEntityOfType db id s × HoldsGrantOn db actor ops s)
    → check_type_grant actor id ops db ≡ true
unfolding check_type_grant
type_complete db actor id ops (s, (t, m, i, e), grant) =
    grant_complete db actor s ops (type_seeds id db.types)
      (type_seeds_complete id s t db.types m i e) grant
