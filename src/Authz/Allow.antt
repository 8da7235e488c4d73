-- ===== src/Authz/Allow.antt =====
-- Authorize and AuthorizeType of api/internal/authz/authz.go decide as the policy does.
use mod_users.Prelude.{
  ℕ, suc, ◌≤◌, ◌≡◌, ◌↔◌, ◌⊎◌, inl, inr, String, true, false, Option, none, some, List, ◌==◌, count,
  Bool-cases, Option-cases, arith,
}
use mod_users.Authz.Check.{
  Db, wildcard_grant, grant_or_own, type_grant, Env, allowed, unauthenticated, check_wildcard_grant,
  authorize_prelude, authorize, authorize_type, final, undecided,
}
use mod_users.Authz.Policy.{HoldsWildcard, MayActOn, MayActOnType}
use mod_users.Authz.Decide.{wildcard_iff, target_sound, target_complete, type_sound, type_complete}

-- The shared steps of an actor whose operation is registered.
prelude_registered :
    (env : Env) (operation : String) (db : Db) (actor : ℕ) (ops : List ℕ)
    → env.effective_actor ≡ some actor
    → env.satisfied_by operation ≡ some ops
    → env.fails wildcard_grant ≡ false
    → ((check_wildcard_grant actor ops db ≡ true)
        × (authorize_prelude env operation db ≡ final allowed))
      ⊎ ((check_wildcard_grant actor ops db ≡ false)
          × (authorize_prelude env operation db ≡ undecided actor ops))
unfolding authorize_prelude
prelude_registered env operation db actor ops a o w =
    elim (Bool-cases (check_wildcard_grant actor ops db)) [
      | inl yes_ ↦ inl (yes_, ground arith)
      | inr no_ ↦ inr (no_, ground arith)
    ]

-- Where the context has an actor, the operation is registered and no query fails, an action on a
-- target, or on none, is allowed exactly if the actor, or a group that the actor is in through any
-- number of memberships, holds a satisfying wildcard grant, or a satisfying grant on the target or
-- on a group of it, or, where the target is not itself the entity of a type, a satisfying grant on the
-- entity of the target's exact type or on a group of that entity, or the actor owns the target. At
-- most one entity has the target's id.
pub authorize_iff :
    (env : Env) (operation : String) (target : Option ℕ) (db : Db) (actor : ℕ) (ops : List ℕ)
    → env.effective_actor ≡ some actor
    → env.satisfied_by operation ≡ some ops
    → env.fails wildcard_grant ≡ false
    → env.fails grant_or_own ≡ false
    → ((t : ℕ) → count (λ e. e.id == t) db.entities ≤ 1)
    → (authorize env operation target db ≡ allowed) ↔ MayActOn db actor ops target
unfolding authorize
authorize_iff env operation none db actor ops a o w g unique =
    elim (prelude_registered env operation db actor ops a o w) [
      | inl (held, e) ↦ (λ h. (wildcard_iff db actor ops).0 held, λ h. ground arith)
      | inr (not_held, e) ↦ (
        λ h. absurd (ground arith),
        λ h. absurd (ground (arith, (wildcard_iff db actor ops).1 h)),
      )
    ]
authorize_iff env operation (some target) db actor ops a o w g unique =
    elim (prelude_registered env operation db actor ops a o w) [
      | inl (held, e) ↦ (λ h. inl ((wildcard_iff db actor ops).0 held), λ h. ground arith)
      | inr (not_held, e) ↦ (
        λ h. target_sound db actor target ops (ground arith),
        λ h. elim h [
          | inl wild ↦ absurd (ground (arith, (wildcard_iff db actor ops).1 wild))
          | inr other ↦ ground (arith, target_complete db actor target ops (unique target) other)
        ],
      )
    ]

-- Where the context has an actor, the operation is registered and no query fails, an action on a
-- type of a positive id is allowed exactly if the actor, or a group of the actor's, holds a
-- satisfying wildcard grant or a satisfying grant on the type's entity or on a group of it; neither
-- ownership nor a grant on an instance counts.
pub authorize_type_iff :
    (env : Env) (operation : String) (n : ℕ) (db : Db) (actor : ℕ) (ops : List ℕ)
    → env.effective_actor ≡ some actor
    → env.satisfied_by operation ≡ some ops
    → env.fails wildcard_grant ≡ false
    → env.fails type_grant ≡ false
    → (authorize_type env operation (some (suc n)) db ≡ allowed) ↔ MayActOnType db actor ops (suc n)
unfolding authorize_type
authorize_type_iff env operation n db actor ops a o w g =
    elim (prelude_registered env operation db actor ops a o w) [
      | inl (held, e) ↦ (λ h. inl ((wildcard_iff db actor ops).0 held), λ h. ground arith)
      | inr (not_held, e) ↦ (
        λ h. type_sound db actor (suc n) ops (ground arith),
        λ h. elim h [
          | inl wild ↦ absurd (ground (arith, (wildcard_iff db actor ops).1 wild))
          | inr other ↦ ground (arith, type_complete db actor (suc n) ops other)
        ],
      )
    ]

registered_sound :
    (env : Env) (operation : String) (target : Option ℕ) (db : Db) (actor : ℕ) (ops : List ℕ)
    → env.effective_actor ≡ some actor
    → env.satisfied_by operation ≡ some ops
    → authorize env operation target db ≡ allowed
    → MayActOn db actor ops target
unfolding authorize authorize_prelude
registered_sound env operation none db actor ops a o h =
    (wildcard_iff db actor ops).0 (ground arith)
registered_sound env operation (some target) db actor ops a o h =
    elim (Bool-cases (check_wildcard_grant actor ops db)) [
      | inl held ↦ inl ((wildcard_iff db actor ops).0 held)
      | inr not_held ↦ target_sound db actor target ops (ground arith)
    ]

unregistered_sound :
    (env : Env) (operation : String) (target : Option ℕ) (db : Db) (actor : ℕ)
    → env.effective_actor ≡ some actor
    → env.satisfied_by operation ≡ none
    → authorize env operation target db ≡ allowed
    → (manage : List ℕ) × (env.satisfied_by "manage" ≡ some manage)
      × (check_wildcard_grant actor manage db ≡ true)
unfolding authorize authorize_prelude
unregistered_sound env operation target db actor a o h =
    elim (Option-cases (env.satisfied_by "manage")) [
      | inl no_ ↦ absurd (ground arith)
      | inr (manage, m) ↦ (manage, m, ground arith)
    ]

no_actor :
    (env : Env) (operation : String) (target : Option ℕ) (db : Db)
    → env.effective_actor ≡ none
    → authorize env operation target db ≡ unauthenticated
unfolding authorize authorize_prelude
no_actor env operation target db a = ground arith

-- Whatever queries fail, an action is allowed only to an actor of the context, who may act on the
-- target by the policy, or, for an operation that is not registered, holds a wildcard manage grant.
pub authorize_fails_closed :
    (env : Env) (operation : String) (target : Option ℕ) (db : Db)
    → authorize env operation target db ≡ allowed
    → (actor : ℕ) × (env.effective_actor ≡ some actor)
      × (((ops : List ℕ) × (env.satisfied_by operation ≡ some ops) × MayActOn db actor ops target)
          ⊎ ((env.satisfied_by operation ≡ none)
              × ((manage : List ℕ) × (env.satisfied_by "manage" ≡ some manage)
                  × HoldsWildcard db actor manage)))
authorize_fails_closed env operation target db h = elim (Option-cases env.effective_actor) [
  | inl nobody ↦ absurd (cc (h, no_actor env operation target db nobody))
  | inr (actor, a) ↦ elim (Option-cases (env.satisfied_by operation)) [
    | inr (ops, o) ↦
        (actor, a, inl (ops, o, registered_sound env operation target db actor ops a o h))
    | inl unknown ↦
        let (manage, m, held) = unregistered_sound env operation target db actor a unknown h in
        (actor, a, inr (unknown, (manage, m, (wildcard_iff db actor manage).0 held)))
  ]
]
