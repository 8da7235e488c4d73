-- ===== src/Authz/Examples.antt =====
-- A small database, and the theorems at it.
use mod_users.Prelude.{
  ℕ, ◌+◌, ◌≡◌, ◌↔◌, ◌⊎◌, refl, String, true, false, Option, none, some, List, [], ◌∷◌, length,
  if◌then◌else◌, str_eq, ◌==◌, count, ◌≤◌, arith,
}
use mod_users.Authz.Chain.{Membership, contains, rounds}
use mod_users.Authz.Closure.{Reaches, chain_ends}
use mod_users.Authz.Check.{
  Grant, TypeRow, EntityRow, Db, Query, Env, allowed, authorize, authorize_type,
}
use mod_users.Authz.Policy.{HoldsWildcard, MayActOn, MayActOnType}
use mod_users.Authz.Allow.{authorize_iff, authorize_type_iff, authorize_fails_closed}

-- Two groups of actors that contain each other.
abbrev memberships : List Membership
memberships =
    record { member_id = 1; group_id = 10 }
    ∷ record { member_id = 10; group_id = 11 }
    ∷ record { member_id = 11; group_id = 10 }
    ∷ []

chain_ends_example :
    (r : List ℕ) × (rounds (length memberships + 1) memberships (1 ∷ []) (1 ∷ []) ≡ some r)
    × ((contains 11 r ≡ true) ↔ Reaches memberships (1 ∷ []) 11)
chain_ends_example = chain_ends memberships (1 ∷ []) 11

abbrev db : Db
db = record {
  actor_members = memberships;
  target_members = record { member_id = 7; group_id = 20 } ∷ [];
  grants =
      record { actor_id = 11; target_id = some 20; operation_id = 5 }
      ∷ record { actor_id = 10; target_id = some 30; operation_id = 5 }
      ∷ [];
  types = record { id = 3; entity_id = some 30 } ∷ [];
  entities = record { id = 7; fundamental_type_id = 3; owner_id = some 2 } ∷ [];
}

abbrev satisfied_by : String → Option (List ℕ)
satisfied_by operation = if str_eq operation "read" then some (4 ∷ 5 ∷ []) else none

abbrev env : Env
env = record { effective_actor = some 1; satisfied_by = satisfied_by; fails = λ q. false }

unique : (t : ℕ) → count (λ e. e.id == t) db.entities ≤ 1
unique t = ground arith

authorize_iff_example :
    (authorize env "read" (some 7) db ≡ allowed) ↔ MayActOn db 1 (4 ∷ 5 ∷ []) (some 7)
authorize_iff_example =
    authorize_iff env "read" (some 7) db 1 (4 ∷ 5 ∷ []) refl refl refl refl unique

authorize_type_iff_example :
    (authorize_type env "read" (some 3) db ≡ allowed) ↔ MayActOnType db 1 (4 ∷ 5 ∷ []) 3
authorize_type_iff_example = authorize_type_iff env "read" 2 db 1 (4 ∷ 5 ∷ []) refl refl refl refl

read_is_allowed : authorize env "read" (some 7) db ≡ allowed
unfolding authorize mod_users.Authz.Check.authorize_prelude
    mod_users.Authz.Check.check_wildcard_grant mod_users.Authz.Check.check_grant_or_own
    mod_users.Authz.Check.target_seeds mod_users.Authz.Check.instance_seeds
    mod_users.Authz.Check.type_seeds mod_users.Authz.Chain.chain mod_users.Authz.Chain.rounds
    mod_users.Authz.Chain.fresh
read_is_allowed = refl

authorize_fails_closed_example :
    (actor : ℕ) × (env.effective_actor ≡ some actor)
    × (((ops : List ℕ) × (satisfied_by "read" ≡ some ops) × MayActOn db actor ops (some 7))
        ⊎ ((satisfied_by "read" ≡ none)
            × ((manage : List ℕ) × (satisfied_by "manage" ≡ some manage)
                × HoldsWildcard db actor manage)))
authorize_fails_closed_example = authorize_fails_closed env "read" (some 7) db read_is_allowed
