-- ===== src/Authz/Policy.antt =====
-- Who may do what: the policy of the comments of api/internal/authz/authz.go, on its own.
use mod_users.Prelude.{ℕ, ◌≡◌, ◌⊎◌, true, false, Option, none, some, List, [], ◌∷◌, Among}
use mod_users.Authz.Chain.{contains}
use mod_users.Authz.Closure.{Reaches}
use mod_users.Authz.Check.{Grant, TypeRow, EntityRow, Db, is_type_entity}

module _ (db : Db) (actor : ℕ) (ops : List ℕ) where
  -- A grant of one of the operations to the actor or to a group of the actor's.
  abbrev pub ActorHolds : Grant → Type 0
  ActorHolds g =
      Among g db.grants
      × Reaches db.actor_members (actor ∷ []) g.actor_id
      × (contains g.operation_id ops ≡ true)

  abbrev pub HoldsWildcard : Type 0
  HoldsWildcard = (g : Grant) × ActorHolds g × (g.target_id ≡ none)

  -- A grant on the entity `s` or on a group of targets that it is in.
  abbrev pub HoldsGrantOn : ℕ → Type 0
  HoldsGrantOn s =
      (g : Grant) × (t : ℕ) × ActorHolds g
      × (g.target_id ≡ some t)
      × Reaches db.target_members (s ∷ []) t

module _ (db : Db) where
  -- `s` is the entity of a type with this id.
  abbrev pub IsEntityOfType : ℕ → ℕ → Type 0
  IsEntityOfType id s = (t : TypeRow) × Among t db.types × (t.id ≡ id) × (t.entity_id ≡ some s)

  -- A grant on `s` counts for the target: `s` is the target, or its exact type's entity where the
  -- target is no type's entity itself.
  abbrev pub Covers : ℕ → ℕ → Type 0
  Covers target s =
      (s ≡ target)
      ⊎ ((is_type_entity target db.types ≡ false)
          × ((e : EntityRow) × Among e db.entities
              × (e.id ≡ target)
              × IsEntityOfType e.fundamental_type_id s))

  abbrev pub Owns : ℕ → ℕ → Type 0
  Owns actor target =
      (e : EntityRow) × Among e db.entities × (e.id ≡ target) × (e.owner_id ≡ some actor)

  abbrev pub MayActOn : ℕ → List ℕ → Option ℕ → Type 0
  MayActOn actor ops none = HoldsWildcard db actor ops
  MayActOn actor ops (some target) =
      HoldsWildcard db actor ops
      ⊎ (((s : ℕ) × Covers target s × HoldsGrantOn db actor ops s) ⊎ Owns actor target)

  abbrev pub MayActOnType : ℕ → List ℕ → ℕ → Type 0
  MayActOnType actor ops type_id =
      HoldsWildcard db actor ops
      ⊎ ((s : ℕ) × IsEntityOfType type_id s × HoldsGrantOn db actor ops s)
