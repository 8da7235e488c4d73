-- ===== src/Authz/Check.antt =====
-- Authorize and AuthorizeType of api/internal/authz/authz.go with their three queries.
use mod_users.Prelude.{
  ℕ, zero, suc, String, Bool, false, ◌&&◌, ◌||◌, Option, none, some, List, [], ◌∷◌, ◌==◌, any,
  is_none, if◌then◌else◌,
}
use mod_users.Authz.Chain.{Membership, contains, chain}

-- A row of grants; `none` is the wildcard, a NULL target.
pub record Grant : Type 0 where
  pub actor_id : ℕ
  pub target_id : Option ℕ
  pub operation_id : ℕ

-- A row of types, and one of entities.
pub record TypeRow : Type 0 where
  pub id : ℕ
  pub entity_id : Option ℕ

pub record EntityRow : Type 0 where
  pub id : ℕ
  pub fundamental_type_id : ℕ
  pub owner_id : Option ℕ

pub record Db : Type 0 where
  pub actor_members : List Membership
  pub target_members : List Membership
  pub grants : List Grant
  pub types : List TypeRow
  pub entities : List EntityRow

pub data Query : Type 0 where
  wildcard_grant grant_or_own type_grant : Query

-- The effective actor of the context (core's opctx), the registry's closure of the operations that
-- satisfy one (authz-api), `none` of an unknown operation, and the queries that fail.
pub record Env : Type 0 where
  pub effective_actor : Option ℕ
  pub satisfied_by : String → Option (List ℕ)
  pub fails : Query → Bool

pub data Decision : Type 0 where
  allowed unauthenticated forbidden query_failed : Decision

abbrev pub is_target : List ℕ → Option ℕ → Bool
is_target targets none = false
is_target targets (some t) = contains t targets

abbrev pub is_wildcard : List ℕ → List ℕ → Grant → Bool
is_wildcard actors ops g =
    contains g.actor_id actors && contains g.operation_id ops && is_none g.target_id

abbrev pub is_granted : List ℕ → List ℕ → List ℕ → Grant → Bool
is_granted actors targets ops g =
    contains g.actor_id actors && is_target targets g.target_id && contains g.operation_id ops

unfoldable pub check_wildcard_grant : ℕ → List ℕ → Db → Bool
check_wildcard_grant actor ops db =
    any (is_wildcard (chain db.actor_members (actor ∷ [])) ops) db.grants

abbrev pub is_entity_of : ℕ → Option ℕ → Bool
is_entity_of target none = false
is_entity_of target (some e) = e == target

abbrev pub is_type_entity : ℕ → List TypeRow → Bool
is_type_entity target types = any (λ t. is_entity_of target t.entity_id) types

abbrev pub entity_of : TypeRow → List ℕ → List ℕ
entity_of t rest = elim t.entity_id [ none ↦ rest | some e ↦ e ∷ rest ]

-- The entities of the types with an id.
unfoldable pub type_seeds : ℕ → List TypeRow → List ℕ
type_seeds id [] = []
type_seeds id (t ∷ ts) =
    let rest = type_seeds id ts in if t.id == id then entity_of t rest else rest

unfoldable pub instance_seeds : ℕ → List EntityRow → List TypeRow → List ℕ
unfolding type_seeds
instance_seeds target [] types = []
instance_seeds target (e ∷ es) types =
    let rest = instance_seeds target es types in
    if e.id == target then type_seeds e.fundamental_type_id types else rest

-- The seeds of checkGrantOrOwn's TargetChain: the target, and its exact type's entity unless the
-- target is a type's entity itself. `id` is the key of entities.
unfoldable pub target_seeds : ℕ → Db → List ℕ
unfolding instance_seeds
target_seeds target db =
    target
    ∷ (if is_type_entity target db.types then [] else instance_seeds target db.entities db.types)

abbrev pub is_owner : ℕ → Option ℕ → Bool
is_owner actor none = false
is_owner actor (some o) = o == actor

abbrev pub is_owned : ℕ → ℕ → EntityRow → Bool
is_owned actor target e = e.id == target && is_owner actor e.owner_id

unfoldable pub check_grant_or_own : ℕ → ℕ → List ℕ → Db → Bool
unfolding target_seeds
check_grant_or_own actor target ops db =
    any
      (is_granted (chain db.actor_members (actor ∷ []))
        (chain db.target_members (target_seeds target db)) ops)
      db.grants
    || any (is_owned actor target) db.entities

unfoldable pub check_type_grant : ℕ → ℕ → List ℕ → Db → Bool
unfolding type_seeds
check_type_grant actor type_id ops db =
    any
      (is_granted (chain db.actor_members (actor ∷ []))
        (chain db.target_members (type_seeds type_id db.types)) ops)
      db.grants

-- The outcome of the steps that both checks share: final, or open for this actor and operations.
pub data Outcome : Type 0 where
  final : Decision → Outcome
  undecided : ℕ → List ℕ → Outcome

abbrev pub wildcard_or : Env → ℕ → List ℕ → Outcome → Db → Outcome
wildcard_or env actor ops otherwise db =
    if env.fails wildcard_grant
    then final query_failed
    else if check_wildcard_grant actor ops db
    then final allowed
    else otherwise

-- An operation that is not registered is left to the holders of a wildcard manage grant.
abbrev pub unregistered : Env → ℕ → Option (List ℕ) → Db → Outcome
unregistered env actor none db = final forbidden
unregistered env actor (some manage) db = wildcard_or env actor manage (final forbidden) db

abbrev pub registered : Env → ℕ → Option (List ℕ) → Db → Outcome
registered env actor none db = unregistered env actor (env.satisfied_by "manage") db
registered env actor (some ops) db = wildcard_or env actor ops (undecided actor ops) db

abbrev pub for_actor : Env → String → Option ℕ → Db → Outcome
for_actor env operation none db = final unauthenticated
for_actor env operation (some actor) db = registered env actor (env.satisfied_by operation) db

unfoldable pub authorize_prelude : Env → String → Db → Outcome
authorize_prelude env operation db = for_actor env operation env.effective_actor db

abbrev pub granted_or_forbidden : Bool → Bool → Decision
granted_or_forbidden fails granted =
    if fails then query_failed else if granted then allowed else forbidden

abbrev pub decide_target : Env → Option ℕ → Outcome → Db → Decision
decide_target env target (final d) db = d
decide_target env none (undecided actor ops) db = forbidden
decide_target env (some target) (undecided actor ops) db =
    granted_or_forbidden (env.fails grant_or_own) (check_grant_or_own actor target ops db)

unfoldable pub authorize : Env → String → Option ℕ → Db → Decision
unfolding authorize_prelude
authorize env operation target db = decide_target env target (authorize_prelude env operation db) db

abbrev pub decide_type : Env → ℕ → Outcome → Db → Decision
decide_type env type_id (final d) db = d
decide_type env type_id (undecided actor ops) db =
    granted_or_forbidden (env.fails type_grant) (check_type_grant actor type_id ops db)

-- `none` of a type id that is negative.
abbrev pub positive : Option ℕ → Option ℕ
positive none = none
positive (some zero) = none
positive (some (suc n)) = some (suc n)

abbrev pub for_type : Env → String → Option ℕ → Db → Decision
for_type env operation none db = forbidden
for_type env operation (some type_id) db =
    decide_type env type_id (authorize_prelude env operation db) db

unfoldable pub authorize_type : Env → String → Option ℕ → Db → Decision
unfolding authorize_prelude
authorize_type env operation type_id db =
    if is_none env.effective_actor
    then unauthenticated
    else for_type env operation (positive type_id) db
