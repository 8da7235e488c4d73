-- ===== src/Authz/Seeds.antt =====
-- Where the recursive queries over targets start.
use mod_users.Prelude.{
  ℕ, ◌≡◌, refl, inl, inr, true, some, List, [], ◌∷◌, ◌==◌, Bool-cases, Option-cases, Among,
  Among-count, count, ◌≤◌, arith,
}
use mod_users.Authz.Chain.{Membership, contains}
use mod_users.Authz.Closure.{Reaches, seed, up}
use mod_users.Authz.Check.{TypeRow, EntityRow, Db, type_seeds, instance_seeds, target_seeds}
use mod_users.Authz.Policy.{IsEntityOfType, Covers}

pub from_one :
    {rows : List Membership} {seeds : List ℕ} {a : ℕ}
    → Reaches rows seeds a
    → (s : ℕ) × (contains s seeds ≡ true) × Reaches rows (s ∷ []) a
from_one (seed {a} h) = (a, h, seed (ground arith))
from_one (up before row) = let (s, h, r) = from_one before in (s, h, up r row)

pub to_all :
    {rows : List Membership} {seeds : List ℕ} {s a : ℕ}
    → contains s seeds ≡ true
    → Reaches rows (s ∷ []) a
    → Reaches rows seeds a
to_all {seeds} {s} h (seed {a} e) = seed (ground arith)
to_all h (up before row) = up (to_all h before) row

pub type_seeds_sound :
    (db : Db) (id s : ℕ) (types : List TypeRow)
    → contains s (type_seeds id types) ≡ true
    → (t : TypeRow) × Among t types × (t.id ≡ id) × (t.entity_id ≡ some s)
unfolding type_seeds
type_seeds_sound db id s [] h = absurd (cc)
type_seeds_sound db id s (t ∷ types) h = elim (Bool-cases (contains s (type_seeds id types))) [
  | inl later ↦ let (u, m, i, e) = type_seeds_sound db id s types later in (u, inr m, i, e)
  | inr now ↦ elim (Option-cases t.entity_id) [
    | inl none_ ↦ absurd (ground arith)
    | inr (e, found) ↦ (t, inl refl, ground arith, ground arith)
  ]
]

pub type_seeds_complete :
    (id s : ℕ) (t : TypeRow) (types : List TypeRow)
    → Among t types
    → t.id ≡ id
    → t.entity_id ≡ some s
    → contains s (type_seeds id types) ≡ true
unfolding type_seeds
type_seeds_complete id s t [] m i e = absurd m
type_seeds_complete id s t (u ∷ types) (inl same) i e = ground arith
type_seeds_complete id s t (u ∷ types) (inr m) i e = elim (Option-cases u.entity_id) [
  | inl none_ ↦ ground (arith, type_seeds_complete id s t types m i e)
  | inr (v, found) ↦ ground (arith, type_seeds_complete id s t types m i e)
]

instance_seeds_sound :
    (db : Db) (target s : ℕ) (entities : List EntityRow)
    → contains s (instance_seeds target entities db.types) ≡ true
    → (e : EntityRow) × Among e entities
      × (e.id ≡ target)
      × IsEntityOfType db e.fundamental_type_id s
unfolding instance_seeds
instance_seeds_sound db target s [] h = absurd (cc)
instance_seeds_sound db target s (e ∷ entities) h = elim (Bool-cases (e.id == target)) [
  | inl here ↦ (
    e,
    inl refl,
    ground arith,
    type_seeds_sound db e.fundamental_type_id s db.types (ground arith),
  )
  | inr elsewhere ↦
      let (f, m, i, t) = instance_seeds_sound db target s entities (ground arith) in
      (f, inr m, i, t)
]

instance_seeds_complete :
    (db : Db) (target s : ℕ) (e : EntityRow) (entities : List EntityRow)
    → count (λ f. f.id == target) entities ≤ 1
    → Among e entities
    → e.id ≡ target
    → IsEntityOfType db e.fundamental_type_id s
    → contains s (instance_seeds target entities db.types) ≡ true
unfolding instance_seeds
instance_seeds_complete db target s e [] u m i t = absurd m
instance_seeds_complete db target s e (f ∷ entities) u (inl same) i (t, among, id, entity) =
    ground (arith, type_seeds_complete e.fundamental_type_id s t db.types among id entity)
instance_seeds_complete db target s e (f ∷ entities) u (inr m) i t = ground (
  arith,
  instance_seeds_complete db target s e entities,
  Among-count (λ g. g.id == target) e entities m,
)

pub Covers-of_seed :
    (db : Db) (target s : ℕ) → contains s (target_seeds target db) ≡ true → Covers db target s
unfolding target_seeds
Covers-of_seed db target s h = elim (Bool-cases (target == s)) [
  | inl same ↦ inl (ground arith)
  | inr other ↦ inr (ground arith, instance_seeds_sound db target s db.entities (ground arith))
]

pub seed_of_Covers :
    (db : Db) (target s : ℕ)
    → count (λ e. e.id == target) db.entities ≤ 1
    → Covers db target s
    → contains s (target_seeds target db) ≡ true
unfolding target_seeds
seed_of_Covers db target s u (inl same) = ground arith
seed_of_Covers db target s u (inr (plain, (e, m, i, t))) =
    ground (arith, instance_seeds_complete db target s e db.entities u m i t)
