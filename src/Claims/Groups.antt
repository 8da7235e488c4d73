-- ===== src/Claims/Groups.antt =====
-- The roles of api/internal/auth/claims_authelia.go.
use mod_users.Prelude.{
  ℕ, ◌≤◌, ◌≡◌, ◌⊎◌, refl, ap, String, true, false, not, ◌&&◌, inl, inr, List, [], ◌∷◌, str_eq,
  eq_iff, count, if◌then◌else◌, Bool-cases, arith,
}
use mod_users.Claims.Mappers.{member, remaining_groups, authelia_roles}

abbrev pub times : String → List String → ℕ
times r roles = count (λ s. str_eq s r) roles

member_same :
    (g r : String) (seen : List String) → str_eq g r ≡ true → member g seen ≡ member r seen
member_same g r seen same = ap (λ s. member s seen) ((eq_iff g r).0 same)

remaining_groups-member :
    (r : String) (seen groups : List String)
    → member r (remaining_groups seen groups) ≡ (member r groups && not (member r seen))
unfolding remaining_groups
remaining_groups-member r seen [] = refl
remaining_groups-member r seen (g ∷ groups) = elim (Bool-cases (member g seen)) [
  | inl old ↦
      rw (old, remaining_groups)
        (ground (arith, remaining_groups-member r seen groups, member_same g r seen))
  | inr new ↦
      rw (new, remaining_groups)
        (ground (arith, remaining_groups-member r (g ∷ seen) groups, member_same g r seen))
]

remaining_groups-times :
    (r : String) (seen groups : List String)
    → times r (remaining_groups seen groups) ≤ (if member r seen then 0 else 1)
unfolding remaining_groups
remaining_groups-times r seen [] = ground arith
remaining_groups-times r seen (g ∷ groups) = elim (Bool-cases (member g seen)) [
  | inl old ↦ rw (old, remaining_groups) (remaining_groups-times r seen groups)
  | inr new ↦
      rw (new, remaining_groups)
        (ground (arith, remaining_groups-times r (g ∷ seen) groups, member_same g r seen))
]

-- The roles that Authelia's groups give are the groups, each once, and the admin role first if it is
-- one of them.
pub authelia_roles_lem :
    (admin : String) (groups : List String) (r : String)
    → (member r (authelia_roles admin groups) ≡ member r groups)
      × (times r (authelia_roles admin groups) ≤ 1)
      × ((member admin groups ≡ false)
          ⊎ ((rest : List String) × (authelia_roles admin groups ≡ admin ∷ rest)))
unfolding authelia_roles
authelia_roles_lem admin groups r = elim (Bool-cases (member admin groups)) [
  | inl has ↦
      let found = remaining_groups-member r (admin ∷ []) groups in
      let once = remaining_groups-times r (admin ∷ []) groups in
      let same = member_same admin r groups in
      (ground arith, ground arith, inr (remaining_groups (admin ∷ []) groups, rw has refl))
  | inr none_ ↦
      let found = remaining_groups-member r [] groups in
      let once = remaining_groups-times r [] groups in (ground arith, ground arith, inl none_)
]
