-- ===== src/Authz/Chain.antt =====
-- The recursive queries of api/internal/authz/authz.go, ActorChain and TargetChain: WITH RECURSIVE
-- over a table of group members.
use mod_users.Prelude.{
  ℕ, zero, suc, ◌+◌, Bool, not, ◌&&◌, Option, none, some, List, [], ◌∷◌, ◌++◌, ◌==◌, any, length,
  if◌then◌else◌,
}

-- A row of authz_actor_group_members or authz_target_group_members.
pub record Membership : Type 0 where
  pub member_id : ℕ
  pub group_id : ℕ

abbrev pub contains : ℕ → List ℕ → Bool
contains a xs = any (λ x. x == a) xs

-- The recursive term over the working table, less the rows that UNION drops, because the result or
-- the round has them already.
unfoldable pub fresh : List Membership → List ℕ → List ℕ → List ℕ
fresh [] working result = []
fresh (r ∷ rs) working result =
    let rest = fresh rs working result in
    if contains r.member_id working
      && not (contains r.group_id result)
      && not (contains r.group_id rest)
    then r.group_id ∷ rest
    else rest

-- Each round takes the rows that the one before it added, until one adds nothing; `none` if the
-- rounds run out before that.
unfoldable pub rounds : ℕ → List Membership → List ℕ → List ℕ → Option (List ℕ)
unfolding fresh
rounds zero rows working result = none
rounds (suc n) rows working result = elim (fresh rows working result) [
  | [] ↦ some result
  | new ∷ more ↦ rounds n rows (new ∷ more) (new ∷ more ++ result)
]

abbrev pub rows_of : Option (List ℕ) → List ℕ
rows_of none = []
rows_of (some xs) = xs

-- A round for each row of the table, and one that adds nothing, are enough.
unfoldable pub chain : List Membership → List ℕ → List ℕ
unfolding rounds
chain rows seeds = rows_of (rounds (length rows + 1) rows seeds seeds)
