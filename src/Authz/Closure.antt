-- ===== src/Authz/Closure.antt =====
-- The recursive queries end, and find what is reachable through group memberships.
use std.Path.{subst}
use mod_users.Prelude.{
  ℕ, zero, suc, ◌+◌, ◌≤◌, ◌<◌, ◌≡◌, ◌↔◌, refl, sym, ap, ◌⊎◌, inl, inr, Bool, true, false, not, ◌&&◌,
  ◌||◌, some, List, [], ◌∷◌, ◌++◌, ◌==◌, any, count, length, Bool-cases, arith,
}
use mod_users.Authz.Chain.{Membership, contains, fresh, rounds, rows_of, chain}

abbrev pub has_row : ℕ → ℕ → List Membership → Bool
has_row m g rows = any (λ r. r.member_id == m && r.group_id == g) rows

-- What is reachable from the seeds, by any number of memberships.
pub data Reaches (rows : List Membership) (seeds : List ℕ) : ℕ → Type 0 where
  seed : {a : ℕ} → contains a seeds ≡ true → Reaches rows seeds a
  up : {m g : ℕ} → Reaches rows seeds m → has_row m g rows ≡ true → Reaches rows seeds g

abbrev unseen : List ℕ → List Membership → ℕ
unseen result rows = count (λ r. not (contains r.group_id result)) rows

List-cases : {A : Type 0} (xs : List A) → (xs ≡ []) ⊎ ((x : A) × (more : List A) × (xs ≡ x ∷ more))
List-cases [] = inl refl
List-cases (x ∷ more) = inr (x, more, refl)

contains-append :
    (a : ℕ) (xs ys : List ℕ) → contains a (xs ++ ys) ≡ (contains a xs || contains a ys)
contains-append a [] ys = refl
contains-append a (x ∷ xs) ys = ground (arith, contains-append a xs ys)

fresh_sound :
    (rows : List Membership) (working result : List ℕ) (g : ℕ)
    → contains g (fresh rows working result) ≡ true
    → (m : ℕ) × (contains m working ≡ true)
      × (has_row m g rows ≡ true)
      × (contains g result ≡ false)
unfolding fresh
fresh_sound [] working result g h = absurd (cc)
fresh_sound (r ∷ rows) working result g h =
    elim (Bool-cases (contains g (fresh rows working result))) [
      | inl later ↦
          let (m, known, row, new) = fresh_sound rows working result g later in
          (m, known, ground arith, new)
      | inr now ↦ (r.member_id, ground arith, ground arith, ground arith)
    ]

fresh_complete :
    (rows : List Membership) (working result : List ℕ) (m g : ℕ)
    → contains m working ≡ true
    → has_row m g rows ≡ true
    → (contains g result || contains g (fresh rows working result)) ≡ true
unfolding fresh
fresh_complete [] working result m g w h = absurd (cc)
fresh_complete (r ∷ rows) working result m g w h =
    ground (arith, fresh_complete rows working result m g)

unseen-append :
    (rows : List Membership) (xs result : List ℕ) → unseen (xs ++ result) rows ≤ unseen result rows
unseen-append [] xs result = omega arith
unseen-append (r ∷ rows) xs result =
    ground (arith, contains-append r.group_id xs result, unseen-append rows xs result)

unseen-lt :
    (rows : List Membership) (xs result : List ℕ) (m g : ℕ)
    → has_row m g rows ≡ true
    → contains g xs ≡ true
    → contains g result ≡ false
    → unseen (xs ++ result) rows < unseen result rows
unseen-lt [] xs result m g h new old = absurd (cc)
unseen-lt (r ∷ rows) xs result m g h new old = ground (
  arith,
  contains-append r.group_id xs result,
  unseen-append rows xs result,
  unseen-lt rows xs result m g,
)

rounds-end :
    (n : ℕ) (rows : List Membership) (working result : List ℕ)
    → unseen result rows < n
    → (r : List ℕ) × (rounds n rows working result ≡ some r)
unfolding rounds
rounds-end zero rows working result h = absurd (omega arith)
rounds-end (suc n) rows working result h = elim (List-cases (fresh rows working result)) [
  | inl done ↦ (result, rw (done, rounds) refl)
  | inr (x, more, new) ↦
      let (m, known, row, unknown) = fresh_sound rows working result x (ground arith) in
      let (r, e) =
        rounds-end n rows (x ∷ more) (x ∷ more ++ result)
          (omega (arith, unseen-lt rows (x ∷ more) result m x row (ground arith) unknown)) in
      (r, rw (new, rounds) e)
]

rounds-grow :
    (n : ℕ) (rows : List Membership) (working result r : List ℕ) (a : ℕ)
    → rounds n rows working result ≡ some r
    → contains a result ≡ true
    → contains a r ≡ true
unfolding rounds
rounds-grow zero rows working result r a e h = absurd (cc)
rounds-grow (suc n) rows working result r a e h = elim (List-cases (fresh rows working result)) [
  | inl done ↦ ground arith
  | inr (x, more, new) ↦
      rounds-grow n rows (x ∷ more) (x ∷ more ++ result) r a (ground arith)
        (ground (arith, contains-append a (x ∷ more) result))
]

rounds_sound :
    (n : ℕ) (rows : List Membership) (seeds working result r : List ℕ)
    → ((b : ℕ) → contains b working ≡ true → Reaches rows seeds b)
    → ((b : ℕ) → contains b result ≡ true → Reaches rows seeds b)
    → rounds n rows working result ≡ some r
    → (a : ℕ) → contains a r ≡ true
    → Reaches rows seeds a
unfolding rounds
rounds_sound zero rows seeds working result r w k e a h = absurd (cc)
rounds_sound (suc n) rows seeds working result r w k e a h =
    elim (List-cases (fresh rows working result)) [
      | inl done ↦ k a (ground arith)
      | inr (x, more, new) ↦
          let found : (b : ℕ) → contains b (x ∷ more) ≡ true → Reaches rows seeds b = λ b m.
            let (c, known, row, unknown) = fresh_sound rows working result b (rw new m) in
            up (w c known) row in
          rounds_sound n rows seeds (x ∷ more) (x ∷ more ++ result) r found
            (λ b m. elim (Bool-cases (contains b (x ∷ more))) [
              | inl now ↦ found b now
              | inr before ↦ k b (ground (arith, contains-append b (x ∷ more) result))
            ])
            (ground arith) a h
    ]

followed :
    (rows : List Membership) (working result : List ℕ) (m g x : ℕ) (more : List ℕ)
    → has_row m g rows ≡ true
    → ((contains m result ≡ false) ⊎ ((contains m working ≡ true) ⊎ (contains g result ≡ true)))
    → fresh rows working result ≡ x ∷ more
    → ((contains m (x ∷ more ++ result) ≡ false)
        ⊎ ((contains m (x ∷ more) ≡ true) ⊎ (contains g (x ∷ more ++ result) ≡ true)))
followed rows working result m g x more row inv new = ground (
  arith,
  fresh_complete rows working result m g,
  contains-append m (x ∷ more) result,
  contains-append g (x ∷ more) result,
)

-- What the result holds and the working table does not has been followed.
rounds-closed :
    (n : ℕ) (rows : List Membership) (working result r : List ℕ) (m g : ℕ)
    → has_row m g rows ≡ true
    → ((contains m result ≡ false) ⊎ ((contains m working ≡ true) ⊎ (contains g result ≡ true)))
    → rounds n rows working result ≡ some r
    → contains m r ≡ true
    → contains g r ≡ true
unfolding rounds
rounds-closed zero rows working result r m g row inv e h = absurd (cc)
rounds-closed (suc n) rows working result r m g row inv e h =
    elim (List-cases (fresh rows working result)) [
      | inl done ↦ ground (arith, fresh_complete rows working result m g)
      | inr (x, more, new) ↦
          rounds-closed n rows (x ∷ more) (x ∷ more ++ result) r m g row
            (followed rows working result m g x more row inv new) (ground arith) h
    ]

unseen-le : (result : List ℕ) (rows : List Membership) → unseen result rows ≤ length rows
unseen-le result [] = omega arith
unseen-le result (r ∷ rows) = ground (arith, unseen-le result rows)

reached :
    (n : ℕ) (rows : List Membership) (seeds r : List ℕ)
    → rounds n rows seeds seeds ≡ some r
    → {a : ℕ} → Reaches rows seeds a
    → contains a r ≡ true
reached n rows seeds r e {a} (seed h) = rounds-grow n rows seeds seeds r a e h
reached n rows seeds r e (up {m} {g} before row) =
    rounds-closed n rows seeds seeds r m g row
      (elim (Bool-cases (contains m seeds)) [ inl yes_ ↦ inr (inl yes_) | inr no_ ↦ inl no_ ]) e
      (reached n rows seeds r e before)

-- A recursive query over any table of memberships, cyclic ones included, ends within a round for
-- each row and one more, and what it finds is exactly what is reachable from its seeds by any number
-- of memberships.
pub chain_ends :
    (rows : List Membership) (seeds : List ℕ) (a : ℕ)
    → (r : List ℕ) × (rounds (length rows + 1) rows seeds seeds ≡ some r)
      × ((contains a r ≡ true) ↔ Reaches rows seeds a)
chain_ends rows seeds a =
    let (r, e) =
      rounds-end (length rows + 1) rows seeds seeds (omega (arith, unseen-le seeds rows)) in
    (
      r,
      e,
      (
        rounds_sound (length rows + 1) rows seeds seeds seeds r (λ b. seed) (λ b. seed) e a,
        reached (length rows + 1) rows seeds r e,
      ),
    )

pub chain_iff :
    (rows : List Membership) (seeds : List ℕ) (a : ℕ)
    → (contains a (chain rows seeds) ≡ true) ↔ Reaches rows seeds a
unfolding chain
chain_iff rows seeds a =
    let (r, e, both) = chain_ends rows seeds a in
    let same : rows_of (rounds (length rows + 1) rows seeds seeds) ≡ r = ap rows_of e in
    (
      λ h. both.0 (subst (λ xs. contains a xs ≡ true) same h),
      λ h. subst (λ xs. contains a xs ≡ true) (sym same) (both.1 h),
    )
