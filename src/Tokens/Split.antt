-- ===== src/Tokens/Split.antt =====
-- Splitting what was joined, and comparing bytes.
use mod_users.Prelude.{
  ℕ, ◌≡◌, ◌≢◌, ◌↔◌, refl, Bool, true, false, List, [], ◌∷◌, ◌==◌, All, if◌then◌else◌, arith,
}
use mod_users.Tokens.{Bytes, dot, bytes_eq, push, split_dots, ◌⊙◌}

pub bytes_eq_iff : (x y : Bytes) → (bytes_eq x y ≡ true) ↔ (x ≡ y)
bytes_eq_iff [] [] = ground arith
bytes_eq_iff [] (b ∷ y) = ground arith
bytes_eq_iff (a ∷ x) [] = ground arith
bytes_eq_iff (a ∷ x) (b ∷ y) = ground (arith, bytes_eq_iff x y)

abbrev pub NoDot : Bytes → Type 0
NoDot b = All (λ c. c ≢ dot) b

pub split_dots-whole : (a : Bytes) → NoDot a → split_dots a ≡ a ∷ []
unfolding split_dots
split_dots-whole [] h = refl
split_dots-whole (c ∷ a) h = ground (arith, split_dots-whole a h.1)

pub split_dots-join : (a b : Bytes) → NoDot a → split_dots (a ⊙ b) ≡ a ∷ split_dots b
unfolding split_dots
split_dots-join [] b h = ground arith
split_dots-join (c ∷ a) b h = ground (arith, split_dots-join a b h.1)

-- The parts joined again are the text.
abbrev pub join_dots : List Bytes → Bytes
join_dots [] = []
join_dots (p ∷ []) = p
join_dots (p ∷ q ∷ ps) = p ⊙ join_dots (q ∷ ps)

join_dots-push :
    (c : ℕ) (p : Bytes) (ps : List Bytes) → join_dots (push c (p ∷ ps)) ≡ c ∷ join_dots (p ∷ ps)
join_dots-push c p [] = refl
join_dots-push c p (q ∷ ps) = refl

split_dots-cons : (s : Bytes) → (p : Bytes) × (ps : List Bytes) × (split_dots s ≡ p ∷ ps)
unfolding split_dots
split_dots-cons [] = ([], [], refl)
split_dots-cons (c ∷ s) = let (p, ps, e) = split_dots-cons s in rw e (cons_of (c == dot) c p ps)
  where
    cons_of :
        (b : Bool) (c : ℕ) (p : Bytes) (ps : List Bytes)
        → (q : Bytes) × (qs : List Bytes) × ((if b then [] ∷ p ∷ ps else (c ∷ p) ∷ ps) ≡ q ∷ qs)
    cons_of true c p ps = ([], p ∷ ps, refl)
    cons_of false c p ps = (c ∷ p, ps, refl)

pub join_dots-split_dots : (s : Bytes) → join_dots (split_dots s) ≡ s
unfolding split_dots
join_dots-split_dots [] = refl
join_dots-split_dots (c ∷ s) =
    let (p, ps, e) = split_dots-cons s in
    let whole : join_dots (p ∷ ps) ≡ s = rw (← e) (join_dots-split_dots s) in
    rw e (ground (arith, join_dots-push c p ps))
