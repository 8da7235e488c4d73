-- ===== src/Text/Trim.antt =====
-- What trimming guarantees.
use mod_users.Prelude.{
  ℕ, ◌≤◌, ◌≡◌, refl, Bool, true, false, [], ◌∷◌, if◌then◌else◌, arith, length, any,
}
use mod_users.Tokens.{is_empty}
use mod_users.Text.{Text, is_space, trim_left, trim_right, trim_space}

-- The text is empty or begins with no space; the text ends with no space.
abbrev pub starts_clean : Text → Bool
starts_clean [] = true
starts_clean (c ∷ s) = if is_space c then false else true

abbrev pub ends_clean : Text → Bool
ends_clean [] = true
ends_clean (c ∷ []) = if is_space c then false else true
ends_clean (c ∷ d ∷ s) = ends_clean (d ∷ s)

starts_clean-trim_left : (s : Text) → starts_clean (trim_left s) ≡ true
unfolding trim_left
starts_clean-trim_left [] = refl
starts_clean-trim_left (c ∷ s) = ground (arith, starts_clean-trim_left s)

starts_clean-trim_right : (s : Text) → starts_clean s ≡ true → starts_clean (trim_right s) ≡ true
unfolding trim_right
starts_clean-trim_right [] h = refl
starts_clean-trim_right (c ∷ s) h = ground arith

ends_clean-cons :
    (c : ℕ) (s : Text) → ends_clean s ≡ true → is_empty s ≡ false → ends_clean (c ∷ s) ≡ true
ends_clean-cons c [] h e = cc
ends_clean-cons c (d ∷ s) h e = h

is_empty→[] : (s : Text) → is_empty s ≡ true → s ≡ []
is_empty→[] [] h = refl
is_empty→[] (c ∷ s) h = cc

ends_clean-trim_right : (s : Text) → ends_clean (trim_right s) ≡ true
unfolding trim_right
ends_clean-trim_right [] = refl
ends_clean-trim_right (c ∷ s) =
    ground
      (arith, ends_clean-trim_right s, ends_clean-cons c (trim_right s), is_empty→[] (trim_right s))

-- A trimmed text begins and ends with no space.
pub trim_space-IsClean :
    (s : Text) → (starts_clean (trim_space s) ≡ true) × (ends_clean (trim_space s) ≡ true)
unfolding trim_space
trim_space-IsClean s = (
  starts_clean-trim_right (trim_left s) (starts_clean-trim_left s),
  ends_clean-trim_right (trim_left s),
)

trim_left_of_clean : (s : Text) → starts_clean s ≡ true → trim_left s ≡ s
unfolding trim_left
trim_left_of_clean [] h = refl
trim_left_of_clean (c ∷ s) h = ground arith

trim_right_of_clean : (s : Text) → ends_clean s ≡ true → trim_right s ≡ s
unfolding trim_right
trim_right_of_clean [] h = refl
trim_right_of_clean (c ∷ []) h = ground arith
trim_right_of_clean (c ∷ d ∷ s) h = rw (trim_right_of_clean (d ∷ s) h) (ground arith)

pub trim_space_of_clean :
    (s : Text) → starts_clean s ≡ true → ends_clean s ≡ true → trim_space s ≡ s
unfolding trim_space
trim_space_of_clean s h k = rw (trim_left_of_clean s h) (trim_right_of_clean s k)

length-trim_left-le : (s : Text) → length (trim_left s) ≤ length s
unfolding trim_left
length-trim_left-le [] = omega arith
length-trim_left-le (c ∷ s) = ground (arith, length-trim_left-le s)

-- Whatever test fails on a whole text fails on the trimmed one.
pub any-trim_space : (p : ℕ → Bool) (s : Text) → any p s ≡ false → any p (trim_space s) ≡ false
unfolding trim_space
any-trim_space p s h = any-trim_right (trim_left s) (any-trim_left s h)
  where
    any-trim_left : (s : Text) → any p s ≡ false → any p (trim_left s) ≡ false
    any-trim_left [] h = refl
    any-trim_left (c ∷ s) h = ground (arith, any-trim_left s)

    any-trim_right : (s : Text) → any p s ≡ false → any p (trim_right s) ≡ false
    any-trim_right [] h = refl
    any-trim_right (c ∷ s) h = ground (arith, any-trim_right s)
