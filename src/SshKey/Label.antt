-- ===== src/SshKey/Label.antt =====
-- What a normalized label is.
use std.Path.{subst}
use mod_users.Prelude.{
  ℕ, ◌≤◌, ◌≡◌, ◌↔◌, refl, sym, ◌∙◌, ap, Bool, true, false, not, ◌&&◌, ◌||◌, Option, none, some,
  List, [], ◌∷◌, any, All, select, length, take, length-take-le, leb, ltb, ◌==◌, if◌then◌else◌,
  arith, Bool-cases, inl, inr,
}
use mod_users.Api.{Result, ok}
use mod_users.Text.{Text, trim_space, byte_len}
use mod_users.Text.Trim.{any-trim_space}
use mod_users.SshKey.{
  KeyError, is_disallowed_label_rune, strip_disallowed, normalize_label, max_label_runes,
}

any-strip_disallowed : (s : Text) → any is_disallowed_label_rune (strip_disallowed s) ≡ false
unfolding strip_disallowed
any-strip_disallowed [] = refl
any-strip_disallowed (r ∷ s) = ground (arith, any-strip_disallowed s)

any-take : (p : ℕ → Bool) (n : ℕ) (s : Text) → any p s ≡ false → any p (take n s) ≡ false
any-take p ℕ.zero s h = refl
any-take p (ℕ.suc n) [] h = refl
any-take p (ℕ.suc n) (c ∷ s) h = ground (arith, any-take p n s)

got : {r : Result KeyError Text} {a b : Text} → r ≡ ok a → r ≡ ok b → a ≡ b
got e f = cc

cut_bounds :
    (runes : Text)
    → any is_disallowed_label_rune runes ≡ false
    → (length (if ltb max_label_runes (length runes) then take max_label_runes runes else runes)
        ≤ 100)
      × (any is_disallowed_label_rune
            (if ltb max_label_runes (length runes) then take max_label_runes runes else runes)
          ≡ false)
cut_bounds runes clean = elim (Bool-cases (ltb max_label_runes (length runes))) [
  | inl long ↦ rw long (length-take-le 100 runes, any-take is_disallowed_label_rune 100 runes clean)
  | inr short ↦ rw short (ground arith, clean)
]

-- Whether the label is requested or taken from the key's comment, a normalized label has at most 100
-- characters, which the table's check wants, and no control or bidirectional formatting character.
pub normalize_label_bounds :
    (requested : Option Text) (comment label : Text)
    → normalize_label requested comment ≡ ok label
    → (length label ≤ 100) × (any is_disallowed_label_rune label ≡ false)
unfolding normalize_label
normalize_label_bounds (some requested) comment label e = ground arith
normalize_label_bounds none comment label e =
    let runes : Text = trim_space (strip_disallowed comment) in
    let clean =
      any-trim_space is_disallowed_label_rune (strip_disallowed comment)
        (any-strip_disallowed comment) in
    subst (λ l. (length l ≤ 100) × (any is_disallowed_label_rune l ≡ false))
      (got {r = normalize_label none comment} refl e) (cut_bounds runes clean)

normalize_requested_iff :
    (requested comment label : Text)
    → (normalize_label (some requested) comment ≡ ok label) ↔ (
        (label ≡ trim_space requested)
        × (byte_len requested ≤ 400)
        × (length (trim_space requested) ≤ 100)
        × (any is_disallowed_label_rune (trim_space requested) ≡ false))
unfolding normalize_label
normalize_requested_iff requested comment label = ground arith

-- The Unicode characters of the property Bidi_Control.
abbrev pub bidi_controls : List ℕ
bidi_controls =
    0x061c ∷ 0x200e ∷ 0x200f ∷ 0x202a ∷ 0x202b ∷ 0x202c ∷ 0x202d ∷ 0x202e ∷ 0x2066 ∷ 0x2067 ∷ 0x2068
    ∷ 0x2069 ∷ []

-- No control character, below 32 or from 127 to 159, and none that changes the direction of the text.
abbrev pub is_plain : ℕ → Bool
is_plain r = leb 32 r && (ltb r 127 || leb 160 r) && not (any (λ (b : ℕ). r == b) bidi_controls)

abbrev pub IsPlain : ℕ → Type 0
IsPlain r = is_plain r ≡ true

IsPlain-iff : (r : ℕ) → (is_disallowed_label_rune r ≡ false) ↔ IsPlain r
unfolding is_disallowed_label_rune
IsPlain-iff r = ground arith

All-IsPlain_iff : (s : Text) → (any is_disallowed_label_rune s ≡ false) ↔ All IsPlain s
All-IsPlain_iff [] = ((λ h. tt), λ h. refl)
All-IsPlain_iff (r ∷ s) = ground (arith, IsPlain-iff r, All-IsPlain_iff s)

strip_disallowed-select : (s : Text) → strip_disallowed s ≡ select is_plain s
unfolding strip_disallowed
strip_disallowed-select [] = refl
strip_disallowed-select (r ∷ s) = elim (Bool-cases (is_disallowed_label_rune r)) [
  | inl bad ↦ ground (arith, IsPlain-iff r, strip_disallowed-select s)
  | inr good ↦ ground (arith, IsPlain-iff r, strip_disallowed-select s)
]

take-short : (n : ℕ) (s : Text) → length s ≤ n → take n s ≡ s
take-short ℕ.zero [] h = refl
take-short ℕ.zero (r ∷ s) h = absurd (omega (arith, h))
take-short (ℕ.suc n) [] h = refl
take-short (ℕ.suc n) (r ∷ s) h = ground (arith, take-short n s)

cut :
    (s : Text) → (if ltb max_label_runes (length s) then take max_label_runes s else s) ≡ take 100 s
cut s = elim (Bool-cases (ltb max_label_runes (length s))) [
  | inl long ↦ rw long refl
  | inr short ↦ rw short (sym (take-short 100 s (ground arith)))
]

-- A requested label is accepted, trimmed, exactly if the untrimmed text has at most 400 bytes and
-- the trimmed one has at most 100 characters, all of them plain: neither control
-- nor bidirectional formatting characters. Without a request a label is always
-- given: the first 100 characters of the trimmed plain characters of the comment, which are at most
-- 100, as the table's check wants, and plain.
pub normalize_label_iff :
    (requested comment label : Text)
    → ((normalize_label (some requested) comment ≡ ok label) ↔ (
        (label ≡ trim_space requested)
        × (byte_len requested ≤ 400)
        × (length (trim_space requested) ≤ 100)
        × All IsPlain (trim_space requested)))
      × (normalize_label none comment ≡ ok (take 100 (trim_space (select is_plain comment))))
      × (length (take 100 (trim_space (select is_plain comment))) ≤ 100)
      × All IsPlain (take 100 (trim_space (select is_plain comment)))
normalize_label_iff requested comment label =
    let given : Text = take 100 (trim_space (select is_plain comment)) in
    let made : normalize_label none comment ≡ ok given =
      unfold normalize_label in
      ap ok (
        cut (trim_space (strip_disallowed comment))
        ∙ ap (λ (t : Text). take 100 (trim_space t)) (strip_disallowed-select comment)) in
    let (short, clean) = normalize_label_bounds none comment given made in
    (
      ground (
        arith,
        normalize_requested_iff requested comment label,
        All-IsPlain_iff (trim_space requested),
      ),
      made,
      short,
      (All-IsPlain_iff given).0 clean,
    )
