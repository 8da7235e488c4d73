-- ===== src/Claims/Paths.antt =====
-- Dotted paths into the claims: getByPath of api/internal/auth/claims_helpers.go.
use Prim.Native.Char.{Char, code}
use std.Path.{subst}
use mod_users.Prelude.{
  ℕ, zero, suc, ◌<◌, ◌≡◌, refl, sym, ap, String, false, inl, inr, Option, none, some, List, [], ◌∷◌,
  str_eq, eq_iff, ◌==◌, if◌then◌else◌, Bool-cases, Option-cases, arith,
}
use mod_users.Claims.{
  Value, null, Fields, lookup, or_null, fields_at, before_dot, after_dot, get_by_path, size,
}

abbrev pub to_first : Char → List String → List String
to_first c [] = String.◌∷◌ c "" ∷ []
to_first c (part ∷ parts) = String.◌∷◌ c part ∷ parts

-- The path split at every dot.
unfoldable pub segments : String → List String
segments String.[] = "" ∷ []
segments (String.◌∷◌ c s) =
    let rest = segments s in if code c == b'.' then "" ∷ rest else to_first c rest

-- The value at the last segment, which is not empty, of the maps that the segments before it name.
unfoldable pub walk : Fields → List String → Value
walk claims [] = null
walk claims (key ∷ []) = if str_eq key "" then null else or_null (lookup key claims)
walk claims (key ∷ next ∷ keys) = elim (fields_at key claims) [
  | none ↦ null
  | some fields ↦ walk fields (next ∷ keys)
]

abbrev pub more_segments : Option String → List String
more_segments none = []
more_segments (some rest) = segments rest

segments-before_dot : (s : String) → segments s ≡ before_dot s ∷ more_segments (after_dot s)
unfolding segments before_dot after_dot
segments-before_dot String.[] = refl
segments-before_dot (String.◌∷◌ c s) = elim (Bool-cases (code c == b'.')) [
  | inl dot_ ↦ ground arith
  | inr char_ ↦ rw (segments-before_dot s, char_) refl
]

size-after_dot : (s rest : String) → after_dot s ≡ some rest → size rest < size s
unfolding after_dot size
size-after_dot String.[] rest e = absurd (cc)
size-after_dot (String.◌∷◌ c s) rest e = elim (Bool-cases (code c == b'.')) [
  | inl dot_ ↦ ground arith
  | inr char_ ↦ ground (arith, size-after_dot s rest)
]

before_dot-whole : (s : String) → after_dot s ≡ none → before_dot s ≡ s
unfolding before_dot after_dot
before_dot-whole String.[] e = refl
before_dot-whole (String.◌∷◌ c s) e = elim (Bool-cases (code c == b'.')) [
  | inl dot_ ↦ absurd (ground arith)
  | inr char_ ↦ rw char_ (ap (λ t. String.◌∷◌ c t) (before_dot-whole s (ground arith)))
]

-- Steps into a map, and into what is none.
walk-some :
    (claims fields : Fields) (key rest : String)
    → fields_at key claims ≡ some fields
    → walk claims (key ∷ segments rest) ≡ walk fields (segments rest)
unfolding walk
walk-some claims fields key rest e =
    subst (λ keys. walk claims (key ∷ keys) ≡ walk fields keys) (sym (segments-before_dot rest))
      (rw (e, walk) refl)

walk-none :
    (claims : Fields) (key rest : String)
    → fields_at key claims ≡ none
    → walk claims (key ∷ segments rest) ≡ null
unfolding walk
walk-none claims key rest e =
    subst (λ keys. walk claims (key ∷ keys) ≡ null) (sym (segments-before_dot rest))
      (rw (e, walk) refl)

more-nonempty : (path rest : String) → after_dot path ≡ some rest → str_eq path "" ≡ false
unfolding size
more-nonempty path rest e = elim (Bool-cases (str_eq path "")) [
  | inr some_text ↦ some_text
  | inl blank ↦
      let nothing : size path ≡ 0 = ap size ((eq_iff path "").0 blank) in
      absurd (omega (arith, nothing, size-after_dot path rest e))
]

with_fuel :
    (n : ℕ) (claims : Fields) (path : String)
    → size path < n
    → get_by_path n claims path ≡ some (walk claims (segments path))
unfolding get_by_path
with_fuel zero claims path h = absurd (omega arith)
with_fuel (suc n) claims path h = elim (Option-cases (after_dot path)) [
  | inl last ↦
      rw (segments-before_dot path, before_dot-whole path last, last) (unfold walk in ground arith)
  | inr (rest, more) ↦
      rw (segments-before_dot path, more, more-nonempty path rest more)
        (elim (Option-cases (fields_at (before_dot path) claims)) [
          | inl no_map ↦
              rw (walk-none claims (before_dot path) rest no_map)
                (elim (Option-cases (lookup (before_dot path) claims)) [
                  | inl missing ↦ rw missing refl
                  | inr (v, found) ↦ ground arith
                ])
          | inr (fields, map_) ↦
              rw (walk-some claims fields (before_dot path) rest map_)
                (elim (Option-cases (lookup (before_dot path) claims)) [
                  | inl missing ↦ absurd (ground arith)
                  | inr (v, found) ↦
                      ground (arith, with_fuel n fields rest, size-after_dot path rest more)
                ])
        ])
]

-- Every path is followed to its end: a call for each character and one more are enough, and the
-- value is the one at the path's last segment in the maps that its other segments name one after the
-- other, or nil where one of them is not a map, a key is missing or the last segment is empty.
pub get_by_path_ends :
    (claims : Fields) (path : String)
    → get_by_path (suc (size path)) claims path ≡ some (walk claims (segments path))
get_by_path_ends claims path = with_fuel (suc (size path)) claims path (omega arith)
