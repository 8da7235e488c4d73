-- ===== src/Tokens.antt =====
-- The parts that the signed tokens of api/internal/auth share: texts as lists of bytes,
-- strings.Split on ".", and what the tokens use of HMAC-SHA256 and of url-safe base64.
pub mod Split
pub mod Sample
use Prim.Native.Char.{code}
use mod_users.Prelude.{
  ℕ, String, ◌≡◌, ◌≢◌, Bool, true, false, ◌&&◌, Option, some, List, [], ◌∷◌, ◌==◌, ◌++◌, All,
  if◌then◌else◌,
}

abbrev pub Bytes : Type 0
Bytes = List ℕ

-- The bytes of an ASCII text.
abbrev pub codes : String → Bytes
codes String.[] = []
codes (String.◌∷◌ c s) = code c ∷ codes s

abbrev pub dot : ℕ
dot = b'.'

abbrev pub bytes_eq : Bytes → Bytes → Bool
bytes_eq [] [] = true
bytes_eq [] (_ ∷ _) = false
bytes_eq (_ ∷ _) [] = false
bytes_eq (a ∷ x) (b ∷ y) = a == b && bytes_eq x y

abbrev pub is_empty : Bytes → Bool
is_empty [] = true
is_empty (_ ∷ _) = false

abbrev pub push : ℕ → List Bytes → List Bytes
push c [] = (c ∷ []) ∷ []
push c (part ∷ parts) = (c ∷ part) ∷ parts

-- strings.Split(token, ".")
unfoldable pub split_dots : Bytes → List Bytes
split_dots [] = [] ∷ []
split_dots (c ∷ s) = let rest = split_dots s in if c == dot then [] ∷ rest else push c rest

infixr 66 ◌⊙◌
-- Two parts joined by a dot.
abbrev pub ◌⊙◌ : Bytes → Bytes → Bytes
a ⊙ b = a ++ dot ∷ b

-- What the signed tokens rely on of the standard library: the MAC of a text under a key, and
-- base64.RawURLEncoding, which decodes what it encoded and whose alphabet has no dot.
pub record Codec : Type 0 where
  pub mac : Bytes → Bytes → Bytes
  pub encode : Bytes → Bytes
  pub decode : Bytes → Option Bytes
  pub decode-encode : (b : Bytes) → decode (encode b) ≡ some b
  pub encode_no_dot : (b : Bytes) → All (λ c. c ≢ dot) (encode b)
