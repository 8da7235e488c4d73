-- ===== src/Jwt/Sample.antt =====
-- A concrete JSON and signing library that meets the laws of `JwtLibrary`, for the tests.
use Prim.Native.Char.{char, IsLt, IsScalar}
use Prim.Native.Nat.{Ordering, compare, ◌/◌}
use mod_users.Prelude.{
  ℕ, zero, suc, ◌+◌, ◌*◌, ◌≡◌, ◌≤◌, ◌<◌, refl, sym, ap, ◌∙◌, String, Bool, true, false, Option,
  none, some, List, [], ◌∷◌, ◌++◌, str_eq, eq_iff, ◌==◌, length, take, drop, if◌then◌else◌,
  Bool-cases, inl, inr, arith,
}
use mod_users.Api.{ok}
use mod_users.Tokens.{Bytes, codes, bytes_eq, ◌⊙◌}
use mod_users.Tokens.Sample.{sample_codec, take-length, drop-length}
use mod_users.Claims.{Fields}
use mod_users.Jwt.{Header, Crypto, kid_of, second}
use mod_users.Jwt.Signer.{SigningKey, hs256, eddsa, LocalClaims, claims_fields, JwtLibrary}

-- The comparisons that `IsScalar` unfolds to.
abbrev Both : Ordering → Ordering → Type 0
Both Ordering.lt o = IsLt o
Both Ordering.eq _ = ⊥
Both Ordering.gt _ = ⊥

abbrev Scalar : Ordering → Ordering → Ordering → Type 0
Scalar Ordering.lt _ _ = Unit
Scalar Ordering.eq o p = Both o p
Scalar Ordering.gt o p = Both o p

abbrev decide_lt : (o : Ordering) → Option (IsLt o)
decide_lt Ordering.lt = some tt
decide_lt Ordering.eq = none
decide_lt Ordering.gt = none

abbrev decide_both : (o p : Ordering) → Option (Both o p)
decide_both Ordering.lt p = decide_lt p
decide_both Ordering.eq p = none
decide_both Ordering.gt p = none

abbrev decide_scalar : (o p q : Ordering) → Option (Scalar o p q)
decide_scalar Ordering.lt p q = some tt
decide_scalar Ordering.eq p q = decide_both p q
decide_scalar Ordering.gt p q = decide_both p q

decide_lt-some : (o : Ordering) (h : IsLt o) → decide_lt o ≡ some h
decide_lt-some Ordering.lt h = refl
decide_lt-some Ordering.eq h = absurd h
decide_lt-some Ordering.gt h = absurd h

decide_both-some : (o p : Ordering) (h : Both o p) → decide_both o p ≡ some h
decide_both-some Ordering.lt p h = decide_lt-some p h
decide_both-some Ordering.eq p h = absurd h
decide_both-some Ordering.gt p h = absurd h

decide_scalar-some : (o p q : Ordering) (h : Scalar o p q) → decide_scalar o p q ≡ some h
decide_scalar-some Ordering.lt p q h = refl
decide_scalar-some Ordering.eq p q h = decide_both-some p q h
decide_scalar-some Ordering.gt p q h = decide_both-some p q h

abbrev is_scalar : (n : ℕ) → Option (IsScalar n)
is_scalar n = decide_scalar (compare n 55296) (compare 57343 n) (compare n 1114112)

abbrev with_char : (n : ℕ) → Option (IsScalar n) → Option String → Option String
with_char n none rest = none
with_char n (some p) none = none
with_char n (some p) (some s) = some (String.◌∷◌ (char n p) s)

abbrev pub text : Bytes → Option String
text [] = some ""
text (n ∷ b) = with_char n (is_scalar n) (text b)

pub text-codes : (s : String) → text (codes s) ≡ some s
text-codes String.[] = refl
text-codes (String.◌∷◌ (char n p) s) =
    ap (λ h. with_char n h (text (codes s)))
      (decide_scalar-some (compare n 55296) (compare 57343 n) (compare n 1114112) p)
    ∙ ap (λ t. with_char n (some p) t) (text-codes s)

abbrev put_text : String → Bytes → Bytes
put_text s rest = length (codes s) ∷ codes s ++ rest

abbrev and_rest : Option String → Bytes → Option (String × Bytes)
and_rest none rest = none
and_rest (some s) rest = some (s, rest)

abbrev get_text : Bytes → Option (String × Bytes)
get_text [] = none
get_text (n ∷ b) = and_rest (text (take n b)) (drop n b)

get_text-put_text : (s : String) (rest : Bytes) → get_text (put_text s rest) ≡ some (s, rest)
get_text-put_text s rest =
    rw (take-length (codes s) rest, drop-length (codes s) rest, text-codes s) refl

abbrev put_texts : List String → Bytes → Bytes
put_texts [] rest = rest
put_texts (s ∷ ss) rest = put_text s (put_texts ss rest)

abbrev with_text : String → Option (List String × Bytes) → Option (List String × Bytes)
with_text s none = none
with_text s (some (ss, rest)) = some (s ∷ ss, rest)

abbrev next_text :
    Option (String × Bytes) → (Bytes → Option (List String × Bytes)) → Option (List String × Bytes)
next_text none f = none
next_text (some (s, rest)) f = with_text s (f rest)

abbrev get_texts : ℕ → Bytes → Option (List String × Bytes)
get_texts zero b = some ([], b)
get_texts (suc n) b = next_text (get_text b) (λ rest. get_texts n rest)

get_texts-put_texts :
    (ss : List String) (rest : Bytes) → get_texts (length ss) (put_texts ss rest) ≡ some (ss, rest)
get_texts-put_texts [] rest = refl
get_texts-put_texts (s ∷ ss) rest =
    ap (λ t. next_text t (λ r. get_texts (length ss) r)) (get_text-put_text s (put_texts ss rest))
    ∙ ap (λ t. with_text s t) (get_texts-put_texts ss rest)

abbrev bit : Bool → ℕ
bit true = 1
bit false = 0

abbrev all_texts : LocalClaims → List String
all_texts c = c.subject ∷ c.issuer ∷ c.sudo_user_uuid ∷ c.roles

abbrev marshal_claims : LocalClaims → Bytes
marshal_claims c =
    c.issued_at
    ∷ c.expires_at
    ∷ bit c.is_anonymous
    ∷ length (all_texts c)
    ∷ put_texts (all_texts c) []

abbrev claims_of : ℕ → ℕ → ℕ → Option (List String × Bytes) → Option Fields
claims_of iat exp anonymous (some (sub ∷ iss ∷ sudo ∷ roles, [])) = some (
    claims_fields (record {
      subject = sub;
      issuer = iss;
      issued_at = iat;
      expires_at = exp;
      roles = roles;
      sudo_user_uuid = sudo;
      is_anonymous = anonymous == 1;
    }))
claims_of iat exp anonymous _ = none

abbrev unmarshal_claims : Bytes → Option Fields
unmarshal_claims (iat ∷ exp ∷ anonymous ∷ n ∷ b) = claims_of iat exp anonymous (get_texts n b)
unmarshal_claims _ = none

bit_back : (b : Bool) → (bit b == 1) ≡ b
bit_back true = refl
bit_back false = refl

pub claims_back : (c : LocalClaims) → unmarshal_claims (marshal_claims c) ≡ some (claims_fields c)
claims_back c = rw (get_texts-put_texts (all_texts c) [], bit_back c.is_anonymous) refl

abbrev raw_kid : String → Bytes
raw_kid kid = if str_eq kid "" then [] else b'"' ∷ codes kid

abbrev header : String → String → Header
header alg kid = record { alg = alg; typ = "JWT"; kid = raw_kid kid }

abbrev marshal_header : String → String → Bytes
marshal_header alg kid = 0 ∷ put_texts (alg ∷ kid ∷ []) []

abbrev header_of : Option (List String × Bytes) → Option Header
header_of (some (alg ∷ kid ∷ [], [])) = some (header alg kid)
header_of _ = none

-- The text of the step-up tokens' header, and otherwise two texts.
abbrev unmarshal_header : Bytes → Option Header
unmarshal_header b =
    if bytes_eq b (codes "{\"alg\":\"HS256\",\"typ\":\"step-up\"}")
    then some (record { alg = "HS256"; typ = "step-up"; kid = [] })
    else header_of (get_texts 2 (drop 1 b))

abbrev unmarshal_kid : Bytes → Option String
unmarshal_kid [] = none
unmarshal_kid (c ∷ b) = text b

abbrev pub repeat : ℕ → ℕ → Bytes
repeat zero c = []
repeat (suc n) c = c ∷ repeat n c

abbrev pub ed_sign : Bytes → Bytes → Bytes
ed_sign key message = repeat 64 (length message)

abbrev pub ed_verify : Bytes → Bytes → Bytes → Bool
ed_verify key message sig = bytes_eq sig (repeat 64 (length message))

abbrev pub crypto : Crypto
crypto = record {
  codec = sample_codec;
  unmarshal_header = unmarshal_header;
  unmarshal_kid = unmarshal_kid;
  unmarshal_claims = unmarshal_claims;
  ed_verify = ed_verify;
}

pub header_back :
    (alg kid : String) → unmarshal_header (marshal_header alg kid) ≡ some (header alg kid)
header_back alg kid = ap header_of (get_texts-put_texts (alg ∷ kid ∷ []) [])

pub kid_back : (alg kid : String) → kid_of unmarshal_kid (header alg kid).kid ≡ ok kid
kid_back alg kid = elim (Bool-cases (str_eq kid "")) [
  | inl none_ ↦ rw none_ (ap (λ s. ok s) (sym ((eq_iff kid "").0 none_)))
  | inr some_ ↦ rw (some_, text-codes kid) refl
]

pub length-repeat : (n c : ℕ) → length (repeat n c) ≡ n
length-repeat zero c = refl
length-repeat (suc n) c = ap (λ k. suc k) (length-repeat n c)

abbrev signed_string : SigningKey → String → LocalClaims → Option Bytes
signed_string (hs256 key) kid c =
    let message =
      sample_codec.encode (marshal_header "HS256" kid) ⊙ sample_codec.encode (marshal_claims c) in
    some (message ⊙ sample_codec.encode (sample_codec.mac key message))
signed_string (eddsa key) kid c =
    let message =
      sample_codec.encode (marshal_header "EdDSA" kid) ⊙ sample_codec.encode (marshal_claims c) in
    some (message ⊙ sample_codec.encode (ed_sign key message))

abbrev numeric_date : ℕ → ℕ
numeric_date t = t / second

pub numeric_date_floor :
    (t : ℕ) → (numeric_date t * second ≤ t) × (t < (numeric_date t + 1) * second)
numeric_date_floor t = (omega arith, omega arith)

abbrev pub library : JwtLibrary crypto
library = record {
  signed_string = signed_string;
  marshal_header = marshal_header;
  marshal_claims = marshal_claims;
  ed_sign = ed_sign;
  numeric_date = numeric_date;
  header = header;
  unmarshal_header-marshal = header_back;
  header_alg = λ alg kid. refl;
  header_typ = λ alg kid. refl;
  header_kid = kid_back;
  unmarshal_claims-marshal = λ c before exp. (claims_fields c, claims_back c, λ key. refl);
  signed_hs256 = λ key kid c. refl;
  signed_eddsa = λ key kid c. refl;
  ed_sign_length = λ key message. length-repeat 64 (length message);
  numeric_date_floor = numeric_date_floor;
}
