-- ===== src/Tokens/Sample.antt =====
-- A codec that meets the laws of `Codec`, for the tests: each byte moves above the dot.
use mod_users.Prelude.{
  ℕ, ◌+◌, ◌-◌, ◌≡◌, ◌≢◌, refl, Option, some, [], ◌∷◌, ◌++◌, map, All, arith, length, take, drop,
}
use mod_users.Tokens.{Bytes, Codec, dot}

abbrev pub shift : ℕ → ℕ
shift c = c + 47

abbrev pub shift_back : ℕ → ℕ
shift_back c = c - 47

map-shift : (b : Bytes) → map shift_back (map shift b) ≡ b
map-shift [] = refl
map-shift (c ∷ b) = ground (arith, map-shift b)

pub shift_no_dot : (b : Bytes) → All (λ c. c ≢ dot) (map shift b)
shift_no_dot [] = tt
shift_no_dot (c ∷ b) = (omega arith, shift_no_dot b)

pub decode_lem : (b : Bytes) → ◌≡◌ {A = Option Bytes} (some (map shift_back (map shift b))) (some b)
decode_lem b = ground (arith, map-shift b)

abbrev pub sample_codec : Codec
sample_codec = record {
  mac = λ key text. key ++ text;
  encode = λ b. map shift b;
  decode = λ b. some (map shift_back b);
  decode-encode = decode_lem;
  encode_no_dot = shift_no_dot;
}

-- The first half of a text written with its length.
pub take-length : (a b : Bytes) → take (length a) (a ++ b) ≡ a
take-length [] b = refl
take-length (c ∷ a) b = ground (arith, take-length a b)

pub drop-length : (a b : Bytes) → drop (length a) (a ++ b) ≡ b
drop-length [] b = refl
drop-length (c ∷ a) b = ground (arith, drop-length a b)
