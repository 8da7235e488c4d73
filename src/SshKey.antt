-- ===== src/SshKey.antt =====
-- The acceptance policy for SSH public keys and their labels: api/internal/sshkey/sshkey.go,
-- label.go and errors.go.
pub mod Label
pub mod Policy
mod Examples
use mod_users.Prelude.{
  ℕ, Bool, true, false, not, ◌&&◌, ◌||◌, Option, none, some, List, [], ◌∷◌, ltb, leb, ◌==◌, any,
  length, take, if◌then◌else◌, ◌*◌,
}
use mod_users.Api.{Result, ok, err}
use mod_users.Tokens.{bytes_eq, is_empty, codes}
use mod_users.Text.{Text, trim_space, byte_len}

pub data KeyError : Type 0 where
  invalid unsupported_type too_weak label_too_long label_invalid_chars : KeyError

abbrev pub max_label_runes : ℕ
max_label_runes = 100

abbrev pub max_label_raw_bytes : ℕ
max_label_raw_bytes = 4 * max_label_runes

abbrev pub max_input_bytes : ℕ
max_input_bytes = 16 * 1024

abbrev pub min_rsa_bits : ℕ
min_rsa_bits = 2048

-- unicode.IsControl
abbrev pub is_control : ℕ → Bool
is_control r = ltb r 0x20 || (leb 0x7f r && ltb r 0xa0)

unfoldable pub is_disallowed_label_rune : ℕ → Bool
is_disallowed_label_rune r =
    is_control r
    || r == 0x061c
    || r == 0x200e
    || r == 0x200f
    || (leb 0x202a r && leb r 0x202e)
    || (leb 0x2066 r && leb r 0x2069)

-- strings.Map with -1 for the disallowed characters.
unfoldable pub strip_disallowed : Text → Text
strip_disallowed [] = []
strip_disallowed (r ∷ s) =
    let rest = strip_disallowed s in if is_disallowed_label_rune r then rest else r ∷ rest

unfoldable pub normalize_label : Option Text → Text → Result KeyError Text
normalize_label (some requested) comment =
    let trimmed = trim_space requested in
    if ltb max_label_raw_bytes (byte_len requested)
    then err label_too_long
    else if ltb max_label_runes (length trimmed)
    then err label_too_long
    else if any is_disallowed_label_rune trimmed
    then err label_invalid_chars
    else ok trimmed
normalize_label none comment =
    let runes = trim_space (strip_disallowed comment) in
    ok (if ltb max_label_runes (length runes) then take max_label_runes runes else runes)

-- What a key says of its RSA modulus: it exposes no key, or one of another kind, or its size.
pub data Modulus : Type 0 where
  hidden not_rsa : Modulus
  bits : ℕ → Modulus

-- golang.org/x/crypto/ssh, which is not part of this repository. `parse` is ParseAuthorizedKey: the
-- key, the comment, the options and the rest.
pub record SshLib (Key : Type 0) : Type 0 where
  pub parse_authorized_key : Text → Option (Key × Text × List Text × Text)
  pub key_type : Key → Text
  pub modulus : Key → Modulus
  pub marshal_authorized_key : Key → Text
  pub fingerprint_sha256 : Key → Text

unfoldable pub accepted_key_types : List Text
accepted_key_types =
    codes "ssh-ed25519"
    ∷ codes "sk-ssh-ed25519@openssh.com"
    ∷ codes "ecdsa-sha2-nistp256"
    ∷ codes "ecdsa-sha2-nistp384"
    ∷ codes "ecdsa-sha2-nistp521"
    ∷ codes "sk-ecdsa-sha2-nistp256@openssh.com"
    ∷ codes "ssh-rsa"
    ∷ []

unfoldable pub key_algo_rsa : Text
key_algo_rsa = codes "ssh-rsa"

abbrev pub is_accepted_type : Text → Bool
is_accepted_type t = any (λ a. bytes_eq a t) accepted_key_types

pub record Parsed (Key : Type 0) : Type 0 where
  pub key : Key
  pub type : Text
  pub canonical : Text
  pub fingerprint : Text
  pub comment : Text

abbrev pub has_options : List Text → Bool
has_options [] = false
has_options (o ∷ os) = true

abbrev pub check_modulus : Modulus → Option KeyError
check_modulus hidden = some invalid
check_modulus not_rsa = some invalid
check_modulus (bits n) = if ltb n min_rsa_bits then some too_weak else none

module _ {Key : Type 0} (lib : SshLib Key) where
  open lib use {parse_authorized_key, key_type, modulus, marshal_authorized_key, fingerprint_sha256}

  -- `none` is an accepted key.
  unfoldable pub check_policy : Key → Option KeyError
  check_policy key =
      if not (is_accepted_type (key_type key))
      then some unsupported_type
      else if not (bytes_eq (key_type key) key_algo_rsa)
      then none
      else check_modulus (modulus key)

  unfoldable pub canonical : Key → Text
  canonical key = trim_space (marshal_authorized_key key)

  unfoldable pub fingerprint : Key → Text
  fingerprint key = fingerprint_sha256 key

  abbrev pub parsed_of : Key → Text → Parsed Key
  parsed_of key comment = record {
    key = key;
    type = key_type key;
    canonical = canonical key;
    fingerprint = fingerprint key;
    comment = trim_space comment;
  }

  abbrev pub unless : Option KeyError → Parsed Key → Result KeyError (Parsed Key)
  unless (some e) p = err e
  unless none p = ok p

  abbrev pub check_parsed : Option (Key × Text × List Text × Text) → Result KeyError (Parsed Key)
  check_parsed none = err invalid
  check_parsed (some (key, comment, options, rest)) =
      if has_options options
      then err invalid
      else if not (is_empty (trim_space rest))
      then err invalid
      else unless (check_policy key) (parsed_of key comment)

  unfoldable pub parse : Text → Result KeyError (Parsed Key)
  parse line =
      if ltb max_input_bytes (byte_len line)
      then err invalid
      else check_parsed (parse_authorized_key line)
