-- ===== src/SshKey/Policy.antt =====
-- Which keys are accepted.
use std.Path.{subst⁻¹}
use mod_users.Prelude.{
  ap, ◌∙◌, ℕ, ◌≤◌, ◌≡◌, ◌≢◌, refl, true, false, ◌⊎◌, inl, inr, none, some, Option-cases, Bool-cases,
  List, [], ◌∷◌, any, Among, arith,
}
use mod_users.Api.{ok}
use mod_users.Tokens.{bytes_eq, is_empty}
use mod_users.Tokens.Split.{bytes_eq_iff}
use mod_users.Text.{Text, trim_space, byte_len}
use mod_users.SshKey.{
  SshLib, Parsed, Modulus, hidden, not_rsa, bits, has_options, check_modulus, parsed_of,
  accepted_key_types, key_algo_rsa, check_policy, canonical, fingerprint, parse, max_input_bytes,
  min_rsa_bits,
}

any-Among : (t : Text) (ts : List Text) → any (λ a. bytes_eq a t) ts ≡ true → Among t ts
any-Among t [] h = cc
any-Among t (a ∷ ts) h = ground (arith, any-Among t ts, bytes_eq_iff a t)

-- An accepted line, of at most 16 KiB, holds one key with no options and nothing after it; the
-- key's type is on the list, and an RSA key has at least 2048 bits.
pub record IsAcceptable {Key : Type 0} (lib : SshLib Key) (line : Text) (p : Parsed Key)
    : Type 0 where
  pub comment : Text
  pub rest : Text
  pub small : byte_len line ≤ max_input_bytes
  pub parsed : lib.parse_authorized_key line ≡ some (p.key, comment, [], rest)
  pub alone : is_empty (trim_space rest) ≡ true
  pub listed : Among (lib.key_type p.key) accepted_key_types
  pub strong :
      (lib.key_type p.key ≢ key_algo_rsa)
      ⊎ ((n : ℕ) × (lib.modulus p.key ≡ bits n) × (min_rsa_bits ≤ n))
  pub derived :
      (p.type ≡ lib.key_type p.key)
      × (p.canonical ≡ canonical lib p.key)
      × (p.fingerprint ≡ fingerprint lib p.key)

any-options : (os : List Text) → has_options os ≡ false → os ≡ []
any-options [] h = refl
any-options (o ∷ os) h = absurd (cc)

strong_modulus :
    (m : Modulus) → check_modulus m ≡ none → (n : ℕ) × (m ≡ bits n) × (min_rsa_bits ≤ n)
strong_modulus hidden e = absurd (cc)
strong_modulus not_rsa e = absurd (cc)
strong_modulus (bits n) e = (n, refl, ground arith)

module _ {Key : Type 0} (lib : SshLib Key) where
  strong_of :
      (key : Key)
      → check_policy lib key ≡ none
      → (lib.key_type key ≢ key_algo_rsa)
        ⊎ ((n : ℕ) × (lib.modulus key ≡ bits n) × (min_rsa_bits ≤ n))
  unfolding check_policy
  strong_of key e = elim (Bool-cases (bytes_eq (lib.key_type key) key_algo_rsa)) [
    | inl rsa ↦ inr (strong_modulus (lib.modulus key) (ground arith))
    | inr other ↦
        inl (λ same. ground (arith, (bytes_eq_iff (lib.key_type key) key_algo_rsa).1 same))
  ]

  listed_of :
      (key : Key) → check_policy lib key ≡ none → Among (lib.key_type key) accepted_key_types
  unfolding check_policy
  listed_of key e = any-Among (lib.key_type key) accepted_key_types (ground arith)

  -- A line is parsed only if it has at most 16 KiB and holds one key, with no options and nothing
  -- after it, of a type on the list and, if it is an RSA key, of at least 2048 bits; the type, the
  -- canonical text and the fingerprint that are returned are those of that key.
  pub parse-IsAcceptable :
      (line : Text) (p : Parsed Key) → parse lib line ≡ ok p → IsAcceptable lib line p
  unfolding parse
  parse-IsAcceptable line p e = elim (Option-cases (lib.parse_authorized_key line)) [
    | inl bad ↦ absurd (ground arith)
    | inr ((key, comment, options, rest), found) ↦
        let same : p ≡ parsed_of lib key comment = ground arith in
        let key_is : p.key ≡ key = ap (λ (q : Parsed Key). q.key) same in
        let alone : options ≡ [] = any-options options (ground arith) in
        let passed : check_policy lib key ≡ none = ground arith in
        subst⁻¹ (λ q. IsAcceptable lib line q) same
          (record {
            comment = comment;
            rest = rest;
            small = ground arith;
            parsed = found ∙ ap (λ (os : List Text). some (key, comment, os, rest)) alone;
            alone = ground arith;
            listed = listed_of key passed;
            strong = strong_of key passed;
            derived = (refl, refl, refl);
          })
  ]
