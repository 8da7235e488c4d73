-- ===== src/SshKey/Examples.antt =====
-- A line and its parser, and the theorems at them.
use mod_users.Prelude.{
  All, select, take, ℕ, ◌≤◌, ◌≡◌, ◌↔◌, refl, false, Option, none, some, List, [], ◌∷◌, any, length,
}
use mod_users.Api.{ok, err}
use mod_users.Tokens.{codes}
use mod_users.Text.{Text, trim_space, byte_len}
use mod_users.SshKey.{
  SshLib, Parsed, bits, is_disallowed_label_rune, normalize_label, parse, parsed_of, too_weak,
  label_invalid_chars,
}
use mod_users.SshKey.Label.{is_plain, IsPlain, normalize_label_bounds, normalize_label_iff}
use mod_users.SshKey.Policy.{IsAcceptable, parse-IsAcceptable}

-- A key is its type and its size; a line holds the size, and the comment.
abbrev split_line : Text → Option ((Text × ℕ) × Text × List Text × Text)
split_line [] = none
split_line (n ∷ comment) = some ((codes "ssh-rsa", n), comment, [], [])

abbrev lib : SshLib (Text × ℕ)
lib = record {
  parse_authorized_key = split_line;
  key_type = λ k. k.0;
  modulus = λ k. bits k.1;
  marshal_authorized_key = λ k. k.0;
  fingerprint_sha256 = λ k. k.1 ∷ [];
}

abbrev line : ℕ → Text
line n = n ∷ codes " work "

weak_is_refused : parse lib (line 1024) ≡ err too_weak
unfolding parse byte_len trim_space mod_users.SshKey.check_policy
    mod_users.SshKey.accepted_key_types mod_users.SshKey.key_algo_rsa
weak_is_refused = refl

abbrev key : Parsed (Text × ℕ)
key = parsed_of lib (codes "ssh-rsa", 2048) (codes " work ")

strong_is_parsed : parse lib (line 2048) ≡ ok key
unfolding parse byte_len trim_space mod_users.SshKey.check_policy
    mod_users.SshKey.accepted_key_types mod_users.SshKey.key_algo_rsa
strong_is_parsed = refl

tab_is_refused : normalize_label (some (97 ∷ 9 ∷ 98 ∷ [])) [] ≡ err label_invalid_chars
unfolding normalize_label byte_len trim_space mod_users.Text.is_space is_disallowed_label_rune
tab_is_refused = refl

parse-IsAcceptable_example : IsAcceptable lib (line 2048) key
unfolding parse byte_len trim_space mod_users.SshKey.check_policy
    mod_users.SshKey.accepted_key_types mod_users.SshKey.key_algo_rsa
parse-IsAcceptable_example = parse-IsAcceptable lib (line 2048) key refl

normalize_label_bounds_test :
    (length (codes "work") ≤ 100) × (any is_disallowed_label_rune (codes "work") ≡ false)
unfolding normalize_label trim_space mod_users.SshKey.strip_disallowed is_disallowed_label_rune
    mod_users.Text.is_space
normalize_label_bounds_test = normalize_label_bounds none (9 ∷ codes " work ") (codes "work") refl

normalize_label_iff_example :
    ((normalize_label (some (codes " work ")) (9 ∷ codes "home") ≡ ok (codes "work")) ↔ (
      (codes "work" ≡ trim_space (codes " work "))
      × (byte_len (codes " work ") ≤ 400)
      × (length (trim_space (codes " work ")) ≤ 100)
      × All IsPlain (trim_space (codes " work "))))
    × (normalize_label none (9 ∷ codes "home")
        ≡ ok (take 100 (trim_space (select is_plain (9 ∷ codes "home")))))
    × (length (take 100 (trim_space (select is_plain (9 ∷ codes "home")))) ≤ 100)
    × All IsPlain (take 100 (trim_space (select is_plain (9 ∷ codes "home"))))
normalize_label_iff_example = normalize_label_iff (codes " work ") (9 ∷ codes "home") (codes "work")
