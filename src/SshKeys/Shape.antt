-- ===== src/SshKeys/Shape.antt =====
-- ValidateSSHKeyShape of api/internal/service/ssh_keys.go, which the handlers call before they ask
-- for step-up.
use mod_users.Prelude.{
  String, ◌≡◌, ◌⊎◌, inl, inr, Bool, Option, none, some, List, [], ◌∷◌, arith, Option-cases,
}
use mod_users.Api.{Result-cases, FieldError, invalid_input, Result, ok, err}
use mod_users.Text.{Text}
use mod_users.SshKey.{
  KeyError, invalid, unsupported_type, too_weak, label_too_long, label_invalid_chars, SshLib,
  Parsed, Modulus, hidden, not_rsa, bits, parse, check_policy, check_modulus, normalize_label,
}
use mod_users.SshKeys.Service.{Db, Env}
use mod_users.SshKeys.Operations.{Tx, register}

abbrev pub field_error : String → String → String → FieldError
field_error field code message = record { field = field; code = code; message = message }

abbrev pub parse_field_error : KeyError → FieldError
parse_field_error too_weak = field_error "public_key" "users.ssh_key_too_weak" "key is too weak"
parse_field_error unsupported_type =
    field_error "public_key" "users.ssh_key_type_unsupported" "key type is not supported"
parse_field_error invalid = field_error "public_key" "users.ssh_key_invalid" "key is invalid"
parse_field_error label_too_long = field_error "public_key" "users.ssh_key_invalid" "key is invalid"
parse_field_error label_invalid_chars =
    field_error "public_key" "users.ssh_key_invalid" "key is invalid"

abbrev pub label_field_error : KeyError → FieldError
label_field_error label_too_long =
    field_error "label" "users.ssh_key_label_too_long" "label is too long"
label_field_error label_invalid_chars =
    field_error "label" "users.ssh_key_label_invalid" "label contains invalid characters"
label_field_error too_weak =
    field_error "label" "users.ssh_key_label_invalid" "label contains invalid characters"
label_field_error unsupported_type =
    field_error "label" "users.ssh_key_label_invalid" "label contains invalid characters"
label_field_error invalid =
    field_error "label" "users.ssh_key_label_invalid" "label contains invalid characters"

abbrev pub label_problems : Result KeyError Text → List FieldError
label_problems (err e) = label_field_error e ∷ []
label_problems (ok label) = []

abbrev pub problems : {Key : Type 0} → Option Text → Result KeyError (Parsed Key) → List FieldError
problems label (err e) = parse_field_error e ∷ []
problems label (ok p) = label_problems (normalize_label label p.comment)

-- The first problem of the line and the label, or none.
unfoldable pub validate_ssh_key_shape :
    {Key : Type 0} → SshLib Key → Text → Option Text → List FieldError
validate_ssh_key_shape lib line label = problems label (parse lib line)

modulus-error :
    (m : Modulus) (e : KeyError) → check_modulus m ≡ some e → (e ≡ invalid) ⊎ (e ≡ too_weak)
modulus-error hidden e h = ground arith
modulus-error not_rsa e h = ground arith
modulus-error (bits n) e h = ground arith

policy-error :
    {Key : Type 0} (lib : SshLib Key) (key : Key) (e : KeyError)
    → check_policy lib key ≡ some e
    → (e ≡ invalid) ⊎ ((e ≡ unsupported_type) ⊎ (e ≡ too_weak))
unfolding check_policy
policy-error lib key e h = ground (arith, modulus-error (lib.modulus key) e)

parse-error :
    {Key : Type 0} (lib : SshLib Key) (line : Text) (e : KeyError)
    → parse lib line ≡ err e
    → (e ≡ invalid) ⊎ ((e ≡ unsupported_type) ⊎ (e ≡ too_weak))
unfolding parse
parse-error lib line e h = elim (Option-cases (lib.parse_authorized_key line)) [
  | inl bad ↦ ground arith
  | inr ((key, comment, options, rest), found) ↦ ground (arith, policy-error lib key e)
]

label-error :
    (label : Option Text) (comment : Text) (e : KeyError)
    → normalize_label label comment ≡ err e
    → (e ≡ label_too_long) ⊎ (e ≡ label_invalid_chars)
unfolding normalize_label
label-error none comment e h = absurd (cc)
label-error (some requested) comment e h = ground arith

-- Where the check of the line and the label reports a problem, Register answers with that one field
-- error, whoever calls it, and changes nothing.
pub register_refuses_bad_shape :
    {Key : Type 0} (lib : SshLib Key) (tx : Tx) (env : Env) (uuid : String) (line : Text)
    (label : Option Text) (step_up : Bool) (db : Db) (fe : FieldError) (rest : List FieldError)
    → validate_ssh_key_shape lib line label ≡ fe ∷ rest
    → register lib tx env uuid line label step_up db ≡ (err (invalid_input (fe ∷ [])), db)
unfolding register validate_ssh_key_shape
register_refuses_bad_shape lib tx env uuid line label step_up db fe rest h =
    elim (Result-cases (parse lib line)) [
      | inr (e, bad) ↦ elim (parse-error lib line e bad) [
        | inl is_invalid ↦ ground arith
        | inr (inl is_unsupported) ↦ ground arith
        | inr (inr is_weak) ↦ ground arith
      ]
      | inl (p, good) ↦ elim (Result-cases (normalize_label label p.comment)) [
        | inl (l, fine) ↦ absurd (ground arith)
        | inr (e, bad) ↦ elim (label-error label p.comment e bad) [
          | inl is_long ↦ ground arith
          | inr is_bad ↦ ground arith
        ]
      ]
    ]
