-- ===== src/Claims.antt =====
-- The claims of a verified token and the principal that they are mapped to:
-- api/internal/auth/claims_helpers.go and the data of api/internal/auth/principal.go.
pub mod Paths
pub mod Mappers
pub mod Identity
pub mod Groups
mod Examples
use Prim.Native.Char.{code}
use mod_users.Prelude.{
  ℕ, zero, suc, ◌+◌, String, Bool, true, false, not, ◌&&◌, ◌||◌, Option, none, some, List, [], ◌∷◌,
  str_eq, ◌==◌, map, if◌then◌else◌,
}
use mod_users.Api.{Result, ok, err}

-- An integer: a float64 as the code reads it, by int64.
pub data ℤ : Type 0 where
  pos negsuc : ℕ → ℤ

-- What an `any` of the claims holds; `null` is nil. An object lists its fields in the order in which
-- `range` takes them.
mutual
  pub data Value : Type 0 where
    null : Value
    boolean : Bool → Value
    number : ℤ → Value
    string : String → Value
    strings : List String → Value
    array : Values → Value
    object : Fields → Value

  pub data Values : Type 0 where
    no_values : Values
    value : Value → Values → Values

  pub data Fields : Type 0 where
    no_fields : Fields
    field : String → Value → Fields → Fields

unfoldable pub lookup : String → Fields → Option Value
lookup key no_fields = none
lookup key (field k v rest) = if str_eq k key then some v else lookup key rest

abbrev pub or_null : Option Value → Value
or_null none = null
or_null (some v) = v

-- `s, _ := v.(string)`
abbrev pub text_of : Value → String
text_of (string s) = s
text_of _ = ""

unfoldable pub get_string : Fields → String → String
get_string claims key = text_of (or_null (lookup key claims))

unfoldable pub keep_strings : Values → List String
keep_strings no_values = []
keep_strings (value (string s) rest) = s ∷ keep_strings rest
keep_strings (value _ rest) = keep_strings rest

-- The slice of a value; a nil slice is the empty list.
abbrev pub slice_of : Value → List String
slice_of (strings ss) = ss
slice_of (array vs) = keep_strings vs
slice_of _ = []

unfoldable pub get_string_slice : Fields → String → List String
get_string_slice claims key = slice_of (or_null (lookup key claims))

-- `m, ok := v.(map[string]any)`
abbrev pub fields_of : Value → Option Fields
fields_of (object fields) = some fields
fields_of _ = none

abbrev pub fields_at : String → Fields → Option Fields
fields_at key claims = fields_of (or_null (lookup key claims))

unfoldable pub get_nested_string_slice : Fields → List String → List String
unfolding get_string_slice
get_nested_string_slice claims [] = []
get_nested_string_slice claims (key ∷ []) = get_string_slice claims key
get_nested_string_slice claims (key ∷ next ∷ keys) = elim (fields_at key claims) [
  | none ↦ []
  | some fields ↦ get_nested_string_slice fields (next ∷ keys)
]

-- strings.SplitN(path, ".", 2): what stands before the first dot, and what after it.
unfoldable pub before_dot : String → String
before_dot String.[] = ""
before_dot (String.◌∷◌ c s) =
    let rest = before_dot s in if code c == b'.' then "" else String.◌∷◌ c rest

unfoldable pub after_dot : String → Option String
after_dot String.[] = none
after_dot (String.◌∷◌ c s) = let rest = after_dot s in if code c == b'.' then some s else rest

-- getByPath; `none` if the fuel runs out.
unfoldable pub get_by_path : ℕ → Fields → String → Option Value
unfolding before_dot after_dot
get_by_path zero claims path = none
get_by_path (suc n) claims path =
    if str_eq path "" then some null else elim (lookup (before_dot path) claims) [
      | none ↦ some null
      | some v ↦ elim (after_dot path) [
        | none ↦ some v
        | some rest ↦ elim (fields_of v) [
          | none ↦ some null
          | some fields ↦ get_by_path n fields rest
        ]
      ]
    ]

unfoldable pub size : String → ℕ
size String.[] = 0
size (String.◌∷◌ c s) = suc (size s)

-- A call for each character of the path, and one more, are enough.
unfoldable pub value_at : Fields → String → Value
unfolding get_by_path
value_at claims path = or_null (get_by_path (suc (size path)) claims path)

unfoldable pub get_string_by_path : Fields → String → String
unfolding value_at
get_string_by_path claims path = text_of (value_at claims path)

unfoldable pub get_string_slice_by_path : Fields → String → List String
unfolding value_at
get_string_slice_by_path claims path = slice_of (value_at claims path)

unfoldable pub lowercase_all : (String → String) → List String → List String
lowercase_all lower ss = map lower ss

abbrev pub is_true : Value → Bool
is_true (boolean b) = b
is_true (string s) = str_eq s "true"
is_true _ = false

unfoldable pub coerce_bool_claim : Fields → String → Bool
coerce_bool_claim claims key = is_true (or_null (lookup key claims))

pub data ClaimError : Type 0 where
  missing_sub missing_iss no_email_path no_roles_path unknown_style : ClaimError

unfoldable pub extract_required : Fields → Result ClaimError (String × String)
unfolding get_string
extract_required claims =
    let sub = get_string claims "sub" in
    let iss = get_string claims "iss" in
    if str_eq sub ""
    then err missing_sub
    else if str_eq iss ""
    then err missing_iss
    else ok (sub, iss)

pub record Principal : Type 0 where
  pub subject : String
  pub issuer : String
  pub email : String
  pub email_verified : Bool
  pub roles : List String
  pub sudo_user_uuid : String
