-- ===== src/Claims/Mappers.antt =====
-- The mappers of api/internal/auth/claims.go and the claims_*.go files beside it.
use Prim.Native.Char.{code}
use mod_users.Prelude.{
  String, Bool, true, false, ◌&&◌, ◌||◌, Option, none, some, List, [], ◌∷◌, ◌++◌, str_eq, ◌==◌, any,
  if◌then◌else◌,
}
use mod_users.Api.{Result, ok, err}
use mod_users.Claims.{
  Value, boolean, Fields, no_fields, field, lookup, slice_of, get_string, get_string_slice,
  get_nested_string_slice, get_string_by_path, get_string_slice_by_path, lowercase_all,
  coerce_bool_claim, ClaimError, no_email_path, no_roles_path, unknown_style, extract_required,
  Principal,
}

pub record MapperOptions : Type 0 where
  pub admin_role : String
  pub roles_namespace : String
  pub roles_path : String
  pub email_path : String

abbrev pub member : String → List String → Bool
member s ss = any (λ t. str_eq t s) ss

-- The principal of what each mapper reads its own way: the email, the roles and the sudo user.
abbrev pub principal_of : Fields → String → List String → String → String × String → Principal
principal_of claims email roles sudo (sub, iss) = record {
  subject = sub;
  issuer = iss;
  email = email;
  email_verified = coerce_bool_claim claims "email_verified";
  roles = roles;
  sudo_user_uuid = sudo;
}

abbrev pub with_required :
    (String × String → Result ClaimError Principal)
    → Result ClaimError (String × String)
    → Result ClaimError Principal
with_required f (err e) = err e
with_required f (ok ids) = f ids

abbrev pub mapped : Fields → String → List String → Result ClaimError Principal
mapped claims email roles =
    with_required (λ ids. ok (principal_of claims email roles "" ids)) (extract_required claims)

-- The groups that no earlier group and no role equals, in their order.
unfoldable pub remaining_groups : List String → List String → List String
remaining_groups seen [] = []
remaining_groups seen (g ∷ gs) = elim (member g seen) [
  | true ↦ remaining_groups seen gs
  | false ↦ g ∷ remaining_groups (g ∷ seen) gs
]

unfoldable pub authelia_roles : String → List String → List String
unfolding remaining_groups
authelia_roles admin groups =
    let roles = if member admin groups then admin ∷ [] else [] in
    roles ++ remaining_groups roles groups

-- The admin role, unless the roles have it.
abbrev pub with_admin : String → List String → List String
with_admin admin roles = if member admin roles then roles else roles ++ admin ∷ []

abbrev pub azure_admin_wids : List String
azure_admin_wids =
    "62e90394-69f5-4237-9190-012177145e10" ∷ "194ae4cb-b126-40b2-bd5b-6091b380977d"
    ∷ "f28a1f50-f6e7-4571-818b-6a12f2af6b6c" ∷ []

unfoldable pub microsoft_roles : String → List String → List String → List String
microsoft_roles admin roles wids =
    if any (λ wid. member wid azure_admin_wids) wids then with_admin admin roles else roles

abbrev pub is_admin_claim : Value → Bool
is_admin_claim (boolean b) = b
is_admin_claim _ = false

unfoldable pub firebase_roles : String → List String → Option Value → List String
firebase_roles admin roles none = roles
firebase_roles admin roles (some v) = if is_admin_claim v then with_admin admin roles else roles

unfoldable pub append : String → String → String
append String.[] t = t
append (String.◌∷◌ c s) t = String.◌∷◌ c (append s t)

-- strings.TrimRight(s, "/")
unfoldable pub trim_slashes : String → String
trim_slashes String.[] = ""
trim_slashes (String.◌∷◌ c s) =
    let rest = trim_slashes s in if code c == b'/' && str_eq rest "" then "" else String.◌∷◌ c rest

-- strings.HasSuffix
unfoldable pub has_suffix : String → String → Bool
has_suffix String.[] suffix = str_eq "" suffix
has_suffix (String.◌∷◌ c s) suffix = str_eq (String.◌∷◌ c s) suffix || has_suffix s suffix

abbrev pub or_else : List String → List String → List String
or_else [] other = other
or_else (r ∷ rs) other = r ∷ rs

-- The first claim with strings under a key that ends in "/roles".
unfoldable pub probe_roles : Fields → List String
unfolding has_suffix
probe_roles no_fields = []
probe_roles (field k v rest) =
    or_else (if has_suffix k "/roles" then slice_of v else []) (probe_roles rest)

abbrev pub namespaced_roles : String → Fields → List String
namespaced_roles ns claims =
    if str_eq ns "" then [] else get_string_slice claims (append (trim_slashes ns) "/roles")

unfoldable pub auth0_roles : (String → String) → String → Fields → List String
unfolding probe_roles append trim_slashes
auth0_roles lower ns claims = lowercase_all lower (
    or_else (namespaced_roles ns claims)
      (or_else (probe_roles claims) (get_string_slice claims "roles")))

pub data ClaimMapper : Type 0 where
  google microsoft authelia keycloak cognito auth0 firebase generic : MapperOptions → ClaimMapper

-- `lower` is Go's strings.ToLower.
module _ (lower : String → String) where
  abbrev pub map_generic : MapperOptions → Fields → Result ClaimError Principal
  map_generic opts claims =
      with_required
        (λ ids.
          if str_eq opts.email_path ""
          then err no_email_path
          else if str_eq opts.roles_path ""
          then err no_roles_path
          else ok (
              principal_of claims (get_string_by_path claims opts.email_path)
                (lowercase_all lower (get_string_slice_by_path claims opts.roles_path))
                (get_string claims "sudo_user_uuid") ids))
        (extract_required claims)

  abbrev pub microsoft_email : Fields → String
  microsoft_email claims =
      let email = get_string claims "email" in
      if str_eq email "" then get_string claims "preferred_username" else email

  -- The Map method of each mapper.
  unfoldable pub map_claims : ClaimMapper → Fields → Result ClaimError Principal
  unfolding authelia_roles microsoft_roles firebase_roles auth0_roles
  map_claims (google opts) claims = mapped claims (get_string claims "email") []
  map_claims (microsoft opts) claims = mapped claims (microsoft_email claims) (
      microsoft_roles opts.admin_role (lowercase_all lower (get_string_slice claims "roles"))
        (get_string_slice claims "wids"))
  map_claims (authelia opts) claims =
      mapped claims (get_string claims "email")
        (authelia_roles opts.admin_role (lowercase_all lower (get_string_slice claims "groups")))
  map_claims (keycloak opts) claims =
      mapped claims (get_string claims "email")
        (lowercase_all lower (get_nested_string_slice claims ("realm_access" ∷ "roles" ∷ [])))
  map_claims (cognito opts) claims =
      mapped claims (get_string claims "email")
        (lowercase_all lower (get_string_slice claims "cognito:groups"))
  map_claims (auth0 opts) claims =
      mapped claims (get_string claims "email") (auth0_roles lower opts.roles_namespace claims)
  map_claims (firebase opts) claims = mapped claims (get_string claims "email") (
      firebase_roles opts.admin_role (lowercase_all lower (get_string_slice claims "roles"))
        (lookup "admin" claims))
  map_claims (generic opts) claims = map_generic opts claims

abbrev pub or_admin : MapperOptions → MapperOptions
or_admin opts = if str_eq opts.admin_role "" then record opts { admin_role = "admin" } else opts

unfoldable pub new_claim_mapper : String → MapperOptions → Result ClaimError ClaimMapper
new_claim_mapper style opts =
    let o = or_admin opts in
    if str_eq style "google"
    then ok (google o)
    else if str_eq style "microsoft"
    then ok (microsoft o)
    else if str_eq style "authelia"
    then ok (authelia o)
    else if str_eq style "keycloak"
    then ok (keycloak o)
    else if str_eq style "cognito"
    then ok (cognito o)
    else if str_eq style "auth0"
    then ok (auth0 o)
    else if str_eq style "firebase"
    then ok (firebase o)
    else if str_eq style "generic"
    then ok (generic o)
    else err unknown_style
