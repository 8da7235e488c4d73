-- ===== src/Claims/Examples.antt =====
-- Claims of a token, and the theorems at them.
use mod_users.Prelude.{
  suc, ◌≤◌, ◌≡◌, ◌↔◌, ◌⊎◌, refl, String, true, false, some, List, [], ◌∷◌, str_eq,
}
use mod_users.Api.{ok}
use mod_users.Claims.{
  Value, string, object, boolean, Fields, no_fields, field, get_by_path, size, get_string,
  Principal,
}
use mod_users.Claims.Paths.{segments, walk, get_by_path_ends}
use mod_users.Claims.Mappers.{MapperOptions, generic, map_claims, member, authelia_roles}
use mod_users.Claims.Identity.{AssertsVerified, principal_of_claims}
use mod_users.Claims.Groups.{times, authelia_roles_lem}

abbrev claims : Fields
claims = field "iss" (string "local") (
    field "sub" (string "u1") (
      field "email_verified" (string "true")
        (field "user_info" (object (field "email" (string "a@b") no_fields)) no_fields)))

get_by_path_ends_example :
    get_by_path (suc (size "user_info.email")) claims "user_info.email"
    ≡ some (walk claims (segments "user_info.email"))
get_by_path_ends_example = get_by_path_ends claims "user_info.email"

walked : walk claims (segments "user_info.email") ≡ string "a@b"
unfolding walk segments mod_users.Claims.lookup
walked = refl

abbrev opts : MapperOptions
opts = record {
  admin_role = "admin";
  roles_namespace = "";
  roles_path = "roles";
  email_path = "user_info.email";
}

abbrev principal : Principal
principal = record {
  subject = "u1";
  issuer = "local";
  email = "a@b";
  email_verified = true;
  roles = [];
  sudo_user_uuid = "";
}

mapped : map_claims (λ s. s) (generic opts) claims ≡ ok principal
unfolding map_claims mod_users.Claims.extract_required mod_users.Claims.lookup
    mod_users.Claims.get_string_by_path mod_users.Claims.coerce_bool_claim
    mod_users.Claims.lowercase_all size mod_users.Claims.get_string_slice_by_path
mapped = refl

principal_of_claims_example :
    (principal.subject ≡ get_string claims "sub")
    × (principal.issuer ≡ get_string claims "iss")
    × (str_eq principal.subject "" ≡ false)
    × (str_eq principal.issuer "" ≡ false)
    × ((principal.email_verified ≡ true) ↔ AssertsVerified claims)
    × ((principal.sudo_user_uuid ≡ "")
        ⊎ ((o : MapperOptions) × (generic opts ≡ generic o)
            × (principal.sudo_user_uuid ≡ get_string claims "sudo_user_uuid")))
principal_of_claims_example = principal_of_claims (λ s. s) (generic opts) claims principal mapped

abbrev groups : List String
groups = "dev" ∷ "admin" ∷ "dev" ∷ []

authelia_roles_lem_test :
    (member "dev" (authelia_roles "admin" groups) ≡ member "dev" groups)
    × (times "dev" (authelia_roles "admin" groups) ≤ 1)
    × ((member "admin" groups ≡ false)
        ⊎ ((rest : List String) × (authelia_roles "admin" groups ≡ "admin" ∷ rest)))
authelia_roles_lem_test = authelia_roles_lem "admin" groups "dev"
