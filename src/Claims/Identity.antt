-- ===== src/Claims/Identity.antt =====
-- What every mapper of api/internal/auth/claims*.go guarantees of the principal it returns.
use mod_users.Prelude.{
  ◌≡◌, ◌↔◌, ◌⊎◌, refl, String, true, false, inl, inr, Option, some, List, str_eq, eq_iff,
  Option-cases, arith,
}
use mod_users.Api.{Result-cases, ok}
use mod_users.Claims.{
  Value, null, boolean, number, string, strings, array, object, Fields, is_true, lookup, get_string,
  coerce_bool_claim, extract_required, Principal,
}
use mod_users.Claims.Mappers.{
  MapperOptions, ClaimMapper, google, microsoft, authelia, keycloak, cognito, auth0, firebase,
  generic, map_claims, mapped, map_generic,
}

extract_required-ok :
    (claims : Fields) (ids : String × String)
    → extract_required claims ≡ ok ids
    → (ids.0 ≡ get_string claims "sub")
      × (ids.1 ≡ get_string claims "iss")
      × (str_eq ids.0 "" ≡ false)
      × (str_eq ids.1 "" ≡ false)
unfolding extract_required
extract_required-ok claims ids e = ground arith

-- The claims assert that the email is verified.
abbrev pub AssertsVerified : Fields → Type 0
AssertsVerified claims =
    (lookup "email_verified" claims ≡ some (boolean true))
    ⊎ (lookup "email_verified" claims ≡ some (string "true"))

coerce_bool_claim_iff :
    (claims : Fields) → (coerce_bool_claim claims "email_verified" ≡ true) ↔ AssertsVerified claims
unfolding coerce_bool_claim
coerce_bool_claim_iff claims = elim (Option-cases (lookup "email_verified" claims)) [
  | inl missing ↦ ground arith
  | inr (v, found) ↦ rw found (of_value v)
]
  where
    of_value :
        (v : Value)
        → (is_true v ≡ true) ↔ (
            (◌≡◌ {A = Option Value} (some v) (some (boolean true)))
            ⊎ (◌≡◌ {A = Option Value} (some v) (some (string "true"))))
    of_value (boolean b) = ground arith
    of_value (string s) = ground (arith, eq_iff s "true")
    of_value null = ground arith
    of_value (number n) = ground arith
    of_value (strings ss) = ground arith
    of_value (array vs) = ground arith
    of_value (object fs) = ground arith

-- The fields that the mappers share, and the sudo user.
abbrev pub IsMapped : Fields → String → Principal → Type 0
IsMapped claims sudo p =
    (p.subject ≡ get_string claims "sub")
    × (p.issuer ≡ get_string claims "iss")
    × (str_eq p.subject "" ≡ false)
    × (str_eq p.issuer "" ≡ false)
    × (p.email_verified ≡ coerce_bool_claim claims "email_verified")
    × (p.sudo_user_uuid ≡ sudo)

mapped-IsMapped :
    (claims : Fields) (email : String) (roles : List String) (p : Principal)
    → mapped claims email roles ≡ ok p
    → IsMapped claims "" p
mapped-IsMapped claims email roles p e = elim (Result-cases (extract_required claims)) [
  | inr (bad, missing) ↦ absurd (ground arith)
  | inl (ids, found) ↦ ground (arith, extract_required-ok claims ids found)
]

generic-IsMapped :
    (lower : String → String) (opts : MapperOptions) (claims : Fields) (p : Principal)
    → map_generic lower opts claims ≡ ok p
    → IsMapped claims (get_string claims "sudo_user_uuid") p
generic-IsMapped lower opts claims p e = elim (Result-cases (extract_required claims)) [
  | inr (bad, missing) ↦ absurd (ground arith)
  | inl (ids, found) ↦ ground (arith, extract_required-ok claims ids found)
]

-- The sudo user that a mapper reads.
abbrev sudo_of : ClaimMapper → Fields → String
sudo_of (generic opts) claims = get_string claims "sudo_user_uuid"
sudo_of _ claims = ""

map_claims-IsMapped :
    (lower : String → String) (m : ClaimMapper) (claims : Fields) (p : Principal)
    → map_claims lower m claims ≡ ok p
    → IsMapped claims (sudo_of m claims) p
unfolding map_claims
map_claims-IsMapped lower (generic opts) claims p e = generic-IsMapped lower opts claims p e
map_claims-IsMapped lower (google opts) claims p e = mapped-IsMapped claims _ _ p e
map_claims-IsMapped lower (microsoft opts) claims p e = mapped-IsMapped claims _ _ p e
map_claims-IsMapped lower (authelia opts) claims p e = mapped-IsMapped claims _ _ p e
map_claims-IsMapped lower (keycloak opts) claims p e = mapped-IsMapped claims _ _ p e
map_claims-IsMapped lower (cognito opts) claims p e = mapped-IsMapped claims _ _ p e
map_claims-IsMapped lower (auth0 opts) claims p e = mapped-IsMapped claims _ _ p e
map_claims-IsMapped lower (firebase opts) claims p e = mapped-IsMapped claims _ _ p e

-- Whichever mapper maps the claims: the principal has the claims' subject and issuer, neither of
-- them empty; its email counts as verified exactly if the claims assert it, by true or "true"; and
-- only the generic mapper lets the claims name a sudo user.
pub principal_of_claims :
    (lower : String → String) (m : ClaimMapper) (claims : Fields) (p : Principal)
    → map_claims lower m claims ≡ ok p
    → (p.subject ≡ get_string claims "sub")
      × (p.issuer ≡ get_string claims "iss")
      × (str_eq p.subject "" ≡ false)
      × (str_eq p.issuer "" ≡ false)
      × ((p.email_verified ≡ true) ↔ AssertsVerified claims)
      × ((p.sudo_user_uuid ≡ "")
          ⊎ ((opts : MapperOptions) × (m ≡ generic opts)
              × (p.sudo_user_uuid ≡ get_string claims "sudo_user_uuid")))
principal_of_claims lower m claims p e =
    let (sub, iss, some_sub, some_iss, verified, sudo) = map_claims-IsMapped lower m claims p e in
    (
      sub,
      iss,
      some_sub,
      some_iss,
      rw verified (coerce_bool_claim_iff claims),
      sudo_of-generic m claims p.sudo_user_uuid sudo,
    )
  where
    sudo_of-generic :
        (m : ClaimMapper) (claims : Fields) (sudo : String)
        → sudo ≡ sudo_of m claims
        → (sudo ≡ "")
          ⊎ ((opts : MapperOptions) × (m ≡ generic opts)
              × (sudo ≡ get_string claims "sudo_user_uuid"))
    sudo_of-generic (generic opts) claims sudo e = inr (opts, refl, e)
    sudo_of-generic (google opts) claims sudo e = inl e
    sudo_of-generic (microsoft opts) claims sudo e = inl e
    sudo_of-generic (authelia opts) claims sudo e = inl e
    sudo_of-generic (keycloak opts) claims sudo e = inl e
    sudo_of-generic (cognito opts) claims sudo e = inl e
    sudo_of-generic (auth0 opts) claims sudo e = inl e
    sudo_of-generic (firebase opts) claims sudo e = inl e
