-- ===== src/Jwt/Bearer.antt =====
-- Which bearer tokens verifyLocal of api/internal/auth/jwt.go accepts.
use mod_users.Prelude.{
  ℕ, ◌*◌, ◌≤◌, ◌≡◌, refl, sym, ◌∙◌, String, true, false, Option, none, some, ◌⊎◌, inl, inr,
  Option-cases, Bool-cases, str_eq, eq_iff, length, arith,
}
use mod_users.Api.{ok, Result-cases}
use mod_users.Tokens.{Bytes, is_empty, split_dots, ◌⊙◌}
use mod_users.Tokens.Split.{bytes_eq_iff, join_dots-split_dots}
use mod_users.StepUp.{three_parts}
use mod_users.StepUp.Accept.{three_parts-join}
use mod_users.Claims.{
  Value, null, boolean, number, string, strings, array, object, pos, negsuc, Fields, lookup,
  get_string,
}
use mod_users.Jwt.{
  Header, Crypto, get_key, Verifier, equal_fold, second, is_alive, kid_of, check_hs256, check_eddsa,
  check_signature, verify_local,
}

module _ (crypto : Crypto) where
  open crypto use {unmarshal_header, unmarshal_kid, unmarshal_claims, ed_verify}
  open crypto.codec use {mac, encode, decode}

  -- A signature of the one of the two algorithms that the header names, by key material that the
  -- verifier has for it.
  abbrev pub IsSigned : Verifier → Header → Bytes → Bytes → Type 0
  IsSigned v header signing_input sig =
      ((header.alg ≡ "HS256")
        × (is_empty v.local_secret ≡ false)
        × (sig ≡ encode (mac v.local_secret signing_input)))
      ⊎ ((header.alg ≡ "EdDSA")
          × ((kid : String) × (key : Bytes) × (raw : Bytes) × (kid_of unmarshal_kid header.kid
                ≡ ok kid)
              × (get_key kid v.ed_keys ≡ some key)
              × (decode sig ≡ some raw)
              × (length raw ≡ 64)
              × (ed_verify key signing_input raw ≡ true)))

  pub record IsBearer (v : Verifier) (now : ℕ) (token : Bytes) (claims : Fields) : Type 0 where
    pub head : Bytes
    pub body : Bytes
    pub sig : Bytes
    pub head_json : Bytes
    pub body_json : Bytes
    pub header : Header
    pub exp : ℕ
    pub joined : token ≡ head ⊙ (body ⊙ sig)
    pub head_decoded : decode head ≡ some head_json
    pub head_parsed : unmarshal_header head_json ≡ some header
    pub not_step_up : equal_fold header.typ "step-up" ≡ false
    pub signed : IsSigned v header (head ⊙ body) sig
    pub body_decoded : decode body ≡ some body_json
    pub body_parsed : unmarshal_claims body_json ≡ some claims
    pub issued_here : get_string claims "iss" ≡ v.local_issuer
    pub expires : lookup "exp" claims ≡ some (number (pos exp))
    pub unexpired : now ≤ exp * second

  check_hs256-ok :
      (v : Verifier) (signing_input sig : Bytes)
      → check_hs256 crypto v signing_input sig ≡ ok tt
      → (is_empty v.local_secret ≡ false) × (sig ≡ encode (mac v.local_secret signing_input))
  unfolding check_hs256
  check_hs256-ok v signing_input sig e = (
    ground arith,
    (bytes_eq_iff sig (encode (mac v.local_secret signing_input))).0 (ground arith),
  )

  check_eddsa-ok :
      (v : Verifier) (raw_kid signing_input sig : Bytes)
      → check_eddsa crypto v raw_kid signing_input sig ≡ ok tt
      → (kid : String) × (key : Bytes) × (raw : Bytes) × (kid_of unmarshal_kid raw_kid ≡ ok kid)
        × (get_key kid v.ed_keys ≡ some key)
        × (decode sig ≡ some raw)
        × (length raw ≡ 64)
        × (ed_verify key signing_input raw ≡ true)
  unfolding check_eddsa
  check_eddsa-ok v raw_kid signing_input sig e =
      elim (Result-cases (kid_of unmarshal_kid raw_kid)) [
        | inr (bad, malformed) ↦ absurd (ground arith)
        | inl (kid, named) ↦ elim (Option-cases (get_key kid v.ed_keys)) [
          | inl unknown ↦ absurd (ground arith)
          | inr (key, known) ↦ elim (Option-cases (decode sig)) [
            | inl malformed ↦ absurd (ground arith)
            | inr (raw, decoded) ↦
                (kid, key, raw, named, known, decoded, ground arith, ground arith)
          ]
        ]
      ]

  check_signature-ok :
      (v : Verifier) (header : Header) (signing_input sig : Bytes)
      → check_signature crypto v header signing_input sig ≡ ok tt
      → IsSigned v header signing_input sig
  check_signature-ok v header signing_input sig e = elim (Bool-cases (str_eq header.alg "HS256")) [
    | inl hs ↦
        let (keyed, macd) = check_hs256-ok v signing_input sig (ground arith) in
        inl ((eq_iff header.alg "HS256").0 hs, keyed, macd)
    | inr other ↦ elim (Bool-cases (str_eq header.alg "EdDSA")) [
      | inl ed ↦ inr (
        (eq_iff header.alg "EdDSA").0 ed,
        check_eddsa-ok v header.kid signing_input sig (ground arith),
      )
      | inr neither ↦ absurd (ground arith)
    ]
  ]

  is_alive-exp :
      (now : ℕ) (v : Option Value)
      → is_alive now v ≡ true
      → (exp : ℕ) × (v ≡ some (number (pos exp))) × (now ≤ exp * second)
  is_alive-exp now (some (number (pos exp))) e = (exp, refl, ground arith)
  is_alive-exp now none e = absurd (cc)
  is_alive-exp now (some (number (negsuc n))) e = absurd (cc)
  is_alive-exp now (some null) e = absurd (cc)
  is_alive-exp now (some (boolean b)) e = absurd (cc)
  is_alive-exp now (some (string s)) e = absurd (cc)
  is_alive-exp now (some (strings ss)) e = absurd (cc)
  is_alive-exp now (some (array vs)) e = absurd (cc)
  is_alive-exp now (some (object fs)) e = absurd (cc)

  -- A token that is verified locally is three parts of which the first is a header that does not
  -- name the step-up type; its signature is right for the algorithm that the header names, under
  -- a secret or public key that the verifier was given for that algorithm; and the returned claims
  -- are those of the middle part, name the verifier's issuer, and have not expired.
  pub verify_local-IsBearer :
      (v : Verifier) (now : ℕ) (token : Bytes) (claims : Fields)
      → verify_local crypto v now token ≡ ok claims
      → IsBearer v now token claims
  unfolding verify_local
  verify_local-IsBearer v now token claims e =
      elim (Option-cases (three_parts (split_dots token))) [
        | inl malformed ↦ absurd (ground arith)
        | inr (abc, parts) ↦ elim (Option-cases (decode abc.0)) [
          | inl malformed ↦ absurd (ground arith)
          | inr (head_json, head_decoded) ↦ elim (Option-cases (unmarshal_header head_json)) [
            | inl malformed ↦ absurd (ground arith)
            | inr (header, head_parsed) ↦
                elim (Result-cases (check_signature crypto v header (abc.0 ⊙ abc.1) abc.2)) [
                  | inr (bad, wrong) ↦ absurd (ground arith)
                  | inl (u, right) ↦ elim (Option-cases (decode abc.1)) [
                    | inl malformed ↦ absurd (ground arith)
                    | inr (body_json, body_decoded) ↦
                        elim (Option-cases (unmarshal_claims body_json)) [
                          | inl malformed ↦ absurd (ground arith)
                          | inr (found, body_parsed) ↦
                              let same : found ≡ claims = ground arith in
                              let (exp, expires, unexpired) =
                                is_alive-exp now (lookup "exp" claims) (ground arith) in
                              record {
                                head = abc.0;
                                body = abc.1;
                                sig = abc.2;
                                head_json = head_json;
                                body_json = body_json;
                                header = header;
                                exp = exp;
                                joined =
                                    sym (join_dots-split_dots token)
                                    ∙ three_parts-join (split_dots token) abc parts;
                                head_decoded = head_decoded;
                                head_parsed = head_parsed;
                                not_step_up = ground arith;
                                signed = check_signature-ok v header (abc.0 ⊙ abc.1) abc.2 right;
                                body_decoded = body_decoded;
                                body_parsed = rw (← same) body_parsed;
                                issued_here =
                                    (eq_iff (get_string claims "iss") v.local_issuer).0
                                      (ground arith);
                                expires = expires;
                                unexpired = unexpired;
                              }
                        ]
                  ]
                ]
          ]
        ]
      ]
