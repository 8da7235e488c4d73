-- ===== src/StepUp/Accept.antt =====
-- Which step-up tokens are accepted.
use mathlib.Core.List.{append_assoc}
use mod_users.Prelude.{
  ℕ, ◌+◌, ◌≤◌, ◌≡◌, refl, sym, ◌∙◌, true, false, Option, none, some, inl, inr, Option-cases, List,
  [], ◌∷◌, ap, arith,
}
use mod_users.Api.{ok}
use mod_users.Tokens.{Bytes, Codec, bytes_eq, is_empty, split_dots, dot, ◌⊙◌, codes}
use mod_users.Tokens.Split.{
  bytes_eq_iff, NoDot, split_dots-whole, split_dots-join, join_dots, join_dots-split_dots,
}
use mod_users.StepUp.{
  StepUpPayload, PayloadJson, Consumed, step_up_purpose, load, store_consumed_jti, three_parts,
  new_payload, step_up_header, step_up_token, issue_step_up_token, verify_step_up_token,
}

pub three_parts-join :
    (parts : List Bytes) (abc : Bytes × Bytes × Bytes)
    → three_parts parts ≡ some abc
    → join_dots parts ≡ abc.0 ⊙ (abc.1 ⊙ abc.2)
three_parts-join (x ∷ y ∷ z ∷ []) abc e = ground arith
three_parts-join [] abc e = cc
three_parts-join (x ∷ []) abc e = cc
three_parts-join (x ∷ y ∷ []) abc e = cc
three_parts-join (x ∷ y ∷ z ∷ w ∷ r) abc e = cc

pub bytes_eq_refl : (b : Bytes) → bytes_eq b b ≡ true
bytes_eq_refl b = (bytes_eq_iff b b).1 refl

-- A token whose first and last parts are known.
rejoined :
    (mac_of : Bytes → Bytes) (token header : Bytes) (abc : Bytes × Bytes × Bytes)
    → three_parts (split_dots token) ≡ some abc
    → bytes_eq abc.0 header ≡ true
    → bytes_eq abc.2 (mac_of (abc.0 ⊙ abc.1)) ≡ true
    → token ≡ header ⊙ (abc.1 ⊙ mac_of (header ⊙ abc.1))
rejoined mac_of token header abc parts h k =
    let whole : token ≡ abc.0 ⊙ (abc.1 ⊙ abc.2) =
      sym (join_dots-split_dots token) ∙ three_parts-join (split_dots token) abc parts in
    let first : abc.0 ≡ header = (bytes_eq_iff abc.0 header).0 h in
    let last : abc.2 ≡ mac_of (abc.0 ⊙ abc.1) = (bytes_eq_iff abc.2 (mac_of (abc.0 ⊙ abc.1))).0 k in
    whole ∙ rw (last, first) refl

module _ (codec : Codec) (json : PayloadJson) where
  open codec use {mac, encode, decode}
  open json use {marshal, unmarshal}

  payload_of_body : Option Bytes → Option StepUpPayload
  payload_of_body none = none
  payload_of_body (some raw) = unmarshal raw

  payload_of_parts : Option (Bytes × Bytes × Bytes) → Option StepUpPayload
  payload_of_parts none = none
  payload_of_parts (some parts) = payload_of_body (decode parts.1)

  -- The payload that a token carries, whoever signed it.
  unfoldable pub payload_of : Bytes → Option StepUpPayload
  unfolding payload_of_parts payload_of_body
  payload_of token = payload_of_parts (three_parts (split_dots token))

  -- What an accepted token is: a header, a payload and their MAC under a key that is not empty; the
  -- payload is for this account and purpose, has not expired, and its jti was not used before.
  pub record IsAccepted (now : ℕ) (secret token : Bytes) (uid : ℕ) (m : Consumed) : Type 0 where
    pub payload : StepUpPayload
    pub body : Bytes
    pub keyed : is_empty secret ≡ false
    pub signed :
        token
        ≡ step_up_header codec json
          ⊙ (body ⊙ encode (mac secret (step_up_header codec json ⊙ body)))
    pub carried : payload_of token ≡ some payload
    pub unexpired : now ≤ payload.exp
    pub for_purpose : payload.purpose ≡ step_up_purpose
    pub bound : payload.user_account_id ≡ uid
    pub unused : load payload.jti m ≡ none

  module _ (now : ℕ) (secret token : Bytes) (uid : ℕ) (m : Consumed) where
    -- A token that is accepted is one that was signed with the secret for this account and purpose,
    -- is not past its expiry, and has a jti that the cache does not hold; the cache then holds it
    -- with its expiry, and is otherwise as it was.
    pub verify_accepts :
        (verify_step_up_token codec json now secret token uid m).0 ≡ ok tt
        → (a : IsAccepted now secret token uid m) × ((verify_step_up_token codec json now secret
              token uid m).1
            ≡ (a.payload.jti, a.payload.exp) ∷ m)
    unfolding verify_step_up_token payload_of store_consumed_jti
    verify_accepts e = elim (Option-cases (three_parts (split_dots token))) [
      | inl malformed ↦ absurd (ground arith)
      | inr (abc, parts) ↦ elim (Option-cases (decode abc.1)) [
        | inl malformed ↦ absurd (ground arith)
        | inr (raw, decoded) ↦ elim (Option-cases (unmarshal raw)) [
          | inl malformed ↦ absurd (ground arith)
          | inr (p, parsed) ↦ (
            record {
              payload = p;
              body = abc.1;
              keyed = ground arith;
              signed =
                  rejoined (λ b. encode (mac secret b)) token (step_up_header codec json) abc parts
                    (ground arith) (ground arith);
              carried = ground arith;
              unexpired = ground arith;
              for_purpose = ground (arith, bytes_eq_iff p.purpose step_up_purpose);
              bound = ground arith;
              unused = ground arith;
            },
            ground arith,
          )
        ]
      ]
    ]

  pub header-NoDot : NoDot (step_up_header codec json)
  unfolding step_up_header
  header-NoDot = codec.encode_no_dot (codes "{\"alg\":\"HS256\",\"typ\":\"step-up\"}")

  step_up_token-parts :
      (secret : Bytes) (p : StepUpPayload)
      → split_dots (step_up_token codec json secret p)
        ≡ step_up_header codec json
          ∷ encode (marshal p)
          ∷ encode (mac secret (step_up_header codec json ⊙ encode (marshal p)))
          ∷ []
  unfolding step_up_token
  step_up_token-parts secret p =
      let h : Bytes = step_up_header codec json in
      let b : Bytes = encode (marshal p) in
      let s : Bytes = encode (mac secret (h ⊙ b)) in
      let whole : (h ⊙ b) ⊙ s ≡ h ⊙ (b ⊙ s) = append_assoc h (dot ∷ b) (dot ∷ s) in
      ap split_dots whole
      ∙ split_dots-join h (b ⊙ s) header-NoDot
      ∙ ap (λ (ps : List Bytes). h ∷ ps) (split_dots-join b s (codec.encode_no_dot (marshal p)))
      ∙ ap (λ (ps : List Bytes). h ∷ b ∷ ps) (split_dots-whole s (codec.encode_no_dot _))

  module _ (now : ℕ) (secret : Bytes) (uid : ℕ) (m : Consumed) where
    verify-signed :
        (p : StepUpPayload)
        → is_empty secret ≡ false
        → now ≤ p.exp
        → p.purpose ≡ step_up_purpose
        → p.user_account_id ≡ uid
        → load p.jti m ≡ none
        → verify_step_up_token codec json now secret (step_up_token codec json secret p) uid m
          ≡ (ok tt, (p.jti, p.exp) ∷ m)
    unfolding verify_step_up_token store_consumed_jti
    verify-signed p keyed alive purpose bound unused = rw (step_up_token-parts secret p) (
        ground (
          arith,
          bytes_eq_refl (step_up_header codec json),
          bytes_eq_refl (encode (mac secret (step_up_header codec json ⊙ encode (marshal p)))),
          codec.decode-encode (marshal p),
          json.unmarshal-marshal p,
          bytes_eq_iff p.purpose step_up_purpose,
        ))

    -- A token that was issued for an account, with a jti that the cache does not hold, is accepted
    -- for that account until it expires, in the second of its expiry too.
    pub verify-issue :
        (issued ttl : ℕ) (jti : Bytes) (token : Bytes) (exp : ℕ)
        → (issue_step_up_token codec json issued (some jti) secret uid ttl m).0
          ≡ ok (token, jti, exp)
        → now ≤ issued + ttl
        → load jti m ≡ none
        → verify_step_up_token codec json now secret token uid m ≡ (ok tt, (jti, issued + ttl) ∷ m)
    unfolding issue_step_up_token
    verify-issue issued ttl jti token exp e h unused =
        let p : StepUpPayload = new_payload uid jti (issued + ttl) in
        let keyed : is_empty secret ≡ false = ground arith in
        let same : token ≡ step_up_token codec json secret p = ground arith in
        rw same (verify-signed p keyed h refl refl unused)
