-- ===== src/Jwt/Separate.antt =====
-- Bearer tokens and step-up tokens share a secret and are never taken for one another.
use mod_users.Prelude.{ℕ, ◌≡◌, refl, true, some, inl, inr, Option-cases, arith, ap, ◌∙◌}
use mod_users.Api.{ok, err}
use mod_users.Tokens.{Bytes, codes, split_dots}
use mod_users.Tokens.Split.{bytes_eq_iff}
use mod_users.StepUp.{PayloadJson, Consumed, three_parts, step_up_header, verify_step_up_token}
use mod_users.Jwt.{Header, Crypto, Verifier, equal_fold, step_up_token, verify_local}

step_up_type : equal_fold "step-up" "step-up" ≡ true
unfolding equal_fold
step_up_type = refl

module _ (crypto : Crypto) (json : PayloadJson) where
  open crypto.codec use {decode}

  header_of_accepted :
      (now uid : ℕ) (secret token : Bytes) (m : Consumed) (abc : Bytes × Bytes × Bytes)
      → three_parts (split_dots token) ≡ some abc
      → (verify_step_up_token crypto.codec json now secret token uid m).0 ≡ ok tt
      → abc.0 ≡ step_up_header crypto.codec json
  unfolding verify_step_up_token
  header_of_accepted now uid secret token m abc parts e =
      (bytes_eq_iff abc.0 (step_up_header crypto.codec json)).0 (ground arith)

  refused_by_header :
      (v : Verifier) (now : ℕ) (token : Bytes) (abc : Bytes × Bytes × Bytes) (h : Header)
      → three_parts (split_dots token) ≡ some abc
      → abc.0 ≡ step_up_header crypto.codec json
      → crypto.unmarshal_header (codes "{\"alg\":\"HS256\",\"typ\":\"step-up\"}") ≡ some h
      → h.typ ≡ "step-up"
      → verify_local crypto v now token ≡ err step_up_token
  unfolding verify_local step_up_header
  refused_by_header v now token abc h parts first parsed typ =
      let raw : decode abc.0 ≡ some (codes "{\"alg\":\"HS256\",\"typ\":\"step-up\"}") =
        ap decode first
        ∙ crypto.codec.decode-encode (codes "{\"alg\":\"HS256\",\"typ\":\"step-up\"}") in
      let folded : equal_fold h.typ "step-up" ≡ true = rw typ step_up_type in
      rw (parts, raw, parsed, folded) refl

  -- Where JSON gives the header of the step-up tokens its type, a token that is accepted as a step-up
  -- token, under whatever secret and for whatever account, is not accepted as a local bearer token:
  -- verify_local refuses it, for what it is, with every verifier at every time, one with the same
  -- secret included. What an OpenID provider would say of it is not part of the statement.
  pub step_up_is_not_bearer :
      (v : Verifier) (now later uid : ℕ) (secret token : Bytes) (m : Consumed) (h : Header)
      → crypto.unmarshal_header (codes "{\"alg\":\"HS256\",\"typ\":\"step-up\"}") ≡ some h
      → h.typ ≡ "step-up"
      → (verify_step_up_token crypto.codec json now secret token uid m).0 ≡ ok tt
      → verify_local crypto v later token ≡ err step_up_token
  step_up_is_not_bearer v now later uid secret token m h parsed typ accepted =
      elim (Option-cases (three_parts (split_dots token))) [
        | inl malformed ↦ absurd (unfold verify_step_up_token in ground arith)
        | inr (abc, parts) ↦
            refused_by_header v later token abc h parts
              (header_of_accepted now uid secret token m abc parts accepted) parsed typ
      ]
