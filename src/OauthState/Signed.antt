-- ===== src/OauthState/Signed.antt =====
-- What a verified state is, and that a signed one is verified until it expires.
use mod_users.Prelude.{
  ℕ, ◌≤◌, ◌≡◌, refl, sym, ◌∙◌, ap, some, inl, inr, Option-cases, List, [], ◌∷◌, arith, ltb,
  if◌then◌else◌,
}
use mod_users.Api.{ok, err}
use mod_users.Tokens.{Bytes, Codec, split_dots, ◌⊙◌}
use mod_users.Tokens.Split.{
  bytes_eq_iff, split_dots-whole, split_dots-join, join_dots, join_dots-split_dots,
}
use mod_users.OauthState.{StatePayload, StateJson, expired, two_parts, sign, verify}

two_parts-join :
    (parts : List Bytes) (ab : Bytes × Bytes)
    → two_parts parts ≡ some ab
    → join_dots parts ≡ ab.0 ⊙ ab.1
two_parts-join (x ∷ y ∷ []) ab e = ground arith
two_parts-join [] ab e = cc
two_parts-join (x ∷ []) ab e = cc
two_parts-join (x ∷ y ∷ z ∷ r) ab e = cc

module _ (codec : Codec) (json : StateJson) (key : Bytes) where
  open codec use {mac, encode, decode}
  open json use {marshal, unmarshal}

  sign-parts :
      (p : StatePayload)
      → split_dots (sign codec json key p)
        ≡ encode (marshal p) ∷ encode (mac key (encode (marshal p))) ∷ []
  unfolding sign
  sign-parts p =
      split_dots-join (encode (marshal p)) _ (codec.encode_no_dot (marshal p))
      ∙ ap (λ (ps : List Bytes). encode (marshal p) ∷ ps)
          (split_dots-whole _ (codec.encode_no_dot _))

  -- A signed state is verified, and gives back the payload that was signed, exactly while the clock
  -- has not passed its expiry; after that it is refused as expired.
  pub verify-sign :
      (now : ℕ) (p : StatePayload)
      → (verify codec json now key (sign codec json key p) tt).0
        ≡ (if ltb p.expires now then err expired else ok p)
  unfolding verify
  verify-sign now p = rw (sign-parts p) (
      ground (
        arith,
        (bytes_eq_iff (encode (mac key (encode (marshal p)))) _).1 refl,
        codec.decode-encode (marshal p),
        json.unmarshal-marshal p,
      ))

  -- A token is verified only if it is some body with that body's MAC under the key, the body holds
  -- the payload that is returned, and the payload has not expired.
  pub verify_sound :
      (now : ℕ) (token : Bytes) (p : StatePayload)
      → (verify codec json now key token tt).0 ≡ ok p
      → (body : Bytes) × (raw : Bytes) × (token ≡ body ⊙ encode (mac key body))
        × (decode body ≡ some raw)
        × (unmarshal raw ≡ some p)
        × (now ≤ p.expires)
  unfolding verify
  verify_sound now token p e = elim (Option-cases (two_parts (split_dots token))) [
    | inl malformed ↦ absurd (ground arith)
    | inr (ab, parts) ↦ elim (Option-cases (decode ab.0)) [
      | inl malformed ↦ absurd (ground arith)
      | inr (raw, decoded) ↦
          let whole : token ≡ ab.0 ⊙ ab.1 =
            sym (join_dots-split_dots token) ∙ two_parts-join (split_dots token) ab parts in
          let mac_ok : ab.1 ≡ encode (mac key ab.0) =
            (bytes_eq_iff ab.1 (encode (mac key ab.0))).0 (ground arith) in
          (
            ab.0,
            raw,
            whole ∙ ap (λ (s : Bytes). ab.0 ⊙ s) mac_ok,
            decoded,
            ground arith,
            ground arith,
          )
    ]
  ]
