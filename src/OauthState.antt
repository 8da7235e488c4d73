-- ===== src/OauthState.antt =====
-- The signed OAuth state: api/internal/auth/oauth_state.go.
pub mod Signed
mod Examples
use mod_users.Prelude.{
  ℕ, String, ◌≡◌, Bool, not, Option, none, some, List, [], ◌∷◌, ltb, if◌then◌else◌,
}
use mod_users.Api.{Result, ok, err, Exec, ◌>>=◌, ◌>>◌, pure, guard, row_or}
use mod_users.Tokens.{Bytes, Codec, bytes_eq, is_empty, split_dots, ◌⊙◌}

pub record StatePayload : Type 0 where
  pub provider : Bytes
  pub return_path : Bytes
  pub nonce : Bytes
  pub expires : ℕ
  pub test_mode : Bool
  pub link_mode : Bool
  pub link_user_account_id : Bytes

-- encoding/json on the payload: what was marshalled is unmarshalled unchanged.
pub record StateJson : Type 0 where
  pub marshal : StatePayload → Bytes
  pub unmarshal : Bytes → Option StatePayload
  pub unmarshal-marshal : (p : StatePayload) → unmarshal (marshal p) ≡ some p

pub data StateError : Type 0 where
  empty_key malformed signature_mismatch bad_body bad_json expired : StateError

-- Expired.
abbrev pub is_expired : ℕ → StatePayload → Bool
is_expired now p = ltb p.expires now

-- NewStateSigner.
unfoldable pub new_state_signer : Bytes → Result StateError Bytes
new_state_signer key = if is_empty key then err empty_key else ok key

abbrev pub two_parts : List Bytes → Option (Bytes × Bytes)
two_parts (a ∷ b ∷ []) = some (a, b)
two_parts _ = none

module _ (codec : Codec) (json : StateJson) where
  open codec use {mac, encode, decode}
  open json use {marshal, unmarshal}

  -- Sign.
  unfoldable pub sign : Bytes → StatePayload → Bytes
  sign key payload =
      let body_encoded : Bytes = encode (marshal payload) in
      body_encoded ⊙ encode (mac key body_encoded)

  -- Verify at the time `now`; nothing is stored.
  unfoldable pub verify : ℕ → Bytes → Bytes → Exec Unit StateError StatePayload
  verify now key token = do
    parts ← row_or malformed (two_parts (split_dots token))
    guard (bytes_eq parts.1 (encode (mac key parts.0))) signature_mismatch
    body_bytes ← row_or bad_body (decode parts.0)
    payload ← row_or bad_json (unmarshal body_bytes)
    guard (not (is_expired now payload)) expired
    pure payload
