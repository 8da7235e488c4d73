-- ===== src/StepUp.antt =====
-- Step-up tokens: api/internal/auth/stepup.go, and the gate checkStepUp of
-- api/internal/handlers/identities.go.
pub mod Accept
pub mod Replay
pub mod Sample
mod Examples
use mod_users.Prelude.{
  ℕ, ◌+◌, String, Bool, true, false, not, Option, none, some, List, [], ◌∷◌, ltb, ◌==◌, select,
  if◌then◌else◌, ◌≡◌,
}
use mod_users.Api.{ok, err, Exec, ◌>>=◌, ◌>>◌, pure, raise, guard, row_or}
use mod_users.Tokens.{Bytes, Codec, codes, bytes_eq, is_empty, split_dots, ◌⊙◌}

unfoldable pub step_up_purpose : Bytes
step_up_purpose = codes "credential_change"

-- StepUpTTL in seconds.
abbrev pub step_up_ttl : ℕ
step_up_ttl = 300

pub record StepUpPayload : Type 0 where
  pub user_account_id : ℕ
  pub purpose : Bytes
  pub jti : Bytes
  pub exp : ℕ

-- encoding/json on the payload: what was marshalled is unmarshalled unchanged.
pub record PayloadJson : Type 0 where
  pub marshal : StepUpPayload → Bytes
  pub unmarshal : Bytes → Option StepUpPayload
  pub unmarshal-marshal : (p : StepUpPayload) → unmarshal (marshal p) ≡ some p

-- The consumed map: jti to its expiry.
abbrev pub Consumed : Type 0
Consumed = List (Bytes × ℕ)

unfoldable pub load : Bytes → Consumed → Option ℕ
load jti [] = none
load jti ((j, e) ∷ m) = if bytes_eq j jti then some e else load jti m

pub data StepUpError : Type 0 where
  step_up_required empty_secret no_randomness : StepUpError

abbrev pub T : Type 0 → Type 0
T A = Exec Consumed StepUpError A

-- storeConsumedJTI: LoadOrStore, which tells whether the jti was there and overwrites nothing.
unfoldable pub store_consumed_jti : Bytes → ℕ → Consumed → Bool × Consumed
store_consumed_jti jti exp m = elim (load jti m) [
  | some _ ↦ (true, m)
  | none ↦ (false, (jti, exp) ∷ m)
]

abbrev pub is_consumed_jti : Bytes → ℕ → T Bool
is_consumed_jti jti exp m = let (loaded, m') = store_consumed_jti jti exp m in (ok loaded, m')

-- One tick of StartStepUpJanitor.
abbrev pub is_unexpired : ℕ → Bytes × ℕ → Bool
is_unexpired now entry = not (ltb entry.1 now)

unfoldable pub janitor : ℕ → Consumed → Consumed
janitor now m = select (is_unexpired now) m

abbrev pub new_payload : ℕ → Bytes → ℕ → StepUpPayload
new_payload uid jti exp = record {
  user_account_id = uid;
  purpose = step_up_purpose;
  jti = jti;
  exp = exp;
}

-- The pattern of `len(parts) != 3`.
abbrev pub three_parts : List Bytes → Option (Bytes × Bytes × Bytes)
three_parts (a ∷ b ∷ c ∷ []) = some (a, b, c)
three_parts _ = none

module _ (codec : Codec) (json : PayloadJson) where
  open codec use {mac, encode, decode}
  open json use {marshal, unmarshal}

  unfoldable pub step_up_header : Bytes
  step_up_header = encode (codes "{\"alg\":\"HS256\",\"typ\":\"step-up\"}")

  unfoldable pub step_up_token : Bytes → StepUpPayload → Bytes
  step_up_token secret p =
      let signing_input : Bytes = step_up_header ⊙ encode (marshal p) in
      signing_input ⊙ encode (mac secret signing_input)

  -- IssueStepUpToken at the time `now`, with the random jti that it drew.
  unfoldable pub issue_step_up_token : ℕ → Option Bytes → Bytes → ℕ → ℕ → T (Bytes × Bytes × ℕ)
  unfolding step_up_token
  issue_step_up_token now random secret uid ttl = do
    guard (not (is_empty secret)) empty_secret
    jti ← row_or no_randomness random
    let exp = now + ttl
    pure (step_up_token secret (new_payload uid jti exp), jti, exp)

  -- VerifyStepUpToken at the time `now`.
  unfoldable pub verify_step_up_token : ℕ → Bytes → Bytes → ℕ → T Unit
  verify_step_up_token now secret token uid = do
    guard (not (is_empty secret)) step_up_required
    parts ← row_or step_up_required (three_parts (split_dots token))
    guard (bytes_eq parts.0 step_up_header) step_up_required
    guard (bytes_eq parts.2 (encode (mac secret (parts.0 ⊙ parts.1)))) step_up_required
    payload_json ← row_or step_up_required (decode parts.1)
    p ← row_or step_up_required (unmarshal payload_json)
    guard (not (ltb p.exp now)) step_up_required
    guard (bytes_eq p.purpose step_up_purpose) step_up_required
    guard (p.user_account_id == uid) step_up_required
    used ← is_consumed_jti p.jti p.exp
    guard (not used) step_up_required

  -- checkStepUp with the value of the X-Step-Up-Token header, "" where it is missing.
  unfoldable pub check_step_up : ℕ → Bool → Bytes → Bytes → ℕ → T Unit
  check_step_up now required secret token uid =
      if not required
      then pure tt
      else if is_empty token
      then raise step_up_required
      else verify_step_up_token now secret token uid
