-- ===== src/StepUp/Examples.antt =====
-- A secret and a token, and the theorems at them.
use mod_users.Prelude.{◌≡◌, refl, some, List, [], ◌∷◌, arith}
use mod_users.Api.{ok, err}
use mod_users.Tokens.{Bytes}
use mod_users.Tokens.Sample.{sample_codec}
use mod_users.StepUp.{
  StepUpPayload, PayloadJson, Consumed, step_up_ttl, new_payload, issue_step_up_token,
  step_up_token, verify_step_up_token, step_up_required,
}
use mod_users.StepUp.Sample.{json}
use mod_users.StepUp.Accept.{IsAccepted, verify_accepts, verify-issue}
use mod_users.StepUp.Replay.{Use, present, tick, use_all, no_replay}

abbrev secret : Bytes
secret = 1 ∷ 2 ∷ []

abbrev jti : Bytes
jti = 9 ∷ []

abbrev token : Bytes
token = step_up_token sample_codec json secret (new_payload 7 jti 400)

issued :
    (issue_step_up_token sample_codec json 100 (some jti) secret 7 step_up_ttl []).0
    ≡ ok (token, jti, 400)
unfolding issue_step_up_token
issued = refl

verify-issue_example :
    verify_step_up_token sample_codec json 150 secret token 7 [] ≡ (ok tt, (jti, 400) ∷ [])
unfolding mod_users.StepUp.load
verify-issue_example =
    verify-issue sample_codec json 150 secret 7 [] 100 step_up_ttl jti token 400 issued
      (omega arith) refl

accepted : (verify_step_up_token sample_codec json 150 secret token 7 []).0 ≡ ok tt
unfolding verify_step_up_token mod_users.Tokens.split_dots step_up_token
    mod_users.StepUp.step_up_header mod_users.StepUp.step_up_purpose
    mod_users.StepUp.store_consumed_jti mod_users.StepUp.load
accepted = refl

verify_accepts_example :
    (a : IsAccepted sample_codec json 150 secret token 7 []) × ((verify_step_up_token sample_codec
        json 150 secret token 7 []).1
      ≡ (a.payload.jti, a.payload.exp) ∷ [])
verify_accepts_example = verify_accepts sample_codec json 150 secret token 7 [] accepted

abbrev between : List Use
between = tick 160 ∷ present 170 token 7 ∷ tick 400 ∷ []

no_replay_example :
    (verify_step_up_token sample_codec json 400 secret token 7 (
      use_all sample_codec json secret between
        (verify_step_up_token sample_codec json 150 secret token 7 []).1)).0
    ≡ err step_up_required
no_replay_example =
    no_replay sample_codec json secret 150 token 7 [] between 400 7 accepted (omega arith)
      (omega arith)
