-- ===== src/OauthState/Examples.antt =====
-- A key and a state, and the theorems at them.
use mod_users.Prelude.{
  ℕ, ◌≤◌, ◌≡◌, refl, Bool, true, false, Option, none, some, [], ◌∷◌, ◌++◌, length, take, drop, ◌==◌,
}
use mod_users.Api.{ok}
use mod_users.Tokens.{Bytes, ◌⊙◌}
use mod_users.Tokens.Sample.{sample_codec, take-length, drop-length}
use mod_users.OauthState.{StatePayload, StateJson, sign, verify}
use mod_users.OauthState.Signed.{verify-sign, verify_sound}

abbrev bit : Bool → ℕ
bit true = 1
bit false = 0

abbrev text : Bytes → Bytes → Bytes
text b rest = length b ∷ b ++ rest

abbrev marshal : StatePayload → Bytes
marshal p =
    p.expires
    ∷ bit p.test_mode
    ∷ bit p.link_mode
    ∷ text p.provider (text p.return_path (text p.nonce p.link_user_account_id))

-- Three texts with their lengths, and the rest.
abbrev cut : (Bytes → Bytes → Option StatePayload) → Bytes → Option StatePayload
cut k [] = none
cut k (n ∷ rest) = k (take n rest) (drop n rest)

abbrev unmarshal : Bytes → Option StatePayload
unmarshal (e ∷ t ∷ l ∷ rest) =
    cut
      (λ provider r.
        cut
          (λ path r'.
            cut
              (λ nonce r''. some (record {
                provider = provider;
                return_path = path;
                nonce = nonce;
                expires = e;
                test_mode = t == 1;
                link_mode = l == 1;
                link_user_account_id = r'';
              }))
              r')
          r)
      rest
unmarshal _ = none

bit_one : (b : Bool) → (bit b == 1) ≡ b
bit_one true = refl
bit_one false = refl

unmarshal-marshal : (p : StatePayload) → unmarshal (marshal p) ≡ some p
unmarshal-marshal p = simp (take-length, drop-length, bit_one)

abbrev json : StateJson
json = record { marshal = marshal; unmarshal = unmarshal; unmarshal-marshal = unmarshal-marshal }

abbrev key : Bytes
key = 5 ∷ []

abbrev state : StatePayload
state = record {
  provider = 1 ∷ [];
  return_path = 2 ∷ 3 ∷ [];
  nonce = [];
  expires = 300;
  test_mode = false;
  link_mode = true;
  link_user_account_id = 4 ∷ [];
}

verify-sign_test :
    (verify sample_codec json 200 key (sign sample_codec json key state) tt).0 ≡ ok state
verify-sign_test = verify-sign sample_codec json key 200 state

verified : (verify sample_codec json 200 key (sign sample_codec json key state) tt).0 ≡ ok state
unfolding verify mod_users.Tokens.split_dots sign
verified = refl

verify_sound_example :
    (body : Bytes) × (raw : Bytes) × (sign sample_codec json key state
      ≡ body ⊙ sample_codec.encode (sample_codec.mac key body))
    × (sample_codec.decode body ≡ some raw)
    × (unmarshal raw ≡ some state)
    × (200 ≤ 300)
verify_sound_example =
    verify_sound sample_codec json key 200 (sign sample_codec json key state) state verified
