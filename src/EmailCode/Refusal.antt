-- ===== src/EmailCode/Refusal.antt =====
-- What a refused guess costs and shows, and that a used code is used up.
use mod_users.Prelude.{
  ℕ, ◌+◌, String, ◌≡◌, ◌≢◌, none, some, ◌⊎◌, inl, inr, true, false, str_eq, ◌==◌, arith, ap,
  Option-cases, Bool-cases,
}
use mod_users.Api.{ok, err}
use mod_users.Accounts.{UserAccount, get_user_account_by_email}
use mod_users.EmailCode.Table.{
  EmailCode, Table, max_email_code_attempts, get_active_email_code, claim_email_code_attempt,
  consume_email_code,
}
use mod_users.EmailCode.Verify.{
  Db, Env, VerifyBody, get_user, get_code, claim, consume, bad_code, redeem, finish,
  default_purpose, public_email_code_purpose, email_code_verify,
}
use mod_users.EmailCode.Race.Weights.{live, live-claim_rows, live-consume_rows}
use mod_users.EmailCode.Race.Bounds.{IsKeyed, live-le-count}
use mod_users.EmailCode.Success.{get_active-Among, live_of_Among, redeem-PassedGate}

-- With the loaded code: no attempt is left, the guess is wrong, or another request consumed the code.
abbrev pub IsMissed : Env → String → ℕ → Table → Type 0
IsMissed env code id t =
    ((claim_email_code_attempt id max_email_code_attempts env.now t).0 ≡ none)
    ⊎ ((row : EmailCode) × ((claim_email_code_attempt id max_email_code_attempts env.now t).0
          ≡ some row)
        × ((env.matches row.code_hash code ≡ false)
            ⊎ ((row.consumed_at ≡ none)
                × ((consume_email_code id env.now
                      (claim_email_code_attempt id max_email_code_attempts env.now t).1).0
                    ≡ 0))))

-- Why a guess is refused: the email is unknown, no code is active, the code is used up, the guess is
-- wrong, or another request consumed the code first.
abbrev pub IsRefused : Env → VerifyBody → Db → Type 0
IsRefused env req db =
    (get_user_account_by_email env.lower (env.canonical req.email) db.accounts ≡ none)
    ⊎ ((ua : UserAccount) × (get_user_account_by_email env.lower (env.canonical req.email)
            db.accounts
          ≡ some ua)
        × ((get_active_email_code env.now ua.id (default_purpose req.purpose) db.codes ≡ none)
            ⊎ ((c : EmailCode) × (get_active_email_code env.now ua.id (default_purpose req.purpose)
                    db.codes
                  ≡ some c)
                × IsMissed env req.code c.id db.codes)))

-- Past the guards: the account, and the redeemed code.
abbrev pub IsRedeemed : Env → VerifyBody → Db → Type 0
IsRedeemed env req db =
    (ua : UserAccount) × (get_user_account_by_email env.lower (env.canonical req.email) db.accounts
      ≡ some ua)
    × ((redeem env ua (default_purpose req.purpose) req.code db).0 ≡ ok tt)
    × (email_code_verify env req db
        ≡ finish env ua (default_purpose req.purpose)
            (redeem env ua (default_purpose req.purpose) req.code db).1)

redeem_outcome :
    (env : Env) (ua : UserAccount) (purpose code : String) (db : Db)
    → env.fails get_code ≡ false
    → env.fails claim ≡ false
    → env.fails consume ≡ false
    → ((redeem env ua purpose code db).1.compares ≡ db.compares + 1)
      × ((((redeem env ua purpose code db).0 ≡ err bad_code)
            × ((get_active_email_code env.now ua.id purpose db.codes ≡ none)
                ⊎ ((c : EmailCode) × (get_active_email_code env.now ua.id purpose db.codes ≡ some c)
                    × IsMissed env code c.id db.codes)))
          ⊎ ((redeem env ua purpose code db).0 ≡ ok tt))
unfolding redeem
redeem_outcome env ua purpose code db g c n =
    elim (Option-cases (get_active_email_code env.now ua.id purpose db.codes)) [
      | inl no_code ↦ ground arith
      | inr (email_code, active) ↦
          elim (Option-cases
            (claim_email_code_attempt email_code.id max_email_code_attempts env.now db.codes).0) [
              | inl used_up ↦
                  (ground arith, inl (ground arith, inr (email_code, active, inl used_up)))
              | inr (row, claimed) ↦ elim (Bool-cases (env.matches row.code_hash code)) [
                | inr wrong ↦ (
                  ground arith,
                  inl (ground arith, inr (email_code, active, inr (row, claimed, inl wrong))),
                )
                | inl right ↦ elim (Option-cases row.consumed_at) [
                  | inr (at, spent) ↦ (ground arith, inr (ground arith))
                  | inl unspent ↦
                      elim (Bool-cases (
                        (consume_email_code email_code.id env.now
                          (claim_email_code_attempt email_code.id max_email_code_attempts env.now
                            db.codes).1).0
                        == 0)) [
                          | inl lost ↦ (
                            ground arith,
                            inl (
                              ground arith,
                              inr (
                                email_code,
                                active,
                                inr (row, claimed, inr (unspent, ground arith)),
                              ),
                            ),
                          )
                          | inr won ↦ (ground arith, inr (ground arith))
                        ]
                ]
              ]
            ]
    ]

-- A well-formed guess on the public endpoint, while the database answers, costs one bcrypt
-- comparison, and is either refused, for whichever of the reasons of IsRefused and always with the
-- same answer, or redeems a code, and then the answer is that of the purpose's last step.
pub refusal_cost :
    (env : Env) (req : VerifyBody) (db : Db)
    → str_eq (env.canonical req.email) "" ≡ false
    → str_eq req.code "" ≡ false
    → public_email_code_purpose (default_purpose req.purpose) ≡ true
    → env.fails get_user ≡ false
    → env.fails get_code ≡ false
    → env.fails claim ≡ false
    → env.fails consume ≡ false
    → ((email_code_verify env req db).1.compares ≡ db.compares + 1)
      × ((((email_code_verify env req db).0 ≡ err bad_code) × IsRefused env req db)
          ⊎ IsRedeemed env req db)
unfolding email_code_verify finish
refusal_cost env req db e c p u g a n =
    elim (Option-cases
      (get_user_account_by_email env.lower (env.canonical req.email) db.accounts)) [
        | inl unknown ↦ (ground arith, inl (ground arith, inl unknown))
        | inr (ua, found) ↦
            let (cost, outcome) =
              redeem_outcome env ua (default_purpose req.purpose) req.code db g a n in
            elim outcome [
              | inl (refused, why) ↦
                  (ground (arith, cost), inl (ground (arith, refused), inr (ua, found, why)))
              | inr passed ↦
                  (ground (arith, cost, passed), inr (ua, found, passed, ground (arith, passed)))
            ]
      ]

redeem-used :
    (env : Env) (ua : UserAccount) (purpose code : String) (db : Db) (c r : EmailCode)
    → IsKeyed db.codes
    → get_active_email_code env.now ua.id purpose db.codes ≡ some c
    → (claim_email_code_attempt c.id max_email_code_attempts env.now db.codes).0 ≡ some r
    → (redeem env ua purpose code db).0 ≡ ok tt
    → live c.id (redeem env ua purpose code db).1.codes.rows ≡ 0
unfolding redeem claim_email_code_attempt consume_email_code
redeem-used env ua purpose code db c r keyed found claimed e = ground (
  arith,
  live-claim_rows c.id c.id env.now db.codes.rows,
  live-consume_rows c.id c.id env.now
      (claim_email_code_attempt c.id max_email_code_attempts env.now db.codes).1.rows,
  live-le-count c.id db.codes.rows,
  keyed.unique c.id,
)

-- If the table's ids are distinct and the gate of the public handler is passed, then the code that
-- was loaded is never loaded again from the table it leaves, at any time, for any user and purpose.
pub redeemed_code_is_used_up :
    (env : Env) (ua : UserAccount) (purpose code : String) (db : Db) (c d : EmailCode) (now uid : ℕ)
    (p : String)
    → IsKeyed db.codes
    → get_active_email_code env.now ua.id purpose db.codes ≡ some c
    → (redeem env ua purpose code db).0 ≡ ok tt
    → get_active_email_code now uid p (redeem env ua purpose code db).1.codes ≡ some d
    → d.id ≢ c.id
redeemed_code_is_used_up env ua purpose code db c d now uid p keyed loaded e found again =
    let (c', r, loaded', claimed, same) = redeem-PassedGate env ua purpose code db e in
    let c_same : c' ≡ c = cc (loaded, loaded') in
    let t : Table = (redeem env ua purpose code db).1.codes in
    let (listed, active) = get_active-Among now uid p t found in
    omega (
      arith,
      live_of_Among d t.rows listed (ground arith),
      ap (λ (i : ℕ). live i t.rows) again,
      ap (λ (x : EmailCode). live x.id t.rows) c_same,
      redeem-used env ua purpose code db c' r keyed loaded' claimed e,
    )
