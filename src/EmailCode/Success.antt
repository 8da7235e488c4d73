-- ===== src/EmailCode/Success.antt =====
-- What a successful verification has established, and what it leaves.
use mod_users.Prelude.{
  ℕ, ◌≤◌, ◌<◌, String, ◌≡◌, refl, true, none, some, List, [], ◌∷◌, count, select, arith,
  Option-cases, inl, inr, eq_iff, Among, Among-select,
}
use mod_users.Api.{ok}
use mod_users.Accounts.{UserAccount, get_user_account_by_email}
use mod_users.EmailCode.Table.{
  EmailCode, Table, max_email_code_attempts, is_active, newest, get_active_email_code, claim_rows,
  claim_email_code_attempt,
}
use mod_users.EmailCode.Verify.{
  Db, Env, VerifyBody, Reply, default_purpose, public_email_code_purpose, redeem, email_code_verify,
  step_up_verify,
}
use mod_users.EmailCode.Race.Weights.{live}
use mod_users.EmailCode.Race.Bounds.{has_id, IsKeyed}

Among-newest : (c : EmailCode) (rows : List EmailCode) → newest rows ≡ some c → Among c rows
unfolding newest
Among-newest c [] e = cc
Among-newest c (r ∷ rows) e = ground (arith, Among-newest c rows)

-- The loaded code is a row of the table that is active for the user and the purpose.
pub get_active-Among :
    (now uid : ℕ) (purpose : String) (t : Table) {c : EmailCode}
    → get_active_email_code now uid purpose t ≡ some c
    → Among c t.rows × (is_active now uid purpose c ≡ true)
unfolding get_active_email_code
get_active-Among now uid purpose t {c} e =
    Among-select (is_active now uid purpose) c t.rows
      (Among-newest c (select (is_active now uid purpose) t.rows) e)

count_of_Among :
    (c : EmailCode) (rows : List EmailCode) → Among c rows → 1 ≤ count (has_id c.id) rows
count_of_Among c [] m = absurd m
count_of_Among c (r ∷ rows) m = ground (arith, count_of_Among c rows)

claim_rows-ne-some :
    (id max now : ℕ) (rows : List EmailCode)
    → count (has_id id) rows ≡ 0
    → (claim_rows id max now rows).0 ≡ none
unfolding claim_rows
claim_rows-ne-some id max now [] h = refl
claim_rows-ne-some id max now (r ∷ rows) h = ground (arith, claim_rows-ne-some id max now rows)

-- Where ids are distinct, the claimed row is the loaded one.
claim_rows-hash :
    (c r : EmailCode) (max now : ℕ) (rows : List EmailCode)
    → Among c rows
    → count (has_id c.id) rows ≤ 1
    → (claim_rows c.id max now rows).0 ≡ some r
    → r.code_hash ≡ c.code_hash
unfolding claim_rows
claim_rows-hash c r max now [] m u e = absurd m
claim_rows-hash c r max now (q ∷ rows) m u e = ground (
  arith,
  claim_rows-hash c r max now rows,
  claim_rows-ne-some c.id max now rows,
  count_of_Among c rows,
)

pub live_of_Among :
    (c : EmailCode) (rows : List EmailCode)
    → Among c rows
    → c.consumed_at ≡ none
    → 1 ≤ live c.id rows
live_of_Among c [] m u = absurd m
live_of_Among c (r ∷ rows) m u = ground (arith, live_of_Among c rows)

-- What a passed gate has checked: an active code of the user and the purpose, whose hash matches.
pub record IsEntitled (env : Env) (uid : ℕ) (purpose code : String) (t : Table) : Type 0 where
  pub row : EmailCode
  pub listed : Among row t.rows
  pub owner : row.user_account_id ≡ uid
  pub for_purpose : row.purpose ≡ purpose
  pub unused : row.consumed_at ≡ none
  pub unexpired : env.now < row.expires_at
  pub matched : env.matches row.code_hash code ≡ true

entitled :
    (env : Env) (uid : ℕ) (purpose code : String) (t : Table) (keyed : IsKeyed t) (c r : EmailCode)
    → get_active_email_code env.now uid purpose t ≡ some c
    → (claim_email_code_attempt c.id max_email_code_attempts env.now t).0 ≡ some r
    → env.matches r.code_hash code ≡ true
    → IsEntitled env uid purpose code t
unfolding claim_email_code_attempt
entitled env uid purpose code t keyed c r found claimed same =
    let (listed, active) = get_active-Among env.now uid purpose t found in
    let hash : r.code_hash ≡ c.code_hash =
      claim_rows-hash c r max_email_code_attempts env.now t.rows listed (keyed.unique c.id)
        claimed in
    record {
      row = c;
      listed = listed;
      owner = ground arith;
      for_purpose = ground (arith, eq_iff c.purpose purpose);
      unused = ground arith;
      unexpired = ground arith;
      matched = rw (← hash) same;
    }

-- The gate that both handlers pass: the code they load, the row they claim, and the comparison.
abbrev pub PassedGate : Env → ℕ → String → String → Table → Type 0
PassedGate env uid purpose code t =
    (c : EmailCode) × (r : EmailCode) × (get_active_email_code env.now uid purpose t ≡ some c)
    × ((claim_email_code_attempt c.id max_email_code_attempts env.now t).0 ≡ some r)
    × (env.matches r.code_hash code ≡ true)

pub redeem-PassedGate :
    (env : Env) (ua : UserAccount) (purpose code : String) (db : Db)
    → (redeem env ua purpose code db).0 ≡ ok tt
    → PassedGate env ua.id purpose code db.codes
unfolding redeem
redeem-PassedGate env ua purpose code db e =
    elim (Option-cases (get_active_email_code env.now ua.id purpose db.codes)) [
      | inl missing ↦ absurd (ground arith)
      | inr (c, found) ↦
          elim (Option-cases
            (claim_email_code_attempt c.id max_email_code_attempts env.now db.codes).0) [
              | inl refused ↦ absurd (ground arith)
              | inr (r, claimed) ↦ (c, r, found, claimed, ground arith)
            ]
    ]

step_up-PassedGate :
    (env : Env) (uid : ℕ) (code : String) (db : Db) (reply : Reply)
    → (step_up_verify env uid code db).0 ≡ ok reply
    → PassedGate env uid "credential_change" code db.codes
unfolding step_up_verify
step_up-PassedGate env uid code db reply e =
    elim (Option-cases (get_active_email_code env.now uid "credential_change" db.codes)) [
      | inl missing ↦ absurd (ground arith)
      | inr (c, found) ↦
          elim (Option-cases
            (claim_email_code_attempt c.id max_email_code_attempts env.now db.codes).0) [
              | inl refused ↦ absurd (ground arith)
              | inr (r, claimed) ↦ (c, r, found, claimed, ground arith)
            ]
    ]

-- The parts of a successful run of the public handler: the account, and the gate.
pub verify-parts :
    (env : Env) (req : VerifyBody) (db : Db) (reply : Reply)
    → (email_code_verify env req db).0 ≡ ok reply
    → (ua : UserAccount) × (get_user_account_by_email env.lower
          (env.canonical req.email)
          db.accounts
        ≡ some ua)
      × (public_email_code_purpose (default_purpose req.purpose) ≡ true)
      × ((redeem env ua (default_purpose req.purpose) req.code db).0 ≡ ok tt)
unfolding email_code_verify
verify-parts env req db reply e =
    elim (Option-cases
      (get_user_account_by_email env.lower (env.canonical req.email) db.accounts)) [
        | inl missing ↦ absurd (ground arith)
        | inr (ua, found) ↦ (ua, found, ground arith, ground arith)
      ]

-- If the table's ids are distinct and the public verification succeeds, then the request's purpose,
-- "login" where it is empty, is one of the public ones, the request's email names an account, and
-- the table held an unused and unexpired code of that account and purpose whose hash matches the
-- request's code.
pub verify_success :
    (env : Env) (req : VerifyBody) (db : Db) (reply : Reply)
    → IsKeyed db.codes
    → (email_code_verify env req db).0 ≡ ok reply
    → (ua : UserAccount) × (get_user_account_by_email env.lower
          (env.canonical req.email)
          db.accounts
        ≡ some ua)
      × (public_email_code_purpose (default_purpose req.purpose) ≡ true)
      × IsEntitled env ua.id (default_purpose req.purpose) req.code db.codes
verify_success env req db reply keyed e =
    let (ua, found, public, redeemed) = verify-parts env req db reply e in
    let (c, r, loaded, claimed, same) =
      redeem-PassedGate env ua (default_purpose req.purpose) req.code db redeemed in
    (
      ua,
      found,
      public,
      entitled env ua.id (default_purpose req.purpose) req.code db.codes keyed c r loaded claimed
          same,
    )

-- If the table's ids are distinct and the step-up verification of an account succeeds, then the
-- table held an unused and unexpired credential_change code of that account whose hash matches.
pub step_up_success :
    (env : Env) (uid : ℕ) (code : String) (db : Db) (reply : Reply)
    → IsKeyed db.codes
    → (step_up_verify env uid code db).0 ≡ ok reply
    → IsEntitled env uid "credential_change" code db.codes
step_up_success env uid code db reply keyed e =
    let (c, r, loaded, claimed, same) = step_up-PassedGate env uid code db reply e in
    entitled env uid "credential_change" code db.codes keyed c r loaded claimed same
