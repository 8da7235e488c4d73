-- ===== src/EmailCode/Examples.antt =====
-- A small table with one account and one code, runs of the handlers on it, and the theorems at it.
use mod_users.Prelude.{
  ℕ, ◌≤◌, String, ◌≡◌, ◌≢◌, ◌↔◌, refl, ◌⊎◌, Bool, true, false, ◌||◌, none, some, List, [], ◌∷◌,
  str_eq, count, arith, eq_iff,
}
use mod_users.Api.{ok, err}
use mod_users.Accounts.{UserAccount, get_user_account_by_email}
use mod_users.EmailCode.Table.{
  EmailCode, Table, max_email_code_attempts, email_code_request_cooldown, get_active_email_code,
  has_recent_email_code, new_row, create_email_code_with_cooldown,
}
use mod_users.EmailCode.Verify.{
  Query, Env, VerifyBody, Db, Reply, session, step_up_token, bad_code, default_purpose,
  public_email_code_purpose, redeem, email_code_verify, step_up_verify,
}
use mod_users.EmailCode.Send.{Skip, send_email_code}
use mod_users.EmailCode.Race.{granted, System, Action, arrive, step, mint, run}
use mod_users.EmailCode.Race.Bounds.{
  IsKeyed, start, is_granted, has_guessed, single_use, at_most_five_guesses,
}
use mod_users.EmailCode.Race.Spacing.{IsSpaced, codes_stay-IsSpaced}
use mod_users.EmailCode.Race.Sequential.{two_steps, redeem-two_steps}
use mod_users.EmailCode.Success.{IsEntitled, verify_success, step_up_success}
use mod_users.EmailCode.Refusal.{IsRefused, IsRedeemed, refusal_cost, redeemed_code_is_used_up}
use mod_users.EmailCode.Cooldown.{send_within_cooldown, Sends, send_outcome}

abbrev ada : UserAccount
ada = record {
  id = 7;
  uuid = "ada";
  account_holder = 70;
  email = some "ada@x.org";
  email_verified_at = none;
  default_app_id = none;
}

abbrev login_code : EmailCode
login_code = new_row 100 7 "h1" "login" 400 1

abbrev change_code : EmailCode
change_code = new_row 90 7 "h2" "credential_change" 390 2

abbrev table : Table
table = record { rows = login_code ∷ change_code ∷ []; next_id = 3 }

abbrev db : Db
db = record { accounts = ada ∷ []; codes = table; compares = 0; outbox = [] }

abbrev matches : String → String → Bool
matches hash code = str_eq hash "h1" || str_eq code "222222"

abbrev env_at : ℕ → Env
env_at now = record {
  now = now;
  lock_wait = 0;
  fails = λ _. false;
  lower = λ s. s;
  canonical = λ s. s;
  matches = λ hash code. str_eq code "111111";
  issue_local_jwt = λ ua. some "token";
  issue_step_up_token = λ uid. some "stepup";
  generate_email_code = some ("111111", "h3");
}

abbrev good : VerifyBody
good = record { email = "ada@x.org"; code = "111111"; purpose = "" }

abbrev wrong : VerifyBody
wrong = record good { code = "999999" }

table-IsKeyed : IsKeyed table
table-IsKeyed = record { unique = λ i. ground arith; below = omega arith }

-- Two requests race for the same code, and both guess right: the first to consume it wins.
abbrev race : List Action
race =
    arrive 1 "111111"
    ∷ arrive 1 "111111"
    ∷ step 110 0
    ∷ step 110 1
    ∷ step 110 1
    ∷ step 110 0
    ∷ mint 200 3 7 "h9" "login" 500
    ∷ []

race_winner : count (is_granted 1) (run (env_at 110).matches race (start table)).threads ≡ 1
unfolding run mod_users.EmailCode.Race.perform mod_users.EmailCode.Race.advance_at
    mod_users.EmailCode.Race.advance mod_users.EmailCode.Table.claim_email_code_attempt
    mod_users.EmailCode.Table.consume_email_code
race_winner = refl

single_use_example : count (is_granted 1) (run (env_at 110).matches race (start table)).threads ≤ 1
single_use_example = single_use (env_at 110).matches table table-IsKeyed race 1

at_most_five_guesses_example :
    count (has_guessed 1) (run (env_at 110).matches race (start table)).threads ≤ 5
at_most_five_guesses_example = at_most_five_guesses (env_at 110).matches table table-IsKeyed race 1

codes_stay-IsSpaced_example : IsSpaced 5 (run (env_at 110).matches race (start table)).codes.rows
codes_stay-IsSpaced_example =
    codes_stay-IsSpaced 5 (env_at 110).matches race (start table)
      (tt, (tt, (tt, (tt, (tt, (tt, (omega arith, tt)))))))
      (ground (arith, eq_iff "credential_change" "login"))

abbrev login_db : Db
login_db = (email_code_verify (env_at 110) good db).1

verify_good : (email_code_verify (env_at 110) good db).0 ≡ ok (session "token" ada)
unfolding email_code_verify public_email_code_purpose get_user_account_by_email redeem
    get_active_email_code mod_users.EmailCode.Table.claim_email_code_attempt
    mod_users.EmailCode.Table.consume_email_code mod_users.EmailCode.Verify.finish
verify_good = refl

verify_wrong : (email_code_verify (env_at 110) wrong db).0 ≡ err bad_code
unfolding email_code_verify public_email_code_purpose get_user_account_by_email redeem
    get_active_email_code mod_users.EmailCode.Table.claim_email_code_attempt
verify_wrong = refl

redeem_good : (redeem (env_at 110) ada "login" "111111" db).0 ≡ ok tt
unfolding redeem get_active_email_code mod_users.EmailCode.Table.claim_email_code_attempt
    mod_users.EmailCode.Table.consume_email_code
redeem_good = refl

login_code_is_active : get_active_email_code 110 7 "login" table ≡ some login_code
unfolding get_active_email_code
login_code_is_active = refl

redeem-two_steps_example :
    ((redeem (env_at 110) ada "login" "111111" db).1.codes
      ≡ (two_steps (env_at 110) 1 "111111" table).1)
    × (((redeem (env_at 110) ada "login" "111111" db).0 ≡ ok tt)
        ↔ ((two_steps (env_at 110) 1 "111111" table).0 ≡ granted 1))
redeem-two_steps_example =
    redeem-two_steps (env_at 110) ada "login" "111111" db login_code (λ q. refl)
      login_code_is_active

verify_success_example :
    (ua : UserAccount) × (get_user_account_by_email (λ s. s) "ada@x.org" (ada ∷ []) ≡ some ua)
    × (public_email_code_purpose (default_purpose "") ≡ true)
    × IsEntitled (env_at 110) ua.id (default_purpose "") "111111" table
verify_success_example =
    verify_success (env_at 110) good db (session "token" ada) table-IsKeyed verify_good

step_up_good : (step_up_verify (env_at 110) 7 "111111" db).0 ≡ ok (step_up_token "stepup")
unfolding step_up_verify get_active_email_code mod_users.EmailCode.Table.claim_email_code_attempt
    mod_users.EmailCode.Table.consume_email_code
step_up_good = refl

step_up_success_test : IsEntitled (env_at 110) 7 "credential_change" "111111" table
step_up_success_test =
    step_up_success (env_at 110) 7 "111111" db (step_up_token "stepup") table-IsKeyed step_up_good

refusal_cost_example :
    ((email_code_verify (env_at 110) wrong db).1.compares ≡ 1)
    × ((((email_code_verify (env_at 110) wrong db).0 ≡ err bad_code)
          × IsRefused (env_at 110) wrong db)
        ⊎ IsRedeemed (env_at 110) wrong db)
unfolding public_email_code_purpose
refusal_cost_example = refusal_cost (env_at 110) wrong db refl refl refl refl refl refl refl

abbrev db_with_two : Db
db_with_two = record db {
  codes = record { rows = login_code ∷ new_row 10 7 "h0" "login" 500 0 ∷ []; next_id = 3 };
}

two-IsKeyed : IsKeyed db_with_two.codes
two-IsKeyed = record { unique = λ i. ground arith; below = omega arith }

redeem_two : (redeem (env_at 110) ada "login" "111111" db_with_two).0 ≡ ok tt
unfolding redeem get_active_email_code mod_users.EmailCode.Table.claim_email_code_attempt
    mod_users.EmailCode.Table.consume_email_code
redeem_two = refl

login_code_is_newest : get_active_email_code 110 7 "login" db_with_two.codes ≡ some login_code
unfolding get_active_email_code
login_code_is_newest = refl

older_is_next :
    get_active_email_code 120 7 "login"
      (redeem (env_at 110) ada "login" "111111" db_with_two).1.codes
    ≡ some (new_row 10 7 "h0" "login" 500 0)
unfolding redeem get_active_email_code mod_users.EmailCode.Table.claim_email_code_attempt
    mod_users.EmailCode.Table.consume_email_code
older_is_next = refl

redeemed_code_is_used_up_test : (new_row 10 7 "h0" "login" 500 0).id ≢ login_code.id
redeemed_code_is_used_up_test =
    redeemed_code_is_used_up (env_at 110) ada "login" "111111" db_with_two login_code
      (new_row 10 7 "h0" "login" 500 0) 120 7 "login" two-IsKeyed login_code_is_newest redeem_two
      older_is_next

found_ada : get_user_account_by_email (λ s. s) "ada@x.org" (ada ∷ []) ≡ some ada
unfolding get_user_account_by_email
found_ada = refl

recent_login : has_recent_email_code 110 7 "login" email_code_request_cooldown table ≡ true
unfolding has_recent_email_code
recent_login = refl

send_within_cooldown_test :
    ((send_email_code (env_at 110) "ada@x.org" "login" db).1.outbox ≡ [])
    × ((send_email_code (env_at 110) "ada@x.org" "login" db).1.codes ≡ table)
send_within_cooldown_test =
    send_within_cooldown (env_at 110) "ada@x.org" "login" ada db found_ada recent_login

send_later : (send_email_code (env_at 160) "ada@x.org" "login" db).0 ≡ ok tt
unfolding send_email_code has_recent_email_code create_email_code_with_cooldown
    get_user_account_by_email public_email_code_purpose
send_later = refl

send_outcome_example :
    ((skip : Skip) × ((send_email_code (env_at 160) "ada@x.org" "login" db).0 ≡ err skip)
      × ((send_email_code (env_at 160) "ada@x.org" "login" db).1.outbox ≡ []))
    ⊎ (((send_email_code (env_at 160) "ada@x.org" "login" db).0 ≡ ok tt)
        × Sends (env_at 160) "ada@x.org" "login" db)
send_outcome_example = send_outcome (env_at 160) "ada@x.org" "login" db
