-- ===== src/EmailCode/Send.antt =====
-- sendEmailCode of api/internal/handlers/auth/emailcode.go and sendStepUpCode of
-- api/internal/handlers/identities.go: the background work behind the two request endpoints.
use mod_users.Prelude.{ℕ, ◌+◌, String, Option, none, some, ◌∷◌, str_eq, not, if◌then◌else◌}
use mod_users.Api.{ok, err, Exec, ◌>>=◌, ◌>>◌, pure, raise, guard, query, row_or}
use mod_users.Accounts.{get_user_account_by_email}
use mod_users.EmailCode.Table.{
  EmailCode, email_code_request_cooldown, has_recent_email_code, create_email_code_with_cooldown,
}
use mod_users.EmailCode.Verify.{Db, get_user, has_recent, create, Env, public_email_code_purpose}

-- Why no email was sent: the requester never sees it.
pub data Skip : Type 0 where
  disallowed_purpose unknown_email no_address cooldown failed : Skip

abbrev pub S : Type 0 → Type 0
S A = Exec Db Skip A

-- The advisory pre-check: an error of it falls through.
unfoldable pub pre_check : Env → ℕ → String → S Unit
pre_check env uid purpose db =
    if env.fails has_recent
    then (ok tt, db)
    else if has_recent_email_code env.now uid purpose email_code_request_cooldown db.codes
    then (err cooldown, db)
    else (ok tt, db)

-- The authoritative cooldown and insert, with a lifetime of five minutes.
abbrev pub create_code : Env → ℕ → String → String → S (Option EmailCode)
create_code env uid purpose hash = query (env.fails create) failed λ db.
    let (row, codes) =
      create_email_code_with_cooldown env.now (env.now + env.lock_wait) uid hash purpose
        (env.now + 300) email_code_request_cooldown db.codes in
    (row, record db { codes = codes })

abbrev pub send : String → String → S Unit
send to code db = (ok tt, record db { outbox = (to, code) ∷ db.outbox })

-- `!ua.Email.Valid || ua.Email.String == ""`
abbrev pub address_of : Option String → S String
address_of none = raise no_address
address_of (some email) = if str_eq email "" then raise no_address else pure email

unfoldable pub send_email_code : Env → String → String → S Unit
unfolding pre_check
send_email_code env email purpose = do
  guard (public_email_code_purpose purpose) disallowed_purpose
  found ←
      query (env.fails get_user) failed
        (λ db. (get_user_account_by_email env.lower email db.accounts, db))
  ua ← row_or unknown_email found
  pre_check env ua.id purpose
  generated ← row_or failed env.generate_email_code
  created ← create_code env ua.id purpose generated.1
  row_or cooldown created
  to ← address_of ua.email
  send to generated.0

-- For the account and the address of the request's session.
unfoldable pub send_step_up_code : Env → ℕ → String → S Unit
unfolding pre_check
send_step_up_code env uid email = do
  guard (not (str_eq email "")) no_address
  pre_check env uid "credential_change"
  generated ← row_or failed env.generate_email_code
  created ← create_code env uid "credential_change" generated.1
  row_or cooldown created
  send email generated.0
