-- ===== src/EmailCode/Verify.antt =====
-- EmailCodeVerify of api/internal/handlers/auth/emailcode.go and StepUpVerify of
-- api/internal/handlers/identities.go, from the decoded request on.
use mod_users.Prelude.{
  ℕ, ◌+◌, String, Bool, ◌||◌, Option, none, some, List, [], ◌∷◌, ◌++◌, str_eq, not, if◌then◌else◌,
  ◌==◌,
}
use mod_users.Api.{
  FieldError, ApiError, invalid_input, unauthenticated, internal, literal, ok, Exec, ◌>>=◌, ◌>>◌,
  pure, raise, guard, query, row_or,
}
use mod_users.Accounts.{UserAccount, get_user_account_by_email, update_user_account}
use mod_users.EmailCode.Table.{
  EmailCode, Table, max_email_code_attempts, get_active_email_code, claim_email_code_attempt,
  consume_email_code,
}

-- The tables, the number of bcrypt comparisons made, and the emails sent as (address, code).
pub record Db : Type 0 where
  pub accounts : List UserAccount
  pub codes : Table
  pub compares : ℕ
  pub outbox : List (String × String)

pub data Query : Type 0 where
  get_user get_code claim consume update_user has_recent create : Query

-- What one request meets: the clock, the seconds that a new code waits for its advisory lock, the database calls that fail, the text functions (the
-- database's lower; Go's lower-casing and trimming), bcrypt's comparison of a hash with a code, the
-- issuers of session and step-up tokens, which may fail, and a random code with its hash, which
-- may fail too.
pub record Env : Type 0 where
  pub now : ℕ
  pub lock_wait : ℕ
  pub fails : Query → Bool
  pub lower : String → String
  pub canonical : String → String
  pub matches : String → String → Bool
  pub issue_local_jwt : UserAccount → Option String
  pub issue_step_up_token : ℕ → Option String
  pub generate_email_code : Option (String × String)

pub record VerifyBody : Type 0 where
  pub email : String
  pub code : String
  pub purpose : String

-- A session token with its user, 204, or a step-up token.
pub data Reply : Type 0 where
  session : String → UserAccount → Reply
  no_content : Reply
  step_up_token : String → Reply

abbrev pub M : Type 0 → Type 0
M A = Exec Db ApiError A

abbrev pub bad_code : ApiError
bad_code = literal 401 "unauthenticated" "invalid or expired code"

abbrev pub look_up_failed : ApiError
look_up_failed = literal 500 "internal_error" "failed to look up code"

-- Every bcrypt comparison is counted, the discarded one of burnCodeCompare too.
abbrev pub compare_code : Env → String → String → M Bool
compare_code env hash code db =
    (ok (env.matches hash code), record db { compares = db.compares + 1 })

abbrev pub burn_code_compare : M Unit
burn_code_compare db = (ok tt, record db { compares = db.compares + 1 })

abbrev pub row_or_burn : {A : Type 0} → ApiError → Option A → M A
row_or_burn e none = burn_code_compare >> raise e
row_or_burn e (some a) = pure a

unfoldable pub public_email_code_purpose : String → Bool
public_email_code_purpose purpose = str_eq purpose "login" || str_eq purpose "verify_email"

unfoldable pub email_code_required_details : String → String → List FieldError
email_code_required_details email code =
    (if str_eq email ""
      then record { field = "email"; code = "users.email_required"; message = "email is required" }
        ∷ []
      else [])
    ++ (if str_eq code ""
        then record { field = "code"; code = "users.code_required"; message = "code is required" }
          ∷ []
        else [])

abbrev pub find_user : Env → String → M (Option UserAccount)
find_user env email =
    query (env.fails get_user) internal
      λ db. (get_user_account_by_email env.lower email db.accounts, db)

abbrev pub find_code : Env → ℕ → String → M (Option EmailCode)
find_code env uid purpose =
    query (env.fails get_code) internal
      λ db. (get_active_email_code env.now uid purpose db.codes, db)

abbrev pub claim_attempt : Env → ApiError → ℕ → M (Option EmailCode)
claim_attempt env e id = query (env.fails claim) e λ db.
    let (row, codes) = claim_email_code_attempt id max_email_code_attempts env.now db.codes in
    (row, record db { codes = codes })

abbrev pub consume_code : Env → ApiError → ℕ → M ℕ
consume_code env e id = query (env.fails consume) e λ db.
    let (n, codes) = consume_email_code id env.now db.codes in (n, record db { codes = codes })

-- `if claimed.ConsumedAt == nil { … }`: only the request that consumes the code goes on.
unfoldable pub settle : Env → ApiError → ApiError → ℕ → Option ℕ → M Unit
settle env e refused id (some _) = pure tt
settle env e refused id none = do n ← consume_code env e id; guard (not (n == 0)) refused

-- From the account on: the loaded code, the claimed attempt, the comparison, the consumption.
unfoldable pub redeem : Env → UserAccount → String → String → M Unit
unfolding settle
redeem env ua purpose code = do
  found ← find_code env ua.id purpose
  email_code ← row_or_burn bad_code found
  claimed_opt ← claim_attempt env look_up_failed email_code.id
  claimed ← row_or_burn bad_code claimed_opt
  same ← compare_code env claimed.code_hash code
  guard same bad_code
  settle env look_up_failed bad_code email_code.id claimed.consumed_at

abbrev pub mark_verified : Env → UserAccount → M Reply
mark_verified env ua = query (env.fails update_user) internal λ db. (
  no_content,
  record db { accounts = update_user_account ua.id ua.email (some env.now) db.accounts },
)

abbrev pub start_session : Env → UserAccount → M Reply
start_session env ua = do token ← row_or internal (env.issue_local_jwt ua); pure (session token ua)

unfoldable pub finish : Env → UserAccount → String → M Reply
finish env ua purpose =
    if str_eq purpose "login" then start_session env ua else mark_verified env ua

abbrev pub default_purpose : String → String
default_purpose purpose = if str_eq purpose "" then "login" else purpose

unfoldable pub email_code_verify : Env → VerifyBody → M Reply
email_code_verify env req = do
  let email = env.canonical req.email
  guard (not (str_eq email "" || str_eq req.code ""))
      (invalid_input (email_code_required_details email req.code))
  let purpose = default_purpose req.purpose
  guard (public_email_code_purpose purpose) (literal 400 "invalid_input" "invalid purpose")
  found ← find_user env email
  ua ← row_or_burn bad_code found
  redeem env ua purpose req.code
  finish env ua purpose

-- StepUpVerify, for the account of the request's session.
unfoldable pub step_up_verify : Env → ℕ → String → M Reply
unfolding settle
step_up_verify env uid code = do
  guard (not (str_eq code "")) (invalid_input [])
  found ← find_code env uid "credential_change"
  email_code ← row_or unauthenticated found
  claimed_opt ← claim_attempt env internal email_code.id
  claimed ← row_or_burn unauthenticated claimed_opt
  same ← compare_code env claimed.code_hash code
  guard same unauthenticated
  settle env internal unauthenticated email_code.id claimed.consumed_at
  token ← row_or internal (env.issue_step_up_token uid)
  pure (step_up_token token)
