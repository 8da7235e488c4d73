-- ===== src/EmailCode/Table.antt =====
-- The email_codes table and its queries: model/db/email_codes.sql.go, model/db/models.go and
-- model/migrations/sql/0103_email_code_cooldown_function.sql. Times are whole seconds. `id` is the
-- primary key, drawn from a sequence, so an UPDATE by `id` touches one row at most.
use mod_users.Prelude.{
  ℕ, ◌+◌, String, Bool, ◌&&◌, Option, none, some, List, [], ◌∷◌, str_eq, ltb, leb, ◌==◌, any,
  select, is_none, if◌then◌else◌,
}

pub record EmailCode : Type 0 where
  pub id : ℕ
  pub user_account_id : ℕ
  pub code_hash : String
  pub purpose : String
  pub expires_at : ℕ
  pub consumed_at : Option ℕ
  pub created_at : ℕ
  pub failed_attempts : ℕ

-- MaxEmailCodeAttempts and EmailCodeRequestCooldown (seconds) of emailcode.go, and their equals in
-- identities.go.
abbrev pub max_email_code_attempts : ℕ
max_email_code_attempts = 5

abbrev pub email_code_request_cooldown : ℕ
email_code_request_cooldown = 60

-- The rows, and the next value of the sequence behind `id`.
pub record Table : Type 0 where
  pub rows : List EmailCode
  pub next_id : ℕ

-- WHERE of GetActiveEmailCode.
abbrev pub is_active : ℕ → ℕ → String → EmailCode → Bool
is_active now uid purpose r =
    r.user_account_id == uid
    && str_eq r.purpose purpose
    && is_none r.consumed_at
    && ltb now r.expires_at

-- ORDER BY created_at DESC LIMIT 1; of rows created at the same time the first stands.
abbrev pub newer : EmailCode → Option EmailCode → Option EmailCode
newer r none = some r
newer r (some q) = if ltb r.created_at q.created_at then some q else some r

unfoldable pub newest : List EmailCode → Option EmailCode
newest [] = none
newest (r ∷ rs) = newer r (newest rs)

unfoldable pub get_active_email_code : ℕ → ℕ → String → Table → Option EmailCode
unfolding newest
get_active_email_code now uid purpose t = newest (select (is_active now uid purpose) t.rows)

-- WHERE of ClaimEmailCodeAttempt, and its SET.
abbrev pub is_claimable : ℕ → ℕ → EmailCode → Bool
is_claimable id max r = r.id == id && is_none r.consumed_at && ltb r.failed_attempts max

abbrev pub claimed_row : ℕ → ℕ → EmailCode → EmailCode
claimed_row max now r = record r {
  failed_attempts = r.failed_attempts + 1;
  consumed_at = if leb max (r.failed_attempts + 1) then some now else r.consumed_at;
}

unfoldable pub claim_rows : ℕ → ℕ → ℕ → List EmailCode → Option EmailCode × List EmailCode
claim_rows id max now [] = (none, [])
claim_rows id max now (r ∷ rs) =
    let (found, rest) = claim_rows id max now rs in
    if is_claimable id max r
    then (some (claimed_row max now r), claimed_row max now r ∷ rs)
    else (found, r ∷ rest)

unfoldable pub claim_email_code_attempt : ℕ → ℕ → ℕ → Table → Option EmailCode × Table
unfolding claim_rows
claim_email_code_attempt id max now t =
    let (found, rows) = claim_rows id max now t.rows in (found, record t { rows = rows })

-- ConsumeEmailCode: the number of rows that it set, and the table.
abbrev pub is_consumable : ℕ → EmailCode → Bool
is_consumable id r = r.id == id && is_none r.consumed_at

unfoldable pub consume_rows : ℕ → ℕ → List EmailCode → ℕ × List EmailCode
consume_rows id now [] = (0, [])
consume_rows id now (r ∷ rs) =
    let (n, rest) = consume_rows id now rs in
    if is_consumable id r then (1, record r { consumed_at = some now } ∷ rs) else (n, r ∷ rest)

unfoldable pub consume_email_code : ℕ → ℕ → Table → ℕ × Table
unfolding consume_rows
consume_email_code id now t =
    let (n, rows) = consume_rows id now t.rows in (n, record t { rows = rows })

-- `created_at > clock_timestamp() - interval`, for the same user and purpose, in any state.
abbrev pub is_recent : ℕ → ℕ → String → ℕ → EmailCode → Bool
is_recent now uid purpose cooldown r =
    r.user_account_id == uid && str_eq r.purpose purpose && ltb now (r.created_at + cooldown)

unfoldable pub has_recent_email_code : ℕ → ℕ → String → ℕ → Table → Bool
has_recent_email_code now uid purpose cooldown t = any (is_recent now uid purpose cooldown) t.rows

abbrev pub new_row : ℕ → ℕ → String → String → ℕ → ℕ → EmailCode
new_row now uid hash purpose expires id = record {
  id = id;
  user_account_id = uid;
  code_hash = hash;
  purpose = purpose;
  expires_at = expires;
  consumed_at = none;
  created_at = now;
  failed_attempts = 0;
}

-- CreateEmailCodeWithCooldown: the inserted row, or none within the cooldown. `created_at` defaults to
-- now(), the start of the transaction (model/migrations/sql/0100_baseline.sql), while the cooldown is
-- tested against clock_timestamp(), read after the wait for the advisory lock.
unfoldable pub create_email_code_with_cooldown :
    ℕ → ℕ → ℕ → String → String → ℕ → ℕ → Table → Option EmailCode × Table
create_email_code_with_cooldown started clock uid hash purpose expires cooldown t =
    let row = new_row started uid hash purpose expires t.next_id in
    if has_recent_email_code clock uid purpose cooldown t
    then (none, t)
    else (some row, record t { rows = row ∷ t.rows; next_id = t.next_id + 1 })
