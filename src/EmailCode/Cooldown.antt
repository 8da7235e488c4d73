-- ===== src/EmailCode/Cooldown.antt =====
-- The senders respect the cooldown, whatever fails.
use mod_users.Prelude.{◌+◌, String, ◌≡◌, false, true, some, inl, inr, ◌⊎◌, Option-cases, arith, ◌∷◌}
use mod_users.Api.{ok, err, Result-cases}
use mod_users.Accounts.{UserAccount, get_user_account_by_email}
use mod_users.EmailCode.Table.{
  email_code_request_cooldown, has_recent_email_code, create_email_code_with_cooldown, new_row,
}
use mod_users.EmailCode.Verify.{Db, Env, public_email_code_purpose}
use mod_users.EmailCode.Send.{Skip, send_email_code}

-- While the account has a code of the purpose, in any state, that is younger than the cooldown
-- when the insertion holds its lock, a
-- request sends no email and leaves the table as it is, even if the advisory pre-check fails.
pub send_within_cooldown :
    (env : Env) (email purpose : String) (ua : UserAccount) (db : Db)
    → get_user_account_by_email env.lower email db.accounts ≡ some ua
    → has_recent_email_code
        (env.now + env.lock_wait)
        ua.id
        purpose
        email_code_request_cooldown
        db.codes
      ≡ true
    → ((send_email_code env email purpose db).1.outbox ≡ db.outbox)
      × ((send_email_code env email purpose db).1.codes ≡ db.codes)
unfolding send_email_code create_email_code_with_cooldown
send_within_cooldown env email purpose ua db found recent = ground arith

-- What a request that sends an email found and left behind.
abbrev pub Sends : Env → String → String → Db → Type 0
Sends env email purpose db =
    (ua : UserAccount) × (to : String) × (code : String) × (hash : String)
    × (public_email_code_purpose purpose ≡ true)
    × (get_user_account_by_email env.lower email db.accounts ≡ some ua)
    × (ua.email ≡ some to)
    × (env.generate_email_code ≡ some (code, hash))
    × (has_recent_email_code (env.now + env.lock_wait) ua.id purpose email_code_request_cooldown
          db.codes
        ≡ false)
    × ((send_email_code env email purpose db).1.outbox ≡ (to, code) ∷ db.outbox)
    × ((send_email_code env email purpose db).1.codes.rows
        ≡ new_row env.now ua.id hash purpose (env.now + 300) db.codes.next_id ∷ db.codes.rows)

sends :
    (env : Env) (email purpose : String) (db : Db)
    → (send_email_code env email purpose db).0 ≡ ok tt
    → Sends env email purpose db
unfolding send_email_code create_email_code_with_cooldown
sends env email purpose db e =
    elim (Option-cases (get_user_account_by_email env.lower email db.accounts)) [
      | inl missing ↦ absurd (ground arith)
      | inr (ua, found) ↦ elim (Option-cases ua.email) [
        | inl missing ↦ absurd (ground arith)
        | inr (to, address) ↦ elim (Option-cases env.generate_email_code) [
          | inl missing ↦ absurd (ground arith)
          | inr ((code, hash), generated) ↦ (
            ua,
            to,
            code,
            hash,
            ground arith,
            found,
            address,
            generated,
            ground arith,
            ground arith,
            ground arith,
          )
        ]
      ]
    ]

skips :
    (env : Env) (email purpose : String) (db : Db) (skip : Skip)
    → (send_email_code env email purpose db).0 ≡ err skip
    → (send_email_code env email purpose db).1.outbox ≡ db.outbox
unfolding send_email_code create_email_code_with_cooldown
skips env email purpose db skip e =
    elim (Option-cases (get_user_account_by_email env.lower email db.accounts)) [
      | inl missing ↦ ground arith
      | inr (ua, found) ↦ elim (Option-cases ua.email) [
        | inl missing ↦ ground arith
        | inr (to, address) ↦ ground arith
      ]
    ]

-- A request on the public endpoint either fails and sends no email, or it was for a public purpose,
-- outside the cooldown, of an account with that address; it then sends one email, to the account's
-- own address, with the generated code, and stores that code's hash unused for five minutes.
pub send_outcome :
    (env : Env) (email purpose : String) (db : Db)
    → ((skip : Skip) × ((send_email_code env email purpose db).0 ≡ err skip)
        × ((send_email_code env email purpose db).1.outbox ≡ db.outbox))
      ⊎ (((send_email_code env email purpose db).0 ≡ ok tt) × Sends env email purpose db)
send_outcome env email purpose db = elim (Result-cases (send_email_code env email purpose db).0) [
  | inl (done, e) ↦ inr (e, sends env email purpose db e)
  | inr (skip, e) ↦ inl (skip, e, skips env email purpose db skip e)
]
