-- ===== src/Accounts.antt =====
-- User accounts: the user_accounts rows of model/db/models.go and the queries of
-- model/db/user_accounts.sql.go that the other parts share.
use mod_users.Prelude.{
  ℕ, String, Bool, false, Option, none, some, List, [], ◌∷◌, str_eq, ◌==◌, find, if◌then◌else◌,
}

pub record UserAccount : Type 0 where
  pub id : ℕ
  pub uuid : String
  pub account_holder : ℕ
  pub email : Option String
  pub email_verified_at : Option ℕ
  pub default_app_id : Option ℕ

-- `lower(email) = lower($1)` on a nullable column; `lower` is the database's function.
abbrev pub email_is : (String → String) → String → Option String → Bool
email_is lower s none = false
email_is lower s (some t) = str_eq (lower t) (lower s)

unfoldable pub get_user_account_by_email :
    (String → String) → String → List UserAccount → Option UserAccount
get_user_account_by_email lower email rows = find (λ r. email_is lower email r.email) rows

unfoldable pub get_user_account_by_id : ℕ → List UserAccount → Option UserAccount
get_user_account_by_id id rows = find (λ r. r.id == id) rows

unfoldable pub get_user_account_by_uuid : String → List UserAccount → Option UserAccount
get_user_account_by_uuid uuid rows = find (λ r. str_eq r.uuid uuid) rows

abbrev pub set_row : ℕ → Option String → Option ℕ → UserAccount → UserAccount
set_row id email verified r =
    if r.id == id then record r { email = email; email_verified_at = verified } else r

-- UpdateUserAccount: it sets the email and its verification time.
unfoldable pub update_user_account :
    ℕ → Option String → Option ℕ → List UserAccount → List UserAccount
update_user_account id email verified [] = []
update_user_account id email verified (r ∷ rs) =
    set_row id email verified r ∷ update_user_account id email verified rs
