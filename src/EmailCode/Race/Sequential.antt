-- ===== src/EmailCode/Race/Sequential.antt =====
-- A handler that runs alone makes the steps of a request of the interleaved system.
use mod_users.Prelude.{ℕ, String, ◌≡◌, ◌↔◌, false, some, arith}
use mod_users.Api.{ok}
use mod_users.Accounts.{UserAccount}
use mod_users.EmailCode.Table.{EmailCode, Table, get_active_email_code}
use mod_users.EmailCode.Verify.{Query, Env, Db, redeem}
use mod_users.EmailCode.Race.{Phase, loaded, granted, advance}

-- The two steps of a request that has loaded the code `id`.
abbrev pub two_steps : Env → ℕ → String → Table → Phase × Table
two_steps env id guess t =
    let (p, t') = advance env.matches env.now (loaded id guess) t in
    advance env.matches env.now p t'

-- If no database call fails and an active code is found, the handler leaves the table that the two
-- atomic steps of a request that is not interrupted leave, and goes on to its success exactly when
-- they end past the gate.
pub redeem-two_steps :
    (env : Env) (ua : UserAccount) (purpose guess : String) (db : Db) (c : EmailCode)
    → ((q : Query) → env.fails q ≡ false)
    → get_active_email_code env.now ua.id purpose db.codes ≡ some c
    → ((redeem env ua purpose guess db).1.codes ≡ (two_steps env c.id guess db.codes).1)
      × (((redeem env ua purpose guess db).0 ≡ ok tt)
          ↔ ((two_steps env c.id guess db.codes).0 ≡ granted c.id))
unfolding redeem advance
redeem-two_steps env ua purpose guess db c up found =
    ground (arith, up Query.get_code, up Query.claim, up Query.consume)
