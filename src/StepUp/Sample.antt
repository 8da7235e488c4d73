-- ===== src/StepUp/Sample.antt =====
-- A concrete JSON of the step-up payload.
use mod_users.Prelude.{◌≡◌, Option, none, some, ◌∷◌, ◌++◌, arith, length, take, drop}
use mod_users.Tokens.{Bytes}
use mod_users.Tokens.Sample.{take-length, drop-length}
use mod_users.StepUp.{StepUpPayload, PayloadJson}

abbrev marshal : StepUpPayload → Bytes
marshal p = p.user_account_id ∷ p.exp ∷ length p.purpose ∷ p.purpose ++ p.jti

abbrev unmarshal : Bytes → Option StepUpPayload
unmarshal (uid ∷ exp ∷ n ∷ rest) =
    some (record { user_account_id = uid; purpose = take n rest; jti = drop n rest; exp = exp })
unmarshal _ = none

pub unmarshal-marshal : (p : StepUpPayload) → unmarshal (marshal p) ≡ some p
unmarshal-marshal p = ground (arith, take-length p.purpose p.jti, drop-length p.purpose p.jti)

abbrev pub json : PayloadJson
json = record { marshal = marshal; unmarshal = unmarshal; unmarshal-marshal = unmarshal-marshal }
