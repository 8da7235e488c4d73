-- ===== src/EmailCode/Race.antt =====
-- Concurrent verifications: the atomic steps of EmailCodeVerify (emailcode.go) and StepUpVerify
-- (identities.go) after the code is loaded, interleaved with one another and with new codes.
pub mod Weights
pub mod Bounds
pub mod Sequential
pub mod Spacing
use mod_users.Prelude.{
  ℕ, zero, suc, ◌+◌, String, Bool, Option, none, some, List, [], ◌∷◌, ◌==◌, if◌then◌else◌,
}
use mod_users.EmailCode.Table.{
  max_email_code_attempts, email_code_request_cooldown, EmailCode, Table, claim_email_code_attempt,
  consume_email_code, create_email_code_with_cooldown,
}

-- Where one request stands with the code `id` and its guess: before the claim, after it with the
-- claimed row, turned away with no claim, after a comparison that led nowhere, or past the gate.
pub data Phase : Type 0 where
  loaded : ℕ → String → Phase
  claimed : ℕ → EmailCode → String → Phase
  exhausted : Phase
  missed granted : ℕ → Phase

-- The comparison, and the consumption by which one of the matching requests wins.
abbrev pub judge : ℕ → ℕ → Bool → Option ℕ → Table → Phase × Table
judge now id same (some _) t = (if same then granted id else missed id, t)
judge now id same none t =
    let (n, t') = consume_email_code id now t in
    if same then (if n == 0 then missed id else granted id, t') else (missed id, t)

abbrev pub after_claim : ℕ → String → Option EmailCode → Phase
after_claim id guess none = exhausted
after_claim id guess (some row) = claimed id row guess

module _ (matches : String → String → Bool) where
  -- The next atomic step of a request.
  unfoldable pub advance : ℕ → Phase → Table → Phase × Table
  advance now (loaded id guess) t =
      let (row, t') = claim_email_code_attempt id max_email_code_attempts now t in
      (after_claim id guess row, t')
  advance now (claimed id row guess) t =
      judge now id (matches row.code_hash guess) row.consumed_at t
  advance now p t = (p, t)

  unfoldable pub advance_at : ℕ → ℕ → List Phase → Table → List Phase × Table
  advance_at now k [] t = ([], t)
  advance_at now zero (p ∷ ps) t = let (p', t') = advance now p t in (p' ∷ ps, t')
  advance_at now (suc k) (p ∷ ps) t = let (ps', t') = advance_at now k ps t in (p ∷ ps', t')

pub record System : Type 0 where
  pub codes : Table
  pub threads : List Phase

-- A request that has loaded some code arrives, the k-th request makes its next step, or a code is
-- asked for, by a transaction that started at some time and waited some seconds for its lock.
pub data Action : Type 0 where
  arrive : ℕ → String → Action
  step : ℕ → ℕ → Action
  mint : ℕ → ℕ → ℕ → String → String → ℕ → Action

module _ (matches : String → String → Bool) where
  unfoldable pub perform : Action → System → System
  perform (arrive id guess) s = record s { threads = loaded id guess ∷ s.threads }
  perform (step now k) s =
      let (ps, t) = advance_at matches now k s.threads s.codes in record { codes = t; threads = ps }
  perform (mint started waited uid hash purpose expires) s =
      let (row, t) =
        create_email_code_with_cooldown started (started + waited) uid hash purpose expires
          email_code_request_cooldown s.codes in
      record s { codes = t }

  -- Any interleaving is a list of actions.
  unfoldable pub run : List Action → System → System
  run [] s = s
  run (a ∷ as_) s = run as_ (perform a s)
