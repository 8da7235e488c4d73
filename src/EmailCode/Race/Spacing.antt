-- ===== src/EmailCode/Race/Spacing.antt =====
-- How close to one another codes for one user and purpose are created.
use mod_users.Prelude.{
  ℕ, zero, suc, ◌+◌, ◌≤◌, String, ◌≡◌, ◌⊎◌, Bool, ◌&&◌, false, List, [], ◌∷◌, str_eq, ◌==◌, All,
  any, refl, arith,
}
use mod_users.EmailCode.Table.{
  EmailCode, Table, max_email_code_attempts, email_code_request_cooldown, is_recent, claim_rows,
  claim_email_code_attempt, consume_rows, consume_email_code, has_recent_email_code,
  create_email_code_with_cooldown, new_row,
}
use mod_users.EmailCode.Race.{
  Phase, loaded, claimed, System, Action, arrive, step, mint, advance, advance_at, perform, run,
}

abbrev pub same_window : EmailCode → EmailCode → Bool
same_window r q = q.user_account_id == r.user_account_id && str_eq q.purpose r.purpose

-- `q`, inserted before `r`, is for another user or purpose, or older by the cooldown less the wait.
abbrev pub Apart : ℕ → EmailCode → EmailCode → Type 0
Apart wait r q =
    (same_window r q ≡ false) ⊎ (q.created_at + email_code_request_cooldown ≤ r.created_at + wait)

-- The rows stand newest first.
abbrev pub IsSpaced : ℕ → List EmailCode → Type 0
IsSpaced wait [] = Unit
IsSpaced wait (r ∷ rs) = All (Apart wait r) rs × IsSpaced wait rs

-- No transaction that asks for a code waits longer for its lock.
abbrev pub WaitsAtMost : ℕ → Action → Type 0
WaitsAtMost wait (arrive id guess) = Unit
WaitsAtMost wait (step now k) = Unit
WaitsAtMost wait (mint started waited uid hash purpose expires) = waited ≤ wait

module _ (wait : ℕ) (r : EmailCode) (id now : ℕ) where
  All-Apart-claim_rows :
      (rows : List EmailCode)
      → All (Apart wait r) rows
      → All (Apart wait r) (claim_rows id max_email_code_attempts now rows).1
  unfolding claim_rows
  All-Apart-claim_rows [] h = tt
  All-Apart-claim_rows (q ∷ rows) h = ground (arith, All-Apart-claim_rows rows h.1)

  All-Apart-consume_rows :
      (rows : List EmailCode)
      → All (Apart wait r) rows
      → All (Apart wait r) (consume_rows id now rows).1
  unfolding consume_rows
  All-Apart-consume_rows [] h = tt
  All-Apart-consume_rows (q ∷ rows) h = ground (arith, All-Apart-consume_rows rows h.1)

IsSpaced-claim_rows :
    (wait id now : ℕ) (rows : List EmailCode)
    → IsSpaced wait rows
    → IsSpaced wait (claim_rows id max_email_code_attempts now rows).1
unfolding claim_rows
IsSpaced-claim_rows wait id now [] h = tt
IsSpaced-claim_rows wait id now (r ∷ rows) h =
    ground
      (arith, IsSpaced-claim_rows wait id now rows h.1, All-Apart-claim_rows wait r id now rows h.0)

IsSpaced-consume_rows :
    (wait id now : ℕ) (rows : List EmailCode)
    → IsSpaced wait rows
    → IsSpaced wait (consume_rows id now rows).1
unfolding consume_rows
IsSpaced-consume_rows wait id now [] h = tt
IsSpaced-consume_rows wait id now (r ∷ rows) h = ground (
  arith,
  IsSpaced-consume_rows wait id now rows h.1,
  All-Apart-consume_rows wait r id now rows h.0,
)

-- A row that the cooldown lets in stands apart from all before it.
not_recent-Apart :
    (wait clock uid : ℕ) (purpose : String) (r : EmailCode) (rows : List EmailCode)
    → r.user_account_id ≡ uid
    → r.purpose ≡ purpose
    → clock ≤ r.created_at + wait
    → any (is_recent clock uid purpose email_code_request_cooldown) rows ≡ false
    → All (Apart wait r) rows
not_recent-Apart wait clock uid purpose r [] u p c h = tt
not_recent-Apart wait clock uid purpose r (q ∷ rows) u p c h =
    (ground arith, not_recent-Apart wait clock uid purpose r rows u p c (ground arith))

module _ (wait : ℕ) (matches : String → String → Bool) where
  IsSpaced-advance :
      (now : ℕ) (p : Phase) (t : Table)
      → IsSpaced wait t.rows
      → IsSpaced wait (advance matches now p t).1.rows
  unfolding advance claim_email_code_attempt consume_email_code
  IsSpaced-advance now (loaded id guess) t h = IsSpaced-claim_rows wait id now t.rows h
  IsSpaced-advance now (claimed id r guess) t h =
      ground (arith, IsSpaced-consume_rows wait id now t.rows h)
  IsSpaced-advance now _ t h = h

  IsSpaced-advance_at :
      (now k : ℕ) (ps : List Phase) (t : Table)
      → IsSpaced wait t.rows
      → IsSpaced wait (advance_at matches now k ps t).1.rows
  unfolding advance_at
  IsSpaced-advance_at now k [] t h = h
  IsSpaced-advance_at now zero (p ∷ ps) t h = IsSpaced-advance now p t h
  IsSpaced-advance_at now (suc k) (p ∷ ps) t h = IsSpaced-advance_at now k ps t h

  IsSpaced-perform :
      (a : Action) (s : System)
      → WaitsAtMost wait a
      → IsSpaced wait s.codes.rows
      → IsSpaced wait (perform matches a s).codes.rows
  unfolding perform create_email_code_with_cooldown has_recent_email_code
  IsSpaced-perform (arrive id guess) s w h = h
  IsSpaced-perform (step now k) s w h = IsSpaced-advance_at now k s.threads s.codes h
  IsSpaced-perform (mint started waited uid hash purpose expires) s w h = ground (
    arith,
    not_recent-Apart wait (started + waited) uid purpose
        (new_row started uid hash purpose expires s.codes.next_id) s.codes.rows refl refl
        (omega (arith, w)),
  )

  -- From a table whose codes are spaced, whatever the interleaving and whatever the clock reads: if no
  -- transaction that asks for a code waits longer than `wait` seconds for its lock, then of any two
  -- codes of one user and purpose the creation time of the one inserted later, plus `wait` seconds,
  -- is at least 60 seconds after that of the other. Claims, consumptions and exhausted codes free no earlier slot.
  pub codes_stay-IsSpaced :
      (actions : List Action) (s : System)
      → All (WaitsAtMost wait) actions
      → IsSpaced wait s.codes.rows
      → IsSpaced wait (run matches actions s).codes.rows
  unfolding run
  codes_stay-IsSpaced [] s w h = h
  codes_stay-IsSpaced (a ∷ rest) s w h =
      codes_stay-IsSpaced rest (perform matches a s) w.1 (IsSpaced-perform a s w.0 h)
