-- ===== src/EmailCode/Race/Weights.antt =====
-- What a claim, a consumption and a request's step do to one code's two stocks: the right to pass
-- (one, while the code is unconsumed) and the guesses left.
use mod_users.Prelude.{
  ℕ, zero, suc, ◌+◌, ◌-◌, ◌≤◌, String, ◌≡◌, Bool, ◌&&◌, Option, none, some, List, [], ◌∷◌, ◌==◌,
  count, total, is_some, if◌then◌else◌, arith, refl,
}
use mod_users.EmailCode.Table.{
  max_email_code_attempts, EmailCode, Table, is_consumable, claim_rows, claim_email_code_attempt,
  consume_rows, consume_email_code,
}
use mod_users.EmailCode.Race.{Phase, loaded, claimed, missed, granted, advance, advance_at}

-- Rows of the code that may still be consumed.
abbrev pub live : ℕ → List EmailCode → ℕ
live i rows = count (is_consumable i) rows

abbrev pub left_of : ℕ → EmailCode → ℕ
left_of i r = if is_consumable i r then max_email_code_attempts - r.failed_attempts else 0

-- Guesses that the code still allows.
abbrev pub left : ℕ → List EmailCode → ℕ
left i rows = total (left_of i) rows

-- 1 if the claim itself consumed the code, so that its request may pass without consuming it.
abbrev pub final : ℕ → ℕ → Option ℕ → ℕ
final i id consumed = if id == i && is_some consumed then 1 else 0

abbrev pub final_row : ℕ → ℕ → Option EmailCode → ℕ
final_row i id none = 0
final_row i id (some r) = final i id r.consumed_at

abbrev pub taken : ℕ → ℕ → Option EmailCode → ℕ
taken i id none = 0
taken i id (some r) = if id == i then 1 else 0

-- The rights to pass with code `i` that a request holds or has used.
abbrev pub held : ℕ → Phase → ℕ
held i (claimed id r guess) = final i id r.consumed_at
held i (granted id) = if id == i then 1 else 0
held i _ = 0

-- 1 if the request has used a guess on code `i`.
abbrev pub tried : ℕ → Phase → ℕ
tried i (claimed id r guess) = if id == i then 1 else 0
tried i (missed id) = if id == i then 1 else 0
tried i (granted id) = if id == i then 1 else 0
tried i _ = 0

pub live-claim_rows :
    (i id now : ℕ) (rows : List EmailCode)
    → live i (claim_rows id max_email_code_attempts now rows).1
        + final_row i id (claim_rows id max_email_code_attempts now rows).0
      ≡ live i rows
unfolding claim_rows
live-claim_rows i id now [] = refl
live-claim_rows i id now (r ∷ rows) = ground (arith, live-claim_rows i id now rows)

left-claim_rows :
    (i id now : ℕ) (rows : List EmailCode)
    → left i (claim_rows id max_email_code_attempts now rows).1
        + taken i id (claim_rows id max_email_code_attempts now rows).0
      ≤ left i rows
unfolding claim_rows
left-claim_rows i id now [] = omega arith
left-claim_rows i id now (r ∷ rows) = ground (arith, left-claim_rows i id now rows)

pub live-consume_rows :
    (i id now : ℕ) (rows : List EmailCode)
    → live i (consume_rows id now rows).1 + (if id == i then (consume_rows id now rows).0 else 0)
      ≡ live i rows
unfolding consume_rows
live-consume_rows i id now [] = ground arith
live-consume_rows i id now (r ∷ rows) = ground (arith, live-consume_rows i id now rows)

left-consume_rows :
    (i id now : ℕ) (rows : List EmailCode) → left i (consume_rows id now rows).1 ≤ left i rows
unfolding consume_rows
left-consume_rows i id now [] = omega arith
left-consume_rows i id now (r ∷ rows) = ground (arith, left-consume_rows i id now rows)

module _ (matches : String → String → Bool) (i now : ℕ) where
  -- A step makes no right to pass.
  held-advance :
      (p : Phase) (t : Table)
      → live i (advance matches now p t).1.rows + held i (advance matches now p t).0
        ≤ live i t.rows + held i p
  unfolding advance claim_email_code_attempt consume_email_code
  held-advance (loaded id guess) t = ground (arith, live-claim_rows i id now t.rows)
  held-advance (claimed id r guess) t = ground (arith, live-consume_rows i id now t.rows)
  held-advance _ t = omega arith

  -- A step that uses a guess takes it from those left.
  tried-advance :
      (p : Phase) (t : Table)
      → left i (advance matches now p t).1.rows + tried i (advance matches now p t).0
        ≤ left i t.rows + tried i p
  unfolding advance claim_email_code_attempt consume_email_code
  tried-advance (loaded id guess) t = ground (arith, left-claim_rows i id now t.rows)
  tried-advance (claimed id r guess) t = ground (arith, left-consume_rows i id now t.rows)
  tried-advance _ t = omega arith

  next_id-advance : (p : Phase) (t : Table) → (advance matches now p t).1.next_id ≡ t.next_id
  unfolding advance claim_email_code_attempt consume_email_code
  next_id-advance (loaded id guess) t = refl
  next_id-advance (claimed id r guess) t = ground arith
  next_id-advance _ t = refl

  pub held-advance_at :
      (k : ℕ) (ps : List Phase) (t : Table)
      → live i (advance_at matches now k ps t).1.rows
          + total (held i) (advance_at matches now k ps t).0
        ≤ live i t.rows + total (held i) ps
  unfolding advance_at
  held-advance_at k [] t = omega arith
  held-advance_at zero (p ∷ ps) t = omega (arith, held-advance p t)
  held-advance_at (suc k) (p ∷ ps) t = omega (arith, held-advance_at k ps t)

  pub tried-advance_at :
      (k : ℕ) (ps : List Phase) (t : Table)
      → left i (advance_at matches now k ps t).1.rows
          + total (tried i) (advance_at matches now k ps t).0
        ≤ left i t.rows + total (tried i) ps
  unfolding advance_at
  tried-advance_at k [] t = omega arith
  tried-advance_at zero (p ∷ ps) t = omega (arith, tried-advance p t)
  tried-advance_at (suc k) (p ∷ ps) t = omega (arith, tried-advance_at k ps t)

  pub next_id-advance_at :
      (k : ℕ) (ps : List Phase) (t : Table) → (advance_at matches now k ps t).1.next_id ≡ t.next_id
  unfolding advance_at
  next_id-advance_at k [] t = refl
  next_id-advance_at zero (p ∷ ps) t = next_id-advance p t
  next_id-advance_at (suc k) (p ∷ ps) t = next_id-advance_at k ps t
