-- ===== src/EmailCode/Race/Bounds.antt =====
-- What every interleaving of verifications and new codes keeps.
use mod_users.Prelude.{
  ℕ, ◌+◌, ◌*◌, ◌≤◌, ◌<◌, All, String, ◌≡◌, Bool, false, List, [], ◌∷◌, ◌==◌, count, total, arith,
}
use mod_users.EmailCode.Table.{
  max_email_code_attempts, EmailCode, Table, create_email_code_with_cooldown,
}
use mod_users.EmailCode.Race.{
  Phase, claimed, missed, granted, System, Action, arrive, step, mint, perform, run,
}
use mod_users.EmailCode.Race.Weights.{
  live, left, held, tried, held-advance_at, tried-advance_at, next_id-advance_at,
}

abbrev pub has_id : ℕ → EmailCode → Bool
has_id i r = r.id == i

-- The primary key: no two rows share an id, and the sequence has not reached any later one.
pub record IsKeyed (t : Table) : Type 0 where
  pub unique : (i : ℕ) → count (has_id i) t.rows ≤ 1
  pub below : All (λ r. r.id < t.next_id) t.rows

record IsSound (s : System) : Type 0 where
  rights : (i : ℕ) → live i s.codes.rows + total (held i) s.threads ≤ 1
  guesses : (i : ℕ) → left i s.codes.rows + total (tried i) s.threads ≤ max_email_code_attempts
  fresh_rights : (i : ℕ) → s.codes.next_id ≤ i → live i s.codes.rows + total (held i) s.threads ≡ 0
  fresh_guesses :
      (i : ℕ) → s.codes.next_id ≤ i → left i s.codes.rows + total (tried i) s.threads ≡ 0

pub live-le-count : (i : ℕ) (rows : List EmailCode) → live i rows ≤ count (has_id i) rows
live-le-count i [] = omega arith
live-le-count i (r ∷ rows) = ground (arith, live-le-count i rows)

left-le-count :
    (i : ℕ) (rows : List EmailCode) → left i rows ≤ max_email_code_attempts * count (has_id i) rows
left-le-count i [] = omega arith
left-le-count i (r ∷ rows) = ground (arith, left-le-count i rows)

below-count :
    (n i : ℕ) (rows : List EmailCode) → All (λ r. r.id < n) rows → n ≤ i → count (has_id i) rows ≡ 0
below-count n i [] b h = omega arith
below-count n i (r ∷ rows) b h = ground (arith, below-count n i rows b.1)

abbrev pub start : Table → System
start t = record { codes = t; threads = [] }

start-IsSound : (t : Table) → IsKeyed t → IsSound (start t)
start-IsSound t k = record {
  rights = λ i. omega (arith, live-le-count i t.rows, k.unique i);
  guesses = λ i. omega (arith, left-le-count i t.rows, k.unique i);
  fresh_rights =
      λ i h. omega (arith, live-le-count i t.rows, below-count t.next_id i t.rows k.below h);
  fresh_guesses =
      λ i h. omega (arith, left-le-count i t.rows, below-count t.next_id i t.rows k.below h);
}

module _ (matches : String → String → Bool) where
  perform-IsSound : (a : Action) (s : System) → IsSound s → IsSound (perform matches a s)
  unfolding perform create_email_code_with_cooldown
  perform-IsSound (arrive id guess) s v = record {
    rights = λ i. omega (arith, v.rights i);
    guesses = λ i. omega (arith, v.guesses i);
    fresh_rights = λ i h. omega (arith, v.fresh_rights i h);
    fresh_guesses = λ i h. omega (arith, v.fresh_guesses i h);
  }
  perform-IsSound (step now k) s v = record {
    rights = λ i. omega (arith, v.rights i, held-advance_at matches i now k s.threads s.codes);
    guesses = λ i. omega (arith, v.guesses i, tried-advance_at matches i now k s.threads s.codes);
    fresh_rights = λ i h. omega (
      arith,
      v.fresh_rights i (omega (arith, next_id-advance_at matches i now k s.threads s.codes)),
      held-advance_at matches i now k s.threads s.codes,
    );
    fresh_guesses = λ i h. omega (
      arith,
      v.fresh_guesses i (omega (arith, next_id-advance_at matches i now k s.threads s.codes)),
      tried-advance_at matches i now k s.threads s.codes,
    );
  }
  perform-IsSound (mint started waited uid hash purpose expires) s v = record {
    rights = λ i. ground (arith, v.rights i, v.fresh_rights i);
    guesses = λ i. ground (arith, v.guesses i, v.fresh_guesses i);
    fresh_rights = λ i h. ground (arith, v.fresh_rights i);
    fresh_guesses = λ i h. ground (arith, v.fresh_guesses i);
  }

  run-IsSound : (actions : List Action) (s : System) → IsSound s → IsSound (run matches actions s)
  unfolding run
  run-IsSound [] s v = v
  run-IsSound (a ∷ rest) s v = run-IsSound rest (perform matches a s) (perform-IsSound a s v)

abbrev pub is_granted : ℕ → Phase → Bool
is_granted i (granted id) = id == i
is_granted i _ = false

-- The request has compared a guess with the code's hash, or is about to.
abbrev pub has_guessed : ℕ → Phase → Bool
has_guessed i (claimed id r guess) = id == i
has_guessed i (missed id) = id == i
has_guessed i (granted id) = id == i
has_guessed i _ = false

granted-le-held : (i : ℕ) (ps : List Phase) → count (is_granted i) ps ≤ total (held i) ps
granted-le-held i [] = omega arith
granted-le-held i (granted id ∷ ps) = ground (arith, granted-le-held i ps)
granted-le-held i (p ∷ ps) = ground (arith, granted-le-held i ps)

guessed-le-tried : (i : ℕ) (ps : List Phase) → count (has_guessed i) ps ≤ total (tried i) ps
guessed-le-tried i [] = omega arith
guessed-le-tried i (granted id ∷ ps) = ground (arith, guessed-le-tried i ps)
guessed-le-tried i (p ∷ ps) = ground (arith, guessed-le-tried i ps)

module _ (matches : String → String → Bool) (t : Table) (keyed : IsKeyed t) where
  -- From a table whose ids are distinct and below the sequence, whatever the interleaving of any
  -- number of verifications and of requests for new codes, at most one request passes with any one
  -- code.
  pub single_use :
      (actions : List Action) (i : ℕ)
      → count (is_granted i) (run matches actions (start t)).threads ≤ 1
  single_use actions i =
      let s : System = run matches actions (start t) in
      omega (
        arith,
        granted-le-held i s.threads,
        (run-IsSound matches actions (start t) (start-IsSound t keyed)).rights i,
      )

  -- From a table whose ids are distinct and below the sequence, whatever the interleaving of any
  -- number of verifications and of requests for new codes, at most five requests get to compare a
  -- guess with any one code.
  pub at_most_five_guesses :
      (actions : List Action) (i : ℕ)
      → count (has_guessed i) (run matches actions (start t)).threads ≤ max_email_code_attempts
  at_most_five_guesses actions i =
      let s : System = run matches actions (start t) in
      omega (
        arith,
        guessed-le-tried i s.threads,
        (run-IsSound matches actions (start t) (start-IsSound t keyed)).guesses i,
      )
