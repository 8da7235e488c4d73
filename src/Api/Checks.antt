-- ===== src/Api/Checks.antt =====
-- Computations that return or end early with an error, and keep no store.
use mod_users.Prelude.{Bool, true, false, Option, none, some}
use mod_users.Api.{Result, ok, err}

abbrev pub Checked : Type 0 → Type 0 → Type 0
Checked E A = Result E A

module _ {E A B : Type 0} where
  infixl 10 ◌>>=◌ ◌>>◌
  abbrev pub ◌>>=◌ : Checked E A → (A → Checked E B) → Checked E B
  ◌>>=◌ (ok a) f = f a
  ◌>>=◌ (err e) f = err e

  abbrev pub ◌>>◌ : Checked E A → Checked E B → Checked E B
  m >> n = m >>= λ _. n

-- `if !b { return e }`
abbrev pub check : {E : Type 0} → Bool → E → Checked E Unit
check true e = ok tt
check false e = err e

abbrev pub some_or : {E A : Type 0} → E → Option A → Checked E A
some_or e none = err e
some_or e (some a) = ok a
