-- ===== src/Api/Sample.antt =====
-- A transaction helper that commits every body that returns.
use mod_users.Prelude.{◌≡◌, ◌⊎◌, inl, arith}
use mod_users.Api.{Result, ok, err, Exec, TxRunner}

module _ {S E A : Type 0} where
  abbrev settle : Result E A × S → S → Result E A × S
  settle (ok a, s) before = (ok a, s)
  settle (err e, s) before = (err e, before)

  pub rolls_back :
      (body : Exec S E A) (s : S) (e : E) → (body s).0 ≡ err e → settle (body s) s ≡ (err e, s)
  rolls_back body s e h = ground arith

  pub commits :
      (body : Exec S E A) (s : S) (a : A)
      → (body s).0 ≡ ok a
      → (settle (body s) s ≡ body s) ⊎ ((e : E) × (settle (body s) s ≡ (err e, s)))
  commits body s a h = inl (ground arith)

  abbrev pub direct_tx : TxRunner S E A
  direct_tx = record {
    run = λ body s. settle (body s) s;
    rolls_back = rolls_back;
    commits = commits;
  }
