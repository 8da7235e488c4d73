-- ===== src/Api.antt =====
-- Error answers and results: api/internal/server/respond.go and the apiresp errors the handlers
-- return, and the computations that read and write a store and may end early with an error.
pub mod Sample
pub mod Checks
use mod_users.Prelude.{
  ℕ, String, ◌≡◌, refl, ◌⊎◌, inl, inr, Bool, true, false, Option, none, some, List,
}

-- One field detail of an error body.
pub record FieldError : Type 0 where
  pub field : String
  pub code : String
  pub message : String

-- `literal` is server.Error with its status, code and message, and `detailed` is
-- server.ErrorWithDetails; `internal` is any error that the
-- error writer answers by its internal_error default; `action_required` carries the action code.
pub data ApiError : Type 0 where
  invalid_input conflict : List FieldError → ApiError
  unauthenticated forbidden not_found internal : ApiError
  literal : ℕ → String → String → ApiError
  detailed : ℕ → String → String → List FieldError → ApiError
  action_required : String → ApiError

pub data Result {ℓ κ} (E : Type ℓ) (A : Type κ) : Type (ℓ ⊔ κ) where
  ok : A → Result E A
  err : E → Result E A

pub Result-cases {ℓ κ} :
    {E : Type ℓ} {A : Type κ} (r : Result E A) → ((a : A) × (r ≡ ok a)) ⊎ ((e : E) × (r ≡ err e))
Result-cases (ok a) = inl (a, refl)
Result-cases (err e) = inr (e, refl)

-- A computation over a store of type `S` that returns, or ends early with an `E`. What it wrote
-- before an early end stays written.
abbrev pub Exec : Type 0 → Type 0 → Type 0 → Type 0
Exec S E A = S → Result E A × S

module _ {S E A B : Type 0} where
  abbrev pub continue : Result E A → S → (A → Exec S E B) → Result E B × S
  continue (ok a) s f = f a s
  continue (err e) s f = (err e, s)

  infixl 10 ◌>>=◌ ◌>>◌
  abbrev pub ◌>>=◌ : Exec S E A → (A → Exec S E B) → Exec S E B
  ◌>>=◌ m f s = continue (m s).0 (m s).1 f

  abbrev pub ◌>>◌ : Exec S E A → Exec S E B → Exec S E B
  m >> n = m >>= λ _. n

module _ {S E A : Type 0} where
  abbrev pub pure : A → Exec S E A
  pure a s = (ok a, s)

  abbrev pub raise : E → Exec S E A
  raise e s = (err e, s)

-- `if !b { return e }`
abbrev pub guard : {S E : Type 0} → Bool → E → Exec S E Unit
guard true e s = (ok tt, s)
guard false e s = (err e, s)

-- A database call that fails, or does `f` to the store.
abbrev pub query : {S E A : Type 0} → Bool → E → (S → A × S) → Exec S E A
query true e f s = (err e, s)
query false e f s = (ok (f s).0, (f s).1)

-- The `pgx.ErrNoRows` case of a query for one row.
abbrev pub row_or : {S E A : Type 0} → E → Option A → Exec S E A
row_or e none s = (err e, s)
row_or e (some a) s = (ok a, s)

-- The transaction helper (core-api's txhelper), which is not part of this repository: `run` rolls
-- back what a failing body wrote and returns its error, and otherwise commits the body's writes or
-- reports an error of its own with the store left as it was.
pub record TxRunner (S E A : Type 0) : Type 0 where
  pub run : Exec S E A → Exec S E A
  pub rolls_back :
      (body : Exec S E A) (s : S) (e : E) → (body s).0 ≡ err e → run body s ≡ (err e, s)
  pub commits :
      (body : Exec S E A) (s : S) (a : A)
      → (body s).0 ≡ ok a
      → (run body s ≡ body s) ⊎ ((e : E) × (run body s ≡ (err e, s)))
