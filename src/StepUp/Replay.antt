-- ===== src/StepUp/Replay.antt =====
-- A step-up token is good for one use, whatever is verified and pruned in between.
use mod_users.Prelude.{ℕ, ◌≤◌, ◌<◌, ◌≡◌, ap, some, ◌⊎◌, inl, inr, List, [], ◌∷◌, arith}
use mod_users.Api.{ok, err}
use mod_users.Tokens.{Bytes, Codec}
use mod_users.Tokens.Split.{bytes_eq_iff}
use mod_users.StepUp.{
  StepUpPayload, PayloadJson, Consumed, load, store_consumed_jti, janitor, verify_step_up_token,
  step_up_required,
}
use mod_users.StepUp.Accept.{payload_of, verify_accepts}

-- What happens to the cache: a token is presented for an account, or the janitor ticks.
pub data Use : Type 0 where
  present : ℕ → Bytes → ℕ → Use
  tick : ℕ → Use

abbrev pub time : Use → ℕ
time (present now token uid) = now
time (tick now) = now

-- The clock does not run backwards.
abbrev pub InOrder : ℕ → List Use → Type 0
InOrder t [] = Unit
InOrder t (u ∷ us) = (t ≤ time u) × InOrder (time u) us

abbrev pub last_time : ℕ → List Use → ℕ
last_time t [] = t
last_time t (u ∷ us) = last_time (time u) us

-- The jti is in the cache with the expiry of its token, or the token has expired.
abbrev IsSpent : StepUpPayload → ℕ → Consumed → Type 0
IsSpent p now m = (load p.jti m ≡ some p.exp) ⊎ (p.exp < now)

load-janitor :
    (now : ℕ) (jti : Bytes) (e : ℕ) (m : Consumed)
    → load jti m ≡ some e
    → now ≤ e
    → load jti (janitor now m) ≡ some e
unfolding load janitor
load-janitor now jti e [] found h = cc
load-janitor now jti e ((j, f) ∷ m) found h = ground (arith, load-janitor now jti e m)

module _ (codec : Codec) (json : PayloadJson) (secret : Bytes) where
  unfoldable pub use_cache : Use → Consumed → Consumed
  use_cache (present now token uid) m = (verify_step_up_token codec json now secret token uid m).1
  use_cache (tick now) m = janitor now m

  unfoldable pub use_all : List Use → Consumed → Consumed
  use_all [] m = m
  use_all (u ∷ us) m = use_all us (use_cache u m)

  verify_outcome :
      (now : ℕ) (token : Bytes) (uid : ℕ) (m : Consumed)
      → ((verify_step_up_token codec json now secret token uid m).0 ≡ ok tt)
        ⊎ (((verify_step_up_token codec json now secret token uid m).0 ≡ err step_up_required)
            × ((verify_step_up_token codec json now secret token uid m).1 ≡ m))
  unfolding verify_step_up_token store_consumed_jti
  verify_outcome now token uid m = ground arith

  use_cache-IsSpent :
      (p : StepUpPayload) (u : Use) (t : ℕ) (m : Consumed)
      → t ≤ time u
      → IsSpent p t m
      → IsSpent p (time u) (use_cache u m)
  unfolding use_cache
  use_cache-IsSpent p (present now token uid) t m h spent = elim (verify_outcome now token uid m) [
    | inl accepted ↦
        let (a, e) = verify_accepts codec json now secret token uid m accepted in
        rw e (unfold load in ground (arith, a.unused, bytes_eq_iff a.payload.jti p.jti))
    | inr (refused, same) ↦ rw same (ground arith)
  ]
  use_cache-IsSpent p (tick now) t m h spent = ground (arith, load-janitor now p.jti p.exp m)

  use_all-IsSpent :
      (p : StepUpPayload) (us : List Use) (t : ℕ) (m : Consumed)
      → InOrder t us
      → IsSpent p t m
      → IsSpent p (last_time t us) (use_all us m)
  unfolding use_all
  use_all-IsSpent p [] t m order spent = spent
  use_all-IsSpent p (u ∷ us) t m order spent =
      use_all-IsSpent p us (time u) (use_cache u m) order.1
        (use_cache-IsSpent p u t m order.0 spent)

  spent-refused :
      (p : StepUpPayload) (t : ℕ) (token : Bytes) (uid : ℕ) (m : Consumed)
      → payload_of codec json token ≡ some p
      → IsSpent p t m
      → (verify_step_up_token codec json t secret token uid m).0 ≡ err step_up_required
  spent-refused p t token uid m carried spent = elim (verify_outcome t token uid m) [
    | inl accepted ↦
        let (a, e) = verify_accepts codec json t secret token uid m accepted in
        let same : a.payload ≡ p = cc (a.carried, carried) in
        absurd (
          ground (
            arith,
            a.unused,
            a.unexpired,
            ap (λ (q : StepUpPayload). load q.jti m) same,
            ap (λ (q : StepUpPayload). q.exp) same,
          ))
    | inr (refused, same) ↦ refused
  ]

  -- In one process's cache, which a restart clears: once a step-up token has been accepted, it is
  -- refused ever after, for every account, whatever
  -- tokens are presented and however often the janitor prunes in between, as long as the clock does
  -- not run backwards.
  pub no_replay :
      (t : ℕ) (token : Bytes) (uid : ℕ) (m : Consumed) (us : List Use) (later other : ℕ)
      → (verify_step_up_token codec json t secret token uid m).0 ≡ ok tt
      → InOrder t us
      → last_time t us ≤ later
      → (verify_step_up_token codec json later secret token other
          (use_all us (verify_step_up_token codec json t secret token uid m).1)).0
        ≡ err step_up_required
  no_replay t token uid m us later other accepted order h =
      let (a, e) = verify_accepts codec json t secret token uid m accepted in
      let m' : Consumed = (verify_step_up_token codec json t secret token uid m).1 in
      let stored : IsSpent a.payload t m' =
        inl (rw e (unfold load in ground (arith, bytes_eq_iff a.payload.jti a.payload.jti))) in
      let still : IsSpent a.payload (last_time t us) (use_all us m') =
        use_all-IsSpent a.payload us t m' order stored in
      spent-refused a.payload later token other (use_all us m') a.carried (ground arith)
