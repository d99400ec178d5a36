-- ===== src/Outcome.antt =====
-- How a service call ends: `AppError` of src/plugins/errorHandler.ts and the errors of the
-- database, with the state that is left. What is written before a throw stays written, unless the
-- statements stand in a transaction.
pub mod Response
use flagraft.Prelude.{ℕ, Bool, Option, none, some, String, ◌≡◌, refl, if◌then◌else◌}

-- The three fields of an `AppError`: the message, the status code and the code.
pub record AppError : Type 0 where
  pub message : String
  pub status_code : ℕ
  pub code : String

pub data Failure : Type 0 where
  app : AppError → Failure
  -- PostgreSQL's error 23505, a unique constraint violated.
  unique_violation : Failure
  -- Any other error of the database, such as a foreign key that is not there.
  db_error : Failure
  -- A request that does not fit its zod schema.
  validation : Failure
  -- A JavaScript `TypeError`.
  type_error : Failure

pub data Result {ℓ} (A : Type ℓ) : Type ℓ where
  ok : A → Result A
  err : Failure → Result A

abbrev pub Exec {ℓ} : Type ℓ → Type ℓ → Type ℓ
Exec S A = S → Result A × S

-- `throw new AppError(message, status, code)`
abbrev pub app_error : String → ℕ → String → Failure
app_error message status code =
    app (record { message = message; status_code = status; code = code })

module _ {ℓ} {S A : Type ℓ} where
  abbrev pub pure : A → Exec S A
  pure a s = (ok a, s)

  abbrev pub throw : Failure → Exec S A
  throw e s = (err e, s)

  abbrev pub gets : (S → A) → Exec S A
  gets f s = (ok (f s), s)

  -- The first row, or the error where there is none.
  abbrev pub require : Option A → Failure → Exec S A
  require none e s = (err e, s)
  require (some a) e s = (ok a, s)

  -- A throw inside a transaction rolls its writes back.
  abbrev rolled_back : Result A × S → S → Result A × S
  rolled_back (ok a, s') s = (ok a, s')
  rolled_back (err e, s') s = (err e, s)

  abbrev pub transaction : Exec S A → Exec S A
  transaction m s = rolled_back (m s) s

module _ {S : Type 0} where
  abbrev pub modify : (S → S) → Exec S (Unit {0})
  modify f s = (ok tt, f s)

  -- Throws where the test holds.
  abbrev pub throw_if : Bool → Failure → Exec S (Unit {0})
  throw_if b e s = (if b then err e else ok tt, s)

module _ {ℓ} {S A B : Type ℓ} where
  abbrev pub after : Result A × S → (A → Exec S B) → Result B × S
  after (ok a, s) f = f a s
  after (err e, s) f = (err e, s)

  infixl 10 ◌>>=◌ ◌>>◌
  abbrev pub ◌>>=◌ : Exec S A → (A → Exec S B) → Exec S B
  ◌>>=◌ m f s = after (m s) f

  abbrev pub ◌>>◌ : Exec S A → Exec S B → Exec S B
  m >> n = m >>= λ _. n

  after_same :
      (r : Result A × S) (f g : A → Exec S B)
      → ((a : A) (s : S) → f a s ≡ g a s)
      → after r f ≡ after r g
  after_same (ok a, s) f g h = h a s
  after_same (err e, s) f g h = refl

  -- What follows matters only where it runs.
  pub then_same :
      (m : Exec S A) (n k : Exec S B) (s : S) → ((t : S) → n t ≡ k t) → (m >> n) s ≡ (m >> k) s
  then_same m n k s h = after_same (m s) (λ _. n) (λ _. k) (λ _ t. h t)

  -- Where a call leads to, and what follows it from there.
  pub bind_leads {κ} :
      (Q R : S → Type κ) (r : Result A × S) (f : A → Exec S B)
      → Q r.1
      → ((s : S) → Q s → R s)
      → ((a : A) (s : S) → Q s → R (f a s).1)
      → R (after r f).1
  bind_leads Q R (ok a, s) f q h k = k a s q
  bind_leads Q R (err e, s) f q h k = h s q

  -- What a call and what follows it keep, the two keep together.
  pub bind_keeps {κ} :
      (Q : S → Type κ) (r : Result A × S) (f : A → Exec S B)
      → Q r.1
      → ((a : A) (s : S) → Q s → Q (f a s).1)
      → Q (after r f).1
  bind_keeps Q r f q h = bind_leads Q Q r f q (λ s q'. q') h
