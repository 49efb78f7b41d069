-- ===== src/Shared/Fault.antt =====
-- The errors that the source throws, as values, and the monad of code that may throw.
use razorpay_hackathon.Base.{String, List, Option, none, some, ◌≡◌, refl, ◌⊎◌, inl, inr}

pub data Fault : Type 0 where
  -- `CanonicalisationError`
  canonicalisation : Fault
  -- "prev_hash must be 32 bytes"
  bad_prev_hash : Fault
  -- SQLSTATE 23505, on the named table
  unique_violation : String → Fault
  -- SQLSTATE 40P01 and 55P03
  deadlock_detected lock_not_available : Fault
  -- `UnknownMandateError`, `UnknownChallengeError`
  unknown_mandate unknown_challenge : String → Fault
  -- "quote was consumed concurrently while the mandate row lock was held"
  consumed_concurrently : String → Fault
  -- `LockContentionError`, with the attempts made
  lock_contention : Fault
  -- `RailTimeoutError`, and any other error of the rail
  rail_timeout rail_rejected : Fault
  -- SQLSTATE 23514, on the named table
  check_violation : String → Fault
  -- `UnknownSkuError` and `QuoteOutOfScopeError`, with the items and categories
  unknown_skus out_of_scope : List String → Fault
  -- an error of another kind
  other : Fault

pub data Result {ℓ} (A : Type ℓ) : Type ℓ where
  ok : A → Result A
  err : Fault → Result A

-- `if (refused) throw e`.
abbrev pub or_throw {ℓ} : {A : Type ℓ} → Option A → Fault → Result A
or_throw none e = err e
or_throw (some a) e = ok a

infixl 5 ◌>>=◌
-- What may throw, and then what its answer is for.
abbrev pub ◌>>=◌ {ℓ κ} : {A : Type ℓ} {B : Type κ} → Result A → (A → Result B) → Result B
err fault >>= next = err fault
ok answer >>= next = next answer

module _ {ℓ κ} {A : Type ℓ} {B : Type κ} where
  -- A chain that answers has a first part that answers.
  pub >>=-eq-ok :
      (first : Result A) (next : A → Result B) {answer : B}
      → (first >>= next) ≡ ok answer
      → (given : A) × (first ≡ ok given) × (next given ≡ ok answer)
  >>=-eq-ok (err thrown) next e = cc
  >>=-eq-ok (ok given) next e = (given, refl, e)

  -- The same, to split on.
  pub data Given (first : Result A) (next : A → Result B) (answer : B) : Type (ℓ ⊔ κ) where
    given : (a : A) → first ≡ ok a → next a ≡ ok answer → Given first next answer

  pub >>=-Given :
      (first : Result A) (next : A → Result B) {answer : B}
      → (first >>= next) ≡ ok answer
      → Given first next answer
  >>=-Given (err thrown) next e = cc
  >>=-Given (ok a) next e = given a refl e

module _ {ℓ} {A : Type ℓ} where
  pub Result-cases : (r : Result A) → ((a : A) × (r ≡ ok a)) ⊎ ((e : Fault) × (r ≡ err e))
  Result-cases (err thrown) = inr (thrown, refl)
  Result-cases (ok answer) = inl (answer, refl)
