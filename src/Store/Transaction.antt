-- ===== src/Store/Transaction.antt =====
-- shared/db/transaction.ts: a transaction that commits or leaves the store as it was, retried on lock
-- contention only.
use mathlib.Core.Path.{subst}
use razorpay_hackathon.Base.{
  ℕ, zero, suc, ◌+◌, ◌≤◌, ◌<◌, nat_eq, ◌≡◌, refl, ◌⊎◌, inl, inr, Bool, true, false, Option, none,
  some, arith, if◌then◌else◌, Bool-cases, Option-cases,
}
use razorpay_hackathon.Shared.Fault.{
  Fault, Result, ok, err, deadlock_detected, lock_not_available, lock_contention, Result-cases,
}
use razorpay_hackathon.Store.Rows.{Db}

abbrev pub is_retryable : Fault → Bool
is_retryable deadlock_detected = true
is_retryable lock_not_available = true
is_retryable _ = false

-- The database contends at an attempt.
pub record Contends (contention : ℕ → Option Fault) (attempt : ℕ) : Type 0 where
  pub fault : Fault
  pub raised : contention attempt ≡ some fault
  pub retryable : is_retryable fault ≡ true

-- Within so many attempts one is free of contention, and the earlier ones met contention only.
abbrev pub FreeWithin : (ℕ → Option Fault) → ℕ → ℕ → Type 0
FreeWithin contention zero attempt = ⊥
FreeWithin contention (suc left) attempt =
    (contention attempt ≡ none)
    ⊎ (Contends contention attempt × FreeWithin contention left (attempt + 1))

module _ {A : Type 0} where
  -- The parameter `contention` is the database's: the error that it raises in an attempt, if any.
  abbrev pub attempt_once : (ℕ → Option Fault) → (Db → Result (A × Db)) → ℕ → Db → Result (A × Db)
  attempt_once contention fn attempt db = elim (contention attempt) [
    | none ↦ fn db
    | some fault ↦ err fault
  ]

  unfoldable pub attempts_from :
      (ℕ → Option Fault) → (Db → Result (A × Db)) → ℕ → ℕ → Db → Result A × Db
  attempts_from contention fn zero attempt db = (err lock_contention, db)
  attempts_from contention fn (suc left) attempt db =
      let again = attempts_from contention fn left (attempt + 1) db in
      elim (attempt_once contention fn attempt db) [
        | ok done ↦ (ok done.0, done.1)
        | err fault ↦ if is_retryable fault then again else (err fault, db)
      ]

  unfoldable pub with_authorization_transaction :
      ℕ → (ℕ → Option Fault) → (Db → Result (A × Db)) → Db → Result A × Db
  unfolding attempts_from
  with_authorization_transaction retry_attempts contention fn =
      attempts_from contention fn retry_attempts 0

  -- An attempt met an error that is retried.
  pub record IsRetried (contention : ℕ → Option Fault) (fn : Db → Result (A × Db)) (db : Db)
      (attempt : ℕ) : Type 0 where
    pub fault : Fault
    pub raised : attempt_once contention fn attempt db ≡ err fault
    pub retryable : is_retryable fault ≡ true

  abbrev pub AllRetried : (ℕ → Option Fault) → (Db → Result (A × Db)) → Db → ℕ → ℕ → Type 0
  AllRetried contention fn db first last =
      (j : ℕ) → first ≤ j → j < last → IsRetried contention fn db j

  -- How a transaction ends whose attempts are those from `first` up to `last`. The first attempt that
  -- is not retried decides: it ran the body on the store and committed, or it threw an error of the
  -- body or of the database, and the store is as before. Where every attempt is retried, it gave up.
  pub data Ends (contention : ℕ → Option Fault) (fn : Db → Result (A × Db)) (db : Db)
      (first last : ℕ) (out : Result A × Db) : Type 0 where
    committed :
        (k : ℕ)
        → first ≤ k
        → k < last
        → AllRetried contention fn db first k
        → contention k ≡ none
        → (a : A) (db' : Db) → fn db ≡ ok (a, db')
        → out ≡ (ok a, db')
        → Ends contention fn db first last out
    threw :
        (k : ℕ)
        → first ≤ k
        → k < last
        → AllRetried contention fn db first k
        → (fault : Fault) → attempt_once contention fn k db ≡ err fault
        → is_retryable fault ≡ false
        → out ≡ (err fault, db)
        → Ends contention fn db first last out
    gave_up :
        AllRetried contention fn db first last
        → out ≡ (err lock_contention, db)
        → Ends contention fn db first last out

  AllRetried-none :
      (contention : ℕ → Option Fault) (fn : Db → Result (A × Db)) (db : Db) (first last : ℕ)
      → last ≤ first
      → AllRetried contention fn db first last
  AllRetried-none contention fn db first last h j low high = absurd (omega (arith, h, low, high))

  AllRetried-next :
      (contention : ℕ → Option Fault) (fn : Db → Result (A × Db)) (db : Db) (first last : ℕ)
      → IsRetried contention fn db first
      → AllRetried contention fn db (first + 1) last
      → AllRetried contention fn db first last
  AllRetried-next contention fn db first last here rest j low high =
      elim (Bool-cases (nat_eq first j)) [
        | inl own ↦
            let same : first ≡ j = ground (arith, own) in
            subst (λ i. IsRetried contention fn db i) same here
        | inr apart ↦ rest j (ground (arith, low, apart)) high
      ]

  Ends-next :
      (contention : ℕ → Option Fault) (fn : Db → Result (A × Db)) (db : Db) (first last : ℕ)
      {out : Result A × Db}
      → IsRetried contention fn db first
      → Ends contention fn db (first + 1) last out
      → Ends contention fn db first last out
  Ends-next contention fn db first last here (committed k low high before free a db' ran out) =
      committed k (omega (arith, low)) high (AllRetried-next contention fn db first k here before)
        free a db' ran out
  Ends-next contention fn db first last here (threw k low high before fault raised final out) =
      threw k (omega (arith, low)) high (AllRetried-next contention fn db first k here before) fault
        raised final out
  Ends-next contention fn db first last here (gave_up all out) =
      gave_up (AllRetried-next contention fn db first last here all) out

  attempt_once-ok :
      (contention : ℕ → Option Fault) (fn : Db → Result (A × Db)) (attempt : ℕ) (db : Db)
      {done : A × Db}
      → attempt_once contention fn attempt db ≡ ok done
      → (contention attempt ≡ none) × (fn db ≡ ok done)
  attempt_once-ok contention fn attempt db e = elim (Option-cases (contention attempt)) [
    | inl free ↦ (free, rw (free, attempt_once) at e)
    | inr (fault, raised) ↦ ground (arith, rw (raised, attempt_once) at e)
  ]

  attempts_from-Ends :
      (contention : ℕ → Option Fault) (fn : Db → Result (A × Db)) (left first last : ℕ) (db : Db)
      → first + left ≡ last
      → Ends contention fn db first last (attempts_from contention fn left first db)
  unfolding attempts_from
  attempts_from-Ends contention fn zero first last db size =
      gave_up (AllRetried-none contention fn db first last (omega (arith, size))) refl
  attempts_from-Ends contention fn (suc left) first last db size =
      let again = attempts_from-Ends contention fn left (first + 1) last db (omega (arith, size)) in
      let none_before = AllRetried-none contention fn db first first (omega arith) in
      elim (Result-cases (attempt_once contention fn first db)) [
        | inl (done, e) ↦
            let (free, ran) = attempt_once-ok contention fn first db e in
            committed first (omega arith) (omega (arith, size)) none_before free done.0 done.1 ran
              (rw (e, attempts_from) refl)
        | inr (fault, e) ↦ elim (Bool-cases (is_retryable fault)) [
          | inl retried ↦
              let here : IsRetried contention fn db first = record {
                fault = fault;
                raised = e;
                retryable = retried;
              } in
              rw (e, attempts_from) (rw retried (Ends-next contention fn db first last here again))
          | inr final ↦
              threw first (omega arith) (omega (arith, size)) none_before fault e final
                (rw (e, attempts_from) (rw final refl))
        ]
      ]

  -- However the database contends and whatever the body does, the first attempt that does not end
  -- in contention decides the transaction: it commits what its body gives on the store, or answers
  -- the error that this attempt met and leaves the store as it was. The transaction answers
  -- contention, and leaves the store as it was, only where all its attempts ended in contention.
  pub with_authorization_transaction-Ends :
      (retry_attempts : ℕ) (contention : ℕ → Option Fault) (fn : Db → Result (A × Db)) (db : Db)
      → Ends contention fn db 0 retry_attempts
          (with_authorization_transaction retry_attempts contention fn db)
  unfolding with_authorization_transaction
  with_authorization_transaction-Ends retry_attempts contention fn db =
      attempts_from-Ends contention fn retry_attempts 0 retry_attempts db (omega arith)

  attempts_from-commits :
      (contention : ℕ → Option Fault) (fn : Db → Result (A × Db)) (left attempt : ℕ) (db : Db)
      {a : A} {db' : Db}
      → FreeWithin contention left attempt
      → fn db ≡ ok (a, db')
      → attempts_from contention fn left attempt db ≡ (ok a, db')
  unfolding attempts_from
  attempts_from-commits contention fn zero attempt db free done = elim free [ ]
  attempts_from-commits contention fn (suc left) attempt db free done = elim free [
    | inl now ↦ rw (now, attempts_from) (rw done)
    | inr (busy, later) ↦
        rw (busy.raised, attempts_from)
          (rw (busy.retryable, attempts_from)
            (attempts_from-commits contention fn left (attempt + 1) db later done))
  ]

  -- Where one of the attempts is free of contention and the ones before it met contention
  -- only, a transaction whose body succeeds commits what the body gives.
  pub with_authorization_transaction-commits :
      (retry_attempts : ℕ) (contention : ℕ → Option Fault) (fn : Db → Result (A × Db)) (db : Db)
      {a : A} {db' : Db}
      → FreeWithin contention retry_attempts 0
      → fn db ≡ ok (a, db')
      → with_authorization_transaction retry_attempts contention fn db ≡ (ok a, db')
  unfolding with_authorization_transaction
  with_authorization_transaction-commits retry_attempts contention fn db free done =
      attempts_from-commits contention fn retry_attempts 0 db free done
