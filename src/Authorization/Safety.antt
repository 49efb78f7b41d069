-- ===== src/Authorization/Safety.antt =====
-- What one authorisation guarantees: the limits, replay, what a denial leaves alone, and the ledger.
use razorpay_hackathon.Base.{
  find_holds, ℕ, ◌+◌, ◌≤◌, ◌<◌, ◌≡◌, ◌∙◌, ◌≢◌, Option, some, [], ◌∷◌, ◌++◌, arith, ◌==◌, ==_iff,
  if-le,
}
use razorpay_hackathon.Shared.Reason.{Verdict, ReasonCode, verdict_for_reason, deny}
use razorpay_hackathon.Shared.Crypto.{Runtime, Date}
use razorpay_hackathon.Shared.Fault.{ok}
use razorpay_hackathon.Policy.Facts.{VerifierOutcome}
use razorpay_hackathon.Policy.Permission.{IsAdmissible, not_denied-IsAdmissible}
use razorpay_hackathon.Store.Rows.{LockedMandate, Db}
use razorpay_hackathon.Store.Reads.{
  counts, hour, lock_mandate, sum_reserved_and_captured, count_reservations_last_hour,
}
use razorpay_hackathon.Authorization.Request.{FreshIds, AuthorizationRequest, Decision}
use razorpay_hackathon.Authorization.Locked.{locked_facts, run_with_mandate, run_locked}
use razorpay_hackathon.Authorization.Run.{burn, facts_of, outcome_of, IsRun, run_IsRun}
use razorpay_hackathon.Authorization.Recorded.{record_decision-Extends}
use razorpay_hackathon.Authorization.Reserved.{IsHeld, reserve-IsHeld, challenge_rows, hold}
use razorpay_hackathon.Authorization.Cap.{sum_of-append, length-select-append}

module _ (rt : Runtime) (ttl : ℕ) (request : AuthorizationRequest) (failure : Option ReasonCode)
    (verifier : VerifierOutcome) (now : Date) (ids : FreshIds) where
  pub run_locked_mandate :
      (db : Db) {m : LockedMandate} {d : Decision} {db' : Db}
      → lock_mandate db request.signed_intent.intent.mandate_id ≡ some m
      → run_locked rt ttl request failure verifier now ids db ≡ ok (d, db')
      → run_with_mandate rt ttl request failure verifier now ids m db ≡ ok (d, db')
  unfolding run_locked
  run_locked_mandate db found e = rw found at e

  module _ (db : Db) {m : LockedMandate} {d : Decision} {db' : Db}
      (denies : (code : ReasonCode) → failure ≡ some code → verdict_for_reason code ≡ Verdict.deny)
      (found : lock_mandate db request.signed_intent.intent.mandate_id ≡ some m)
      (done : run_locked rt ttl request failure verifier now ids db ≡ ok (d, db')) where
    pub the_run : IsRun rt ttl request failure verifier now ids m db d db'
    the_run =
        run_IsRun rt ttl request failure verifier now ids m db (run_locked_mandate db found done)

    pub named_mandate : m.mandate_id ≡ request.signed_intent.intent.mandate_id
    named_mandate = (==_iff m.mandate_id request.signed_intent.intent.mandate_id).0 (
        find_holds (λ x. x.mandate_id == request.signed_intent.intent.mandate_id) db.mandates m
          found)

    -- From the hold on, only the challenges, the ledger and the chain head of the mandate change.
    pub record IsKept (from to : Db) : Type 0 where
      pub time : to.now ≡ from.now
      pub nonces : to.nonces ≡ from.nonces
      pub quotes : to.quotes ≡ from.quotes
      pub reservations : to.reservations ≡ from.reservations

    pub run_locked-IsKept : IsKept the_run.reserved.1 db'
    run_locked-IsKept =
        let run = the_run in
        let outcome = outcome_of rt ttl request failure verifier now ids m db in
        let c =
          challenge_rows rt ttl request failure verifier now ids m outcome.verdict run.reserved.1
            run.was_challenged in
        let (_, x, _) =
          record_decision-Extends rt ttl request failure verifier now ids m outcome run.reserved.0
            run.challenged.1 run.was_recorded in
        let rows = x.rows in let store = run.store in ground (arith, c, rows, store)

    -- A verdict other than DENY was given to admissible facts.
    pub facts-IsAdmissible :
        d.verdict ≢ deny → IsAdmissible (facts_of rt ttl request failure verifier now ids m db)
    facts-IsAdmissible h =
        not_denied-IsAdmissible rt.iso_string
          (facts_of rt ttl request failure verifier now ids m db) (unfold locked_facts in denies)
          (λ e. h (the_run.verdict ∙ e))

    pub run_locked-IsHeld :
        d.verdict ≢ deny
        → IsHeld rt ttl request failure verifier now ids m
            (outcome_of rt ttl request failure verifier now ids m db).verdict
            (burn rt ttl request failure verifier now ids db).1
            the_run.reserved.0
            the_run.reserved.1
    run_locked-IsHeld h =
        reserve-IsHeld rt ttl request failure verifier now ids m _ _ (λ e. h (the_run.verdict ∙ e))
          the_run.was_reserved

    -- The reservations after a run that did not deny.
    pub reservations_held :
        d.verdict ≢ deny
        → db'.reservations
          ≡ db.reservations ++ hold rt ttl request failure verifier now ids m d.verdict db.now ∷ []
    reservations_held h =
        let held = run_locked-IsHeld h in
        let kept = run_locked-IsKept in
        let verdict = the_run.verdict in rw verdict (ground (arith, held, kept))

    pub limits_before :
        d.verdict ≢ deny
        → (sum_reserved_and_captured db m.mandate_id m.cumulative_window
              + request.signed_intent.intent.amount_paise
            ≤ m.cumulative_paise)
          × (request.signed_intent.intent.amount_paise ≤ m.per_transaction_paise)
          × (count_reservations_last_hour db m.mandate_id < m.velocity_per_hour)
    unfolding locked_facts
    limits_before h = let a = facts-IsAdmissible h in ground (arith, a)

    -- A run under the lock that succeeded for a mandate it found, with no stateless failure
    -- but one that denies, and that did not deny, keeps the mandate's limits, by the store
    -- as it is afterwards: what is held or captured in the cumulative window is within the
    -- cumulative limit, the amount within the limit of a transaction, and the reservations
    -- of the last hour within the velocity.
    pub run_locked_within_limits :
        d.verdict ≢ deny
        → (sum_reserved_and_captured db' m.mandate_id m.cumulative_window ≤ m.cumulative_paise)
          × (request.signed_intent.intent.amount_paise ≤ m.per_transaction_paise)
          × (count_reservations_last_hour db' m.mandate_id ≤ m.velocity_per_hour)
    run_locked_within_limits h =
        let (cumulative, transaction, velocity) = limits_before h in
        let kept = run_locked-IsKept in
        let held = run_locked-IsHeld h in
        let r = hold rt ttl request failure verifier now ids m d.verdict db.now in
        let added = reservations_held h in
        let time : db'.now ≡ db.now = ground (arith, held, kept) in
        rw (added, time)
          (
            omega (
              arith,
              sum_of-append (counts m.mandate_id m.cumulative_window db.now) db.reservations r,
              if-le (counts m.mandate_id m.cumulative_window db.now r) r.amount_paise,
            ),
            transaction,
            omega (arith, length-select-append (counts m.mandate_id hour db.now) db.reservations r),
          )
