-- ===== src/Authorization/Chained.antt =====
-- The ledger and the tables after one authorisation.
use razorpay_hackathon.Base.{
  ℕ, String, ◌≡◌, sym, ◌∙◌, ap, ◌≢◌, ◌⊎◌, inl, inr, Option, none, some, List, ◌++◌, arith, any,
  true, ◌==◌,
}
use razorpay_hackathon.Shared.Reason.{Verdict, ReasonCode, verdict_for_reason}
use razorpay_hackathon.Shared.Crypto.{Runtime, Date}
use razorpay_hackathon.Shared.Fault.{ok}
use razorpay_hackathon.Policy.Facts.{VerifierOutcome}
use razorpay_hackathon.Policy.Permission.{is_deny-cases}
use razorpay_hackathon.Ledger.Entry.{StoredEntry, read_chain}
use razorpay_hackathon.Ledger.Chain.{HasChain}
use razorpay_hackathon.Store.Rows.{LockedMandate, NonceRow, Db}
use razorpay_hackathon.Store.Reads.{lock_mandate}
use razorpay_hackathon.Authorization.Request.{FreshIds, AuthorizationRequest, Decision}
use razorpay_hackathon.Authorization.Locked.{run_locked}
use razorpay_hackathon.Authorization.Run.{burn, outcome_of, burn_spends}
use razorpay_hackathon.Authorization.Reserved.{reserve_denied, challenge_rows}
use razorpay_hackathon.Authorization.Recorded.{record_decision-Extends, kinds, expected_kinds}
use razorpay_hackathon.Authorization.Safety.{the_run, run_locked-IsKept, run_locked-IsHeld}

module _ (rt : Runtime) (ttl : ℕ) (request : AuthorizationRequest) (failure : Option ReasonCode)
    (verifier : VerifierOutcome) (now : Date) (ids : FreshIds) (db : Db) {m : LockedMandate}
    {d : Decision} {db' : Db}
    (denies : (code : ReasonCode) → failure ≡ some code → verdict_for_reason code ≡ Verdict.deny)
    (found : lock_mandate db request.signed_intent.intent.mandate_id ≡ some m)
    (done : run_locked rt ttl request failure verifier now ids db ≡ ok (d, db')) where
  reserved_from :
      ((d.verdict ≡ Verdict.deny) ⊎ (d.verdict ≢ Verdict.deny))
      → let run = the_run rt ttl request failure verifier now ids db denies found done in
        (run.reserved.1.ledger ≡ db.ledger)
  reserved_from (inl denied) =
      let run = the_run rt ttl request failure verifier now ids db denies found done in
      let same : (outcome_of rt ttl request failure verifier now ids m db).verdict ≡ Verdict.deny =
        sym run.verdict ∙ denied in
      let (_, e) =
        reserve_denied rt ttl request failure verifier now ids m
          (burn rt ttl request failure verifier now ids db).1 (rw same at run.was_reserved) in
      ground (arith, e)
  reserved_from (inr other) =
      let held =
        run_locked-IsHeld rt ttl request failure verifier now ids db denies found done other in
      ground (arith, held)

  -- A run that succeeded for a mandate whose chain is well formed, with no stateless failure
  -- but one that denies, appends to that chain exactly an INTENT, a DECISION and, where a hold
  -- was written, a RESERVATION entry, in that order, whatever the verdict. The chain stays
  -- well formed, and every other chain is as it was.
  pub run_locked_entries :
      HasChain rt db.ledger m.mandate_id
      → (es : List StoredEntry) × (read_chain db'.ledger m.mandate_id
          ≡ read_chain db.ledger m.mandate_id ++ es)
        × (kinds es ≡ expected_kinds d.reservation_id)
        × HasChain rt db'.ledger m.mandate_id
        × ((other : String)
            → m.mandate_id ≢ other
            → read_chain db'.ledger other ≡ read_chain db.ledger other)
  run_locked_entries h =
      let run = the_run rt ttl request failure verifier now ids db denies found done in
      let outcome = outcome_of rt ttl request failure verifier now ids m db in
      let (es, x, ks) =
        record_decision-Extends rt ttl request failure verifier now ids m outcome run.reserved.0
          run.challenged.1 run.was_recorded in
      let c =
        challenge_rows rt ttl request failure verifier now ids m outcome.verdict run.reserved.1
          run.was_challenged in
      let before : run.challenged.1.ledger ≡ db.ledger =
        c.ledger ∙ reserved_from (is_deny-cases d.verdict) in
      let after : db'.ledger ≡ run.recorded.2.ledger = ap (λ (s : Db). s.ledger) run.store in
      let h' : HasChain rt run.challenged.1.ledger m.mandate_id = rw before h in
      (
        es,
        rw (after, ← before) (x.chain h'),
        rw run.reservation_id ks,
        rw after (x.well_formed h'),
        λ other ne. rw (after, ← before) (x.others other ne),
      )

  -- A run that succeeded for a mandate it found, with no stateless failure but one that
  -- denies, and that denied, writes no reservation and consumes no quote, but the nonce is
  -- spent all the same.
  pub run_locked_denied :
      d.verdict ≡ Verdict.deny
      → (db'.reservations ≡ db.reservations)
        × (db'.quotes ≡ db.quotes)
        × (d.reservation_id ≡ none)
        × (any (λ (n : NonceRow). n.nonce == request.signed_intent.intent.nonce) db'.nonces ≡ true)
  run_locked_denied denied =
      let run = the_run rt ttl request failure verifier now ids db denies found done in
      let kept = run_locked-IsKept rt ttl request failure verifier now ids db denies found done in
      let same : (outcome_of rt ttl request failure verifier now ids m db).verdict ≡ Verdict.deny =
        sym run.verdict ∙ denied in
      let (none_held, e) =
        reserve_denied rt ttl request failure verifier now ids m
          (burn rt ttl request failure verifier now ids db).1 (rw same at run.was_reserved) in
      let burnt = burn_spends rt ttl request failure verifier now ids db in
      (
        ground (arith, kept, e),
        ground (arith, kept, e),
        run.reservation_id ∙ none_held,
        rw (kept.nonces ∙ ap (λ (s : Db). s.nonces) e) burnt,
      )
