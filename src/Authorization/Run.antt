-- ===== src/Authorization/Run.antt =====
-- A run under the lock, taken apart: the stages that succeeded, and which table each one touches.
use razorpay_hackathon.Base.{
  ℕ, String, ◌≡◌, inl, inr, Bool, true, Option, some, arith, Bool-cases, any, any-append_last, ◌==◌,
  ==_refl, if◌then◌else◌,
}
use razorpay_hackathon.Shared.Reason.{ReasonCode}
use razorpay_hackathon.Shared.Crypto.{Runtime, Date}
use razorpay_hackathon.Shared.Fault.{ok, >>=-eq-ok}
use razorpay_hackathon.Policy.Facts.{VerifierOutcome, PolicyFacts, PolicyOutcome}
use razorpay_hackathon.Policy.Engine.{evaluate}
use razorpay_hackathon.Ledger.Entry.{StoredEntry}
use razorpay_hackathon.Store.Rows.{LockedMandate, NonceRow, Db}
use razorpay_hackathon.Store.Writes.{burn_nonce, update_chain_head}
use razorpay_hackathon.Authorization.Request.{FreshIds, AuthorizationRequest, Decision}
use razorpay_hackathon.Authorization.Locked.{locked_facts, reserve, challenge, run_with_mandate}
use razorpay_hackathon.Authorization.Entries.{record_decision}

-- Two stores that differ in the ledger and the mandates at most.
pub record SameRows (db db' : Db) : Type 0 where
  pub now : db'.now ≡ db.now
  pub nonces : db'.nonces ≡ db.nonces
  pub quotes : db'.quotes ≡ db.quotes
  pub reservations : db'.reservations ≡ db.reservations
  pub challenges : db'.challenges ≡ db.challenges
  pub orders : db'.orders ≡ db.orders

module _ (rt : Runtime) (ttl : ℕ) (request : AuthorizationRequest) (failure : Option ReasonCode)
    (verifier : VerifierOutcome) (now : Date) (ids : FreshIds) where
  abbrev pub burn : Db → Bool × Db
  burn db =
      let intent = request.signed_intent.intent in
      burn_nonce db (record {
        nonce = intent.nonce;
        mandate_id = intent.mandate_id;
        intent_id = intent.intent_id;
      })

  abbrev pub facts_of : LockedMandate → Db → PolicyFacts
  facts_of mandate db =
      locked_facts rt ttl request failure verifier now ids mandate (burn db).0 (burn db).1

  abbrev pub outcome_of : LockedMandate → Db → PolicyOutcome
  outcome_of mandate db = evaluate rt.iso_string (facts_of mandate db)

  -- After the attempt to burn it the nonce is spent.
  pub burn_spends :
      (db : Db)
      → any (λ (n : NonceRow). n.nonce == request.signed_intent.intent.nonce) (burn db).1.nonces
        ≡ true
  burn_spends db =
      let nonce = request.signed_intent.intent.nonce in
      elim (Bool-cases (any (λ (n : NonceRow). n.nonce == nonce) db.nonces)) [
        | inl spent ↦ rw (spent, if◌then◌else◌) spent
        | inr fresh ↦
            rw (fresh, if◌then◌else◌)
              (any-append_last (λ (n : NonceRow). n.nonce == nonce) db.nonces _ (==_refl nonce))
      ]

  pub record IsRun (mandate : LockedMandate) (db : Db) (d : Decision) (db' : Db) : Type 0 where
    pub reserved : Option String × Db
    pub challenged : Option String × Db
    pub recorded : StoredEntry × StoredEntry × Db
    pub was_reserved :
        reserve rt ttl request failure verifier now ids mandate
          (outcome_of mandate db).verdict
          (burn db).1
        ≡ ok reserved
    pub was_challenged :
        challenge rt ttl request failure verifier now ids mandate
          (outcome_of mandate db).verdict
          reserved.1
        ≡ ok challenged
    pub was_recorded :
        record_decision rt ttl request failure verifier now ids mandate
          (outcome_of mandate db)
          reserved.0
          challenged.1
        ≡ ok recorded
    pub verdict : d.verdict ≡ (outcome_of mandate db).verdict
    pub reason_code : d.reason_code ≡ (outcome_of mandate db).reason_code
    pub reservation_id : d.reservation_id ≡ reserved.0
    pub ledger_seq : d.ledger_seq ≡ some recorded.0.seq
    pub store : db' ≡ update_chain_head recorded.2 mandate.mandate_id recorded.1.seq recorded.1.hash

  pub run_IsRun :
      (mandate : LockedMandate) (db : Db) {d : Decision} {db' : Db}
      → run_with_mandate rt ttl request failure verifier now ids mandate db ≡ ok (d, db')
      → IsRun mandate db d db'
  unfolding run_with_mandate
  run_IsRun mandate db e =
      let outcome = outcome_of mandate db in
      let (reserved, er, e₁) =
        >>=-eq-ok
          (reserve rt ttl request failure verifier now ids mandate outcome.verdict (burn db).1) _
          e in
      let (challenged, ec, e₂) =
        >>=-eq-ok
          (challenge rt ttl request failure verifier now ids mandate outcome.verdict reserved.1) _
          e₁ in
      let (recorded, ed, e₃) =
        >>=-eq-ok
          (record_decision rt ttl request failure verifier now ids mandate outcome reserved.0
            challenged.1)
          _ e₂ in
      record {
        reserved = reserved;
        challenged = challenged;
        recorded = recorded;
        was_reserved = er;
        was_challenged = ec;
        was_recorded = ed;
        verdict = ground arith;
        reason_code = ground arith;
        reservation_id = ground arith;
        ledger_seq = ground arith;
        store = ground arith;
      }
