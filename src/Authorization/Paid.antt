-- ===== src/Authorization/Paid.antt =====
-- When the executor is called at all, from the request to the call.
use razorpay_hackathon.Base.{
  ℕ, ◌≤◌, ◌≡◌, refl, sym, ◌∙◌, ◌≢◌, inl, inr, Option, none, some, [], ◌∷◌, ◌++◌, ap, All, length,
  arith, Bool-cases, Option-cases, if◌then◌else◌,
}
use razorpay_hackathon.Shared.Reason.{Verdict, ReasonCode, verdict_for_reason}
use razorpay_hackathon.Shared.Money.{Paise}
use razorpay_hackathon.Shared.Crypto.{Runtime}
use razorpay_hackathon.Shared.Fault.{Fault, ok, lock_contention, Result-cases}
use razorpay_hackathon.Policy.Facts.{VerifierOutcome}
use razorpay_hackathon.Store.Rows.{LockedMandate, Db}
use razorpay_hackathon.Store.Reads.{
  find_agent, find_verification_key, lock_mandate, sum_reserved_and_captured,
}
use razorpay_hackathon.Store.Transaction.{
  committed, threw, gave_up, with_authorization_transaction-Ends,
}
use razorpay_hackathon.Authorization.Request.{AuthorizationRequest, Decision}
use razorpay_hackathon.Authorization.Stateless.{StatelessKeys, run_stateless_checks}
use razorpay_hackathon.Authorization.Authentic.{
  IsAuthentic, run_stateless_checks-none_iff, run_stateless_checks_denies,
}
use razorpay_hackathon.Authorization.Locked.{locked_facts, run_locked}
use razorpay_hackathon.Authorization.Reserved.{hold}
use razorpay_hackathon.Authorization.Safety.{
  facts-IsAdmissible, reservations_held, run_locked_within_limits,
}
use razorpay_hackathon.Authorization.StepUp.{is_allow}
use razorpay_hackathon.Authorization.Service.{
  KernelConfig, Environment, Outcome, ExecuteRequest, settle, on_error, authorize_checked,
  authorize, run_verifier, public_key_of, quote_key_of,
}

verdict-contra : Verdict.allow ≡ Verdict.deny → ⊥
verdict-contra e = cc

-- What a run under the lock was given by the verifier.
abbrev pub verifier_for : Environment → Option ReasonCode → VerifierOutcome
verifier_for env none = run_verifier env.verifier
verifier_for env (some _) = VerifierOutcome.proceed

module _ (rt : Runtime) (config : KernelConfig) (env : Environment)
    (request : AuthorizationRequest) where
  on_error-executions :
      (fault : Fault) (db : Db) → (on_error rt config env request fault db).executions ≡ []
  unfolding on_error
  on_error-executions fault db = ground arith

  -- The run that allowed what the executor was called for.
  record IsAllowed (failure : Option ReasonCode) (db : Db) (out : Outcome) : Type 0 where
    decision : Decision
    ran :
        run_locked rt config.challenge_ttl_ms request failure
          (verifier_for env failure)
          env.clock
          env.ids
          db
        ≡ ok (decision, out.store)
    allowed : decision.verdict ≡ Verdict.allow
    answered : out.answer ≡ ok decision
    sent : out.executions ≡ settle rt config env decision request.signed_intent.intent.amount_paise

  authorize_checked-IsAllowed :
      (failure : Option ReasonCode) (db : Db)
      → (authorize_checked rt config env request failure db).executions ≢ []
      → IsAllowed failure db (authorize_checked rt config env request failure db)
  unfolding authorize_checked
  authorize_checked-IsAllowed failure db called =
      elim (with_authorization_transaction-Ends config.retry_attempts env.contention
        (run_locked rt config.challenge_ttl_ms request failure (verifier_for env failure) env.clock
          env.ids)
        db) [
          | committed k low high before free decision db' ran out ↦
              elim (Bool-cases (is_allow decision.verdict)) [
                | inr refused ↦ absurd (called (ground (arith, out, refused)))
                | inl allowed ↦
                    let stored : (authorize_checked rt config env request failure db).store ≡ db' =
                      ground (arith, out) in
                    record {
                      decision = decision;
                      ran = rw stored ran;
                      allowed = ground (arith, allowed);
                      answered = ground (arith, out);
                      sent = ground (arith, out, allowed);
                    }
              ]
          | threw k low high before fault raised final out ↦
              absurd (called (ground (arith, out, on_error-executions fault db)))
          | gave_up all out ↦
              absurd (called (ground (arith, out, on_error-executions lock_contention db)))
        ]

  abbrev pub keys_for : Db → StatelessKeys
  keys_for db = record {
    agent_public_key = public_key_of (find_agent db request.signed_intent.agent_id);
    quote_public_key = quote_key_of (find_verification_key db request.signed_quote.kid);
  }

  authorize-IsAllowed :
      (db : Db)
      → (authorize rt config env request db).executions ≢ []
      → (failure : Option ReasonCode) × (run_stateless_checks rt request (keys_for db) env.clock
          ≡ ok failure)
        × IsAllowed failure db (authorize rt config env request db)
  unfolding authorize
  authorize-IsAllowed db called =
      elim (Result-cases (run_stateless_checks rt request (keys_for db) env.clock)) [
        | inr (fault, thrown) ↦
            absurd (called (ground (arith, thrown, on_error-executions fault db)))
        | inl (failure, checked) ↦
            let same : authorize rt config env request db
                ≡ authorize_checked rt config env request failure db =
              rw (authorize, checked) refl in
            (failure, checked, rw same (authorize_checked-IsAllowed failure db (rw same at called)))
      ]

  settle-amount :
      (decision : Decision) (amount : Paise)
      → All (λ (x : ExecuteRequest). x.amount_paise ≡ amount) (settle rt config env decision amount)
        × (length (settle rt config env decision amount) ≤ 1)
  unfolding settle
  settle-amount decision amount = elim (Bool-cases config.has_executor) [
    | inl some_executor ↦ rw (some_executor, if◌then◌else◌) ((refl, tt), omega arith)
    | inr no_executor ↦ rw (no_executor, if◌then◌else◌) (tt, omega arith)
  ]

  run_locked-found :
      (failure : Option ReasonCode) (verifier : VerifierOutcome) (db : Db) {d : Decision} {db' : Db}
      → run_locked rt config.challenge_ttl_ms request failure verifier env.clock env.ids db
        ≡ ok (d, db')
      → (m : LockedMandate) × (lock_mandate db request.signed_intent.intent.mandate_id ≡ some m)
  unfolding run_locked
  run_locked-found failure verifier db e =
      elim (Option-cases (lock_mandate db request.signed_intent.intent.mandate_id)) [
        | inl unknown ↦ ground arith
        | inr found ↦ found
      ]

  -- A call that is sent to the executor is for the intent's amount, at most one call is sent, and then
  -- the request is authentic, its mandate exists, the hold of the intent was added to the reservations
  -- of the store that the authorisation leaves, and by that store what is held or captured in the
  -- cumulative window is within the mandate's cumulative limit.
  pub authorize-executions :
      (db : Db)
      → (authorize rt config env request db).executions ≢ []
      → All
          (λ (x : ExecuteRequest). x.amount_paise ≡ request.signed_intent.intent.amount_paise)
          (authorize rt config env request db).executions
        × (length (authorize rt config env request db).executions ≤ 1)
        × IsAuthentic rt request (keys_for db) env.clock
        × (m : LockedMandate) × (lock_mandate db request.signed_intent.intent.mandate_id ≡ some m)
        × ((authorize rt config env request db).store.reservations
            ≡ db.reservations
              ++ hold rt config.challenge_ttl_ms request none
                  (verifier_for env none)
                  env.clock
                  env.ids
                  m
                  Verdict.allow
                  db.now
                ∷ [])
        × (sum_reserved_and_captured
              (authorize rt config env request db).store
              m.mandate_id
              m.cumulative_window
            ≤ m.cumulative_paise)
  authorize-executions db called =
      let (failure, checked, run) = authorize-IsAllowed db called in
      let (m, found) = run_locked-found failure (verifier_for env failure) db run.ran in
      let denies : (code : ReasonCode)
          → failure ≡ some code
          → verdict_for_reason code ≡ Verdict.deny =
        λ code e.
          run_stateless_checks_denies rt request (keys_for db) env.clock code (checked ∙ ap ok e) in
      let other : run.decision.verdict ≢ Verdict.deny = λ e. verdict-contra (sym run.allowed ∙ e) in
      let ttl : ℕ = config.challenge_ttl_ms in
      let verifier : VerifierOutcome = verifier_for env failure in
      let a =
        facts-IsAdmissible rt ttl request failure verifier env.clock env.ids db denies found run.ran
          other in
      let held =
        reservations_held rt ttl request failure verifier env.clock env.ids db denies found run.ran
          other in
      let limits =
        run_locked_within_limits rt ttl request failure verifier env.clock env.ids db denies found
          run.ran other in
      let clean : failure ≡ none = unfold locked_facts in a.stateless in
      let (amounts, once) = settle-amount run.decision request.signed_intent.intent.amount_paise in
      (
        rw run.sent amounts,
        rw run.sent once,
        (run_stateless_checks-none_iff rt request (keys_for db) env.clock).0
            (checked ∙ ap ok clean),
        m,
        found,
        rw run.allowed at held,
        limits.0,
      )
