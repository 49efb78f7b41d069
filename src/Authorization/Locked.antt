-- ===== src/Authorization/Locked.antt =====
-- authorization.service.ts: what runs under the mandate row lock (`runLocked`).
use razorpay_hackathon.Base.{
  ℕ, ◌+◌, String, Bool, true, false, not, Option, none, some, [], if◌then◌else◌, is_some,
}
use razorpay_hackathon.Shared.Reason.{Verdict, ReasonCode, allow, deny, step_up}
use razorpay_hackathon.Shared.Crypto.{Runtime, Date, idempotency_key}
use razorpay_hackathon.Shared.Fault.{
  Result, ok, err, ◌>>=◌, or_throw, unknown_mandate, consumed_concurrently,
}
use razorpay_hackathon.Policy.Facts.{VerifierOutcome, PolicyFacts, QuoteFacts}
use razorpay_hackathon.Policy.Engine.{evaluate}
use razorpay_hackathon.Store.Rows.{LockedMandate, QuoteRow, ReservationState, ChallengeState, Db}
use razorpay_hackathon.Store.Reads.{
  lock_mandate, find_quote, sum_reserved_and_captured, count_reservations_last_hour,
  has_captured_at_merchant, is_agent_registered,
}
use razorpay_hackathon.Store.Writes.{
  burn_nonce, consume_quote, insert_reservation, insert_challenge, update_chain_head,
}
use razorpay_hackathon.Authorization.Entries.{record_decision}
use razorpay_hackathon.Authorization.Request.{FreshIds, AuthorizationRequest, Intent, Decision}

-- The quote's facts come from the stored row; a missing row prices nothing and has expired.
abbrev pub quote_facts : Intent → Option QuoteRow → QuoteFacts
quote_facts intent none = record {
  quote_id = intent.quote_id;
  mandate_id = "";
  amount_paise = 0;
  categories = [];
  expires_at = 0;
}
quote_facts intent (some q) = record {
  quote_id = q.quote_id;
  mandate_id = q.mandate_id;
  amount_paise = q.amount_paise;
  categories = q.categories;
  expires_at = q.expires_at;
}

abbrev pub is_consumed : Option QuoteRow → Bool
is_consumed none = false
is_consumed (some q) = is_some q.consumed_at

module _ (rt : Runtime) (challenge_ttl_ms : ℕ) (request : AuthorizationRequest)
    (stateless_failure : Option ReasonCode) (verifier : VerifierOutcome) (now : Date)
    (ids : FreshIds) where
  -- The facts, read from the store after the attempt to burn the nonce.
  unfoldable pub locked_facts : LockedMandate → Bool → Db → PolicyFacts
  locked_facts mandate nonce_burned db =
      let intent = request.signed_intent.intent in
      let quote = find_quote db intent.quote_id in
      record {
        now = now;
        stateless_failure = stateless_failure;
        verifier = verifier;
        mandate = record {
          mandate_id = mandate.mandate_id;
          merchant_id = mandate.merchant_id;
          agent_id = mandate.agent_id;
          state = mandate.state;
          not_before = mandate.not_before;
          not_after = mandate.not_after;
          per_transaction_paise = mandate.per_transaction_paise;
          cumulative_paise = mandate.cumulative_paise;
          velocity_per_hour = mandate.velocity_per_hour;
          silent_threshold_paise = mandate.silent_threshold_paise;
          allowed_merchants = mandate.allowed_merchants;
          allowed_categories = mandate.allowed_categories;
          has_auth_event = is_some mandate.auth_event_id;
        };
        intent = record {
          intent_id = intent.intent_id;
          merchant_id = intent.merchant_id;
          amount_paise = intent.amount_paise;
          agent_id = request.signed_intent.agent_id;
          taint_reached_decision_field = false;
        };
        quote = quote_facts intent quote;
        nonce_already_spent = not nonce_burned;
        quote_already_consumed = is_consumed quote;
        reserved_and_captured_paise =
            sum_reserved_and_captured db mandate.mandate_id mandate.cumulative_window;
        reservations_last_hour = count_reservations_last_hour db mandate.mandate_id;
        seen_this_merchant_before =
            has_captured_at_merchant db mandate.mandate_id intent.merchant_id;
        agent_registered = is_agent_registered db request.signed_intent.agent_id;
      }

  -- On ALLOW and STEP_UP the quote is consumed and the hold is written.
  unfoldable pub reserve : LockedMandate → Verdict → Db → Result (Option String × Db)
  reserve mandate deny db = ok (none, db)
  reserve mandate verdict db = do
    let intent = request.signed_intent.intent
    let (consumed, db₁) = consume_quote db intent.quote_id intent.intent_id
    db₂ ←
        if consumed
        then insert_reservation db₁ (record {
          reservation_id = ids.reservation_id;
          mandate_id = mandate.mandate_id;
          merchant_id = intent.merchant_id;
          intent_id = intent.intent_id;
          amount_paise = intent.amount_paise;
          state = ReservationState.held;
          step_up = elim verdict [ step_up ↦ true | _ ↦ false ];
          created_at = db.now;
          resolved_at = none;
          release_reason = none;
        })
        else err (consumed_concurrently intent.quote_id)
    ok (some ids.reservation_id, db₂)

  -- On STEP_UP a challenge is written for the human.
  unfoldable pub challenge : LockedMandate → Verdict → Db → Result (Option String × Db)
  challenge mandate step_up db = do
    let intent = request.signed_intent.intent
    db' ← insert_challenge db (record {
      challenge_id = ids.challenge_id;
      intent_id = intent.intent_id;
      mandate_id = mandate.mandate_id;
      merchant_id = intent.merchant_id;
      amount_paise = intent.amount_paise;
      state = ChallengeState.pending;
      expires_at = now + challenge_ttl_ms;
    })
    ok (some ids.challenge_id, db')
  challenge mandate _ db = ok (none, db)

  -- Everything under the lock, once the mandate row is there.
  unfoldable pub run_with_mandate : LockedMandate → Db → Result (Decision × Db)
  unfolding locked_facts
  run_with_mandate mandate db = do
    let intent = request.signed_intent.intent
    let (nonce_burned, db₁) = burn_nonce db (record {
      nonce = intent.nonce;
      mandate_id = intent.mandate_id;
      intent_id = intent.intent_id;
    })
    let outcome = evaluate rt.iso_string (locked_facts mandate nonce_burned db₁)
    reserved ← reserve mandate outcome.verdict db₁
    challenged ← challenge mandate outcome.verdict reserved.1
    recorded ←
        record_decision rt challenge_ttl_ms request stateless_failure verifier now ids mandate
          outcome reserved.0 challenged.1
    ok (
      record {
        decision_id = ids.decision_id;
        intent_id = intent.intent_id;
        mandate_id = mandate.mandate_id;
        verdict = outcome.verdict;
        reason_code = outcome.reason_code;
        evaluated = outcome.evaluated;
        reservation_id = reserved.0;
        idempotency_key = elim outcome.verdict [
          | allow ↦ some (idempotency_key rt intent.intent_id)
          | _ ↦ none
        ];
        challenge_id = challenged.0;
        ledger_seq = some recorded.0.seq;
        decided_at = rt.iso_string now;
      },
      update_chain_head recorded.2 mandate.mandate_id recorded.1.seq recorded.1.hash,
    )

  unfoldable pub run_locked : Db → Result (Decision × Db)
  unfolding run_with_mandate
  run_locked db = do
    let mandate_id = request.signed_intent.intent.mandate_id
    mandate ← or_throw (lock_mandate db mandate_id) (unknown_mandate mandate_id)
    run_with_mandate mandate db
