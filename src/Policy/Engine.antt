-- ===== src/Policy/Engine.antt =====
-- modules/policy/policy.service.ts: the ordered checks, and the fold that stops at the first failure.
use razorpay_hackathon.Base.{
  ◌+◌, String, Bool, true, false, not, ◌&&◌, ◌||◌, Option, none, some, List, [], ◌∷◌, ltb, leb,
  ◌==◌, if◌then◌else◌, is_none, includes, every,
}
use razorpay_hackathon.Shared.Reason.{
  Verdict, ReasonCode, verdict_for_reason, code_text, ok_000, aut_001, mnd_001, mnd_002, mnd_003,
  lmt_001, lmt_002, lmt_003, scp_001, scp_002, int_001, int_002, sec_001, sec_002, sec_004, sys_002,
  stp_001, stp_002,
}
use razorpay_hackathon.Shared.Text.{bool_text, to_decimal, join}
use razorpay_hackathon.Shared.Money.{Paise, paise_to_canonical}
use razorpay_hackathon.Shared.Crypto.{Date}
use razorpay_hackathon.Policy.Facts.{
  VerifierOutcome, MandateState, PolicyFacts, EvaluatedRule, PolicyOutcome,
}

pub record Check : Type 0 where
  pub rule : String
  pub passed : Bool
  pub observed : Option String
  pub bound : Option String
  pub reason_code : ReasonCode

-- What one check leaves in the trace.
unfoldable pub evaluated_rule : Check → EvaluatedRule
evaluated_rule check = record {
  rule = check.rule;
  passed = check.passed;
  observed = check.observed;
  bound = check.bound;
  reason_code = if check.passed then none else some check.reason_code;
}

-- The loop of `fold`. A later rule is evaluated only if this one passed.
unfoldable pub fold : List Check → PolicyOutcome
unfolding evaluated_rule
fold [] = record { verdict = Verdict.allow; reason_code = ok_000; evaluated = [] }
fold (check ∷ checks) =
    let rest = fold checks in
    if check.passed
    then record rest { evaluated = evaluated_rule check ∷ rest.evaluated }
    else record {
      verdict = verdict_for_reason check.reason_code;
      reason_code = check.reason_code;
      evaluated = evaluated_rule check ∷ [];
    }

abbrev pub is_subset : List String → List String → Bool
is_subset values allowed = every (λ value. includes value allowed) values

abbrev pub is_deny : VerifierOutcome → Bool
is_deny (VerifierOutcome.deny _) = true
is_deny _ = false

abbrev pub is_unavailable : VerifierOutcome → Bool
is_unavailable (VerifierOutcome.unavailable _) = true
is_unavailable _ = false

-- `verifier.kind`.
unfoldable pub kind_text : VerifierOutcome → String
kind_text VerifierOutcome.proceed = "PROCEED"
kind_text (VerifierOutcome.deny _) = "DENY"
kind_text (VerifierOutcome.unavailable _) = "UNAVAILABLE"

abbrev pub is_live : MandateState → Bool
is_live MandateState.live = true
is_live _ = false

abbrev pub is_revoked : MandateState → Bool
is_revoked MandateState.revoked = true
is_revoked _ = false

unfoldable pub state_text : MandateState → String
state_text MandateState.live = "live"
state_text MandateState.revoked = "revoked"
state_text MandateState.expired = "expired"

abbrev failure_text : Option ReasonCode → Option String
failure_text none = none
failure_text (some code) = some (code_text code)

abbrev pub failure_or : ReasonCode → Option ReasonCode → ReasonCode
failure_or code none = code
failure_or _ (some code) = code

-- The parameter is `date.toISOString()`.
module _ (iso : Date → String) where
  unfoldable pub checks : PolicyFacts → List Check
  checks facts =
      let mandate = facts.mandate in
      let intent = facts.intent in
      let quote = facts.quote in
      let cumulative_after : Paise = facts.reserved_and_captured_paise + intent.amount_paise in
      record {
        rule = "stateless";
        passed = is_none facts.stateless_failure;
        observed = failure_text facts.stateless_failure;
        bound = none;
        reason_code = failure_or int_001 facts.stateless_failure;
      }
      ∷ record {
        rule = "taint.decisionField";
        passed = not intent.taint_reached_decision_field;
        observed = some (bool_text intent.taint_reached_decision_field);
        bound = some "false";
        reason_code = sec_001;
      }
      ∷ record {
        rule = "agent.registered";
        passed = facts.agent_registered;
        observed = some intent.agent_id;
        bound = some "registered";
        reason_code = sec_002;
      }
      ∷ record {
        rule = "verifier.objection";
        passed = not (is_deny facts.verifier);
        observed = some (kind_text facts.verifier);
        bound = some "no objection";
        reason_code = sec_004;
      }
      ∷ record {
        rule = "verifier.availability";
        passed =
            not (is_unavailable facts.verifier)
            || leb intent.amount_paise mandate.silent_threshold_paise;
        observed = some (kind_text facts.verifier);
        bound = some (paise_to_canonical mandate.silent_threshold_paise);
        reason_code = sys_002;
      }
      ∷ record {
        rule = "mandate.bindsAgent";
        passed = mandate.agent_id == intent.agent_id;
        observed = some intent.agent_id;
        bound = some mandate.agent_id;
        reason_code = mnd_001;
      }
      ∷ record {
        rule = "mandate.authEvent";
        passed = mandate.has_auth_event;
        observed = some (bool_text mandate.has_auth_event);
        bound = some "true";
        reason_code = aut_001;
      }
      ∷ record {
        rule = "mandate.notRevoked";
        passed = not (is_revoked mandate.state);
        observed = some (state_text mandate.state);
        bound = some "live";
        reason_code = mnd_003;
      }
      ∷ record {
        rule = "mandate.validity";
        passed =
            is_live mandate.state
            && (leb mandate.not_before facts.now && ltb facts.now mandate.not_after);
        observed = some (iso facts.now);
        bound = some (iso mandate.not_after);
        reason_code = mnd_002;
      }
      ∷ record {
        rule = "scope.merchant";
        passed = includes intent.merchant_id mandate.allowed_merchants;
        observed = some intent.merchant_id;
        bound = some (join "," mandate.allowed_merchants);
        reason_code = scp_001;
      }
      ∷ record {
        rule = "scope.category";
        passed = is_subset quote.categories mandate.allowed_categories;
        observed = some (join "," quote.categories);
        bound = some (join "," mandate.allowed_categories);
        reason_code = scp_002;
      }
      ∷ record {
        rule = "intent.nonceUnspent";
        passed = not facts.nonce_already_spent;
        observed = some (bool_text facts.nonce_already_spent);
        bound = some "false";
        reason_code = int_002;
      }
      ∷ record {
        rule = "quote.unconsumed";
        passed = not facts.quote_already_consumed;
        observed = some (bool_text facts.quote_already_consumed);
        bound = some "false";
        reason_code = int_002;
      }
      ∷ record {
        rule = "quote.notExpired";
        passed = ltb facts.now quote.expires_at;
        observed = some (iso facts.now);
        bound = some (iso quote.expires_at);
        reason_code = int_002;
      }
      ∷ record {
        rule = "limits.perTransaction";
        passed = leb intent.amount_paise mandate.per_transaction_paise;
        observed = some (paise_to_canonical intent.amount_paise);
        bound = some (paise_to_canonical mandate.per_transaction_paise);
        reason_code = lmt_001;
      }
      ∷ record {
        rule = "limits.cumulative";
        passed = leb cumulative_after mandate.cumulative_paise;
        observed = some (paise_to_canonical cumulative_after);
        bound = some (paise_to_canonical mandate.cumulative_paise);
        reason_code = lmt_002;
      }
      ∷ record {
        rule = "limits.velocity";
        passed = ltb facts.reservations_last_hour mandate.velocity_per_hour;
        observed = some (to_decimal facts.reservations_last_hour);
        bound = some (to_decimal mandate.velocity_per_hour);
        reason_code = lmt_003;
      }
      ∷ record {
        rule = "stepUp.silentThreshold";
        passed = leb intent.amount_paise mandate.silent_threshold_paise;
        observed = some (paise_to_canonical intent.amount_paise);
        bound = some (paise_to_canonical mandate.silent_threshold_paise);
        reason_code = stp_001;
      }
      ∷ record {
        rule = "stepUp.firstAtMerchant";
        passed = facts.seen_this_merchant_before;
        observed = some (bool_text facts.seen_this_merchant_before);
        bound = some "true";
        reason_code = stp_002;
      }
      ∷ []

  unfoldable pub evaluate : PolicyFacts → PolicyOutcome
  unfolding checks fold
  evaluate facts = fold (checks facts)
