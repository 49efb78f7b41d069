-- ===== src/Tests/Later.antt =====
-- What follows an authorisation, at concrete inputs.
use razorpay_hackathon.Base.{◌≡◌, refl, ◌≢◌, ◌↔◌, true, false, Option, none, some, [], ◌∷◌}
use razorpay_hackathon.Shared.Reason.{
  Verdict, ReasonCode, verdict_for_reason, code_text, verdict_text, ok_000,
}
use razorpay_hackathon.Shared.Money.{paise_to_canonical}
use razorpay_hackathon.Shared.Crypto.{chain_hash, idempotency_key}
use razorpay_hackathon.Shared.Json.{
  canonical_bytes, nullable, texts, canonicalise, canonicalise_number, canonicalise_string,
  insert_key, member_text, sort_keys,
}
use razorpay_hackathon.Shared.Text.{
  bool_text, digit_text, join, text_le, to_decimal, to_hex, units_le, utf16, utf8,
}
use razorpay_hackathon.Shared.Fault.{Result, ok, err, rail_timeout}
use razorpay_hackathon.Policy.Facts.{VerifierOutcome, MandateState}
use razorpay_hackathon.Policy.Engine.{evaluate, checks, fold, evaluated_rule, kind_text, state_text}
use razorpay_hackathon.Ledger.Entry.{
  append, read_head, read_chain, insert_seq, sort_seq, insert_entry, chain_payload,
}
use razorpay_hackathon.Store.Rows.{Challenge, ChallengeState, OrderState, Db}
use razorpay_hackathon.Store.Writes.{append_entry}
use razorpay_hackathon.Authorization.Request.{Decision}
use razorpay_hackathon.Authorization.Locked.{
  run_locked, reserve, challenge, locked_facts, run_with_mandate,
}
use razorpay_hackathon.Authorization.Entries.{record_decision, evaluated_json}
use razorpay_hackathon.Authorization.StepUp.{check_approval}
use razorpay_hackathon.Authorization.Approval.{IsApprovable, check_approval-ok_iff}
use razorpay_hackathon.Authorization.Service.{ExecuteRequest}
use razorpay_hackathon.Settlement.Rail.{RailOrder, RailStatus, order_state_text}
use razorpay_hackathon.Settlement.Executor.{
  Execution, claim, release_failed, record_body, record_execution, submit, call_rail,
  execute_claimed, execute,
}
use razorpay_hackathon.Settlement.Reconciler.{
  PaymentEntity, IngestOutcome, duplicate, apply_event, transition, confirm, rail_status_text,
}
use razorpay_hackathon.Settlement.Jobs.{expire_mandates, reap}
use razorpay_hackathon.Settlement.Revocation.{RevocationResult, revoke, revoke_locked}
use razorpay_hackathon.Settlement.Once.{apply_event-duplicate, expire_mandates-SweptAll, SweptAll}
use razorpay_hackathon.Settlement.Halted.{revoke-denies}
use razorpay_hackathon.Settlement.Durable.{execute-reap}
use razorpay_hackathon.Tests.Purchase.{
  platform, mandate, settled, request, store, first_ids, store_of, answer_of,
}

abbrev asked : Challenge
asked = record {
  challenge_id = "c";
  intent_id = "i";
  mandate_id = "m";
  merchant_id = "shop";
  amount_paise = 4;
  state = ChallengeState.pending;
  expires_at = 40;
}

check_approval-ok_iff_example :
    (check_approval store asked mandate 10 true ≡ ok_000) ↔ IsApprovable store asked mandate 10 true
check_approval-ok_iff_example = check_approval-ok_iff store asked mandate 10 true

-- The sweep, at a time when the mandate is over.
abbrev swept : Db
swept = record store { mandates = record mandate { state = MandateState.expired } ∷ [] }

sweep_succeeds :
    expire_mandates 200 store
    ≡ ok (record { job = "expire-mandates"; examined = 1; changed = 1; details = "m" ∷ [] }, swept)
unfolding expire_mandates
sweep_succeeds = refl

expire_mandates-SweptAll_example :
    SweptAll 200 store.mandates swept.mandates
    × (swept ≡ record store { mandates = swept.mandates })
expire_mandates-SweptAll_example = expire_mandates-SweptAll 200 store sweep_succeeds

-- A payment that was captured.
abbrev payment : PaymentEntity
payment = record { id = "pay"; order_id = "rzp"; status = "captured" }

abbrev paid : RailOrder
paid = record {
  rail_order_id = "rzp";
  status = RailStatus.paid;
  amount_paid_paise = 4;
  rail_payment_id = some "pay";
}

abbrev ordered : Db
ordered = record store {
  orders =
      record {
        order_id = "o";
        intent_id = "i0";
        mandate_id = "m";
        merchant_id = "shop";
        amount_paise = 2;
        state = OrderState.submitted;
        rail_order_id = some "rzp";
        rail_payment_id = none;
        idempotency_key = "k";
        created_at = 6;
      }
      ∷ [];
}

abbrev delivery : Result (IngestOutcome × Db)
delivery = apply_event platform "shop" "evt" "payment.captured" payment (ok paid) ordered

abbrev delivered : Db
delivered = store_of ordered delivery

delivery_succeeds : delivery ≡ ok (IngestOutcome.applied "o" "i0" OrderState.captured, delivered)
unfolding apply_event append read_head read_chain insert_seq sort_seq insert_entry chain_payload
    append_entry chain_hash canonical_bytes nullable canonicalise canonicalise_number
    canonicalise_string insert_key member_text sort_keys bool_text digit_text join text_le
    to_decimal to_hex units_le utf16 utf8 texts idempotency_key transition confirm rail_status_text
    order_state_text revoke_locked evaluate checks fold evaluated_rule kind_text state_text
    code_text verdict_text paise_to_canonical reserve challenge record_decision evaluated_json
    locked_facts run_with_mandate claim release_failed record_body record_execution submit call_rail
    execute_claimed
delivery_succeeds = refl

apply_event-duplicate_example :
    apply_event platform "shop" "evt" "payment.failed" payment (err rail_timeout) delivered
    ≡ ok (duplicate "evt", delivered)
apply_event-duplicate_example =
    apply_event-duplicate platform "shop" "evt" "payment.captured" payment (ok paid) ordered
      delivery_succeeds "payment.failed" payment (err rail_timeout)

abbrev revocation : Result (Option RevocationResult × Db)
revocation = revoke platform "d0" (record { mandate_id = "m"; reason = "lost" }) store

abbrev after_revocation : Db
after_revocation = store_of store revocation

revocation_succeeds :
    revocation
    ≡ ok (
      some (record {
        mandate_id = "m";
        already_revoked = false;
        held_reservation_ids = [];
        ledger_seq = some 0;
      }),
      after_revocation,
    )
unfolding revoke append read_head read_chain insert_seq sort_seq insert_entry chain_payload
    append_entry chain_hash canonical_bytes nullable canonicalise canonicalise_number
    canonicalise_string insert_key member_text sort_keys bool_text digit_text join text_le
    to_decimal to_hex units_le utf16 utf8 texts idempotency_key transition confirm rail_status_text
    order_state_text revoke_locked evaluate checks fold evaluated_rule kind_text state_text
    code_text verdict_text paise_to_canonical reserve challenge record_decision evaluated_json
    locked_facts run_with_mandate claim release_failed record_body record_execution submit call_rail
    execute_claimed
revocation_succeeds = refl

abbrev attempt : Result (Decision × Db)
attempt = run_locked platform 100 request none VerifierOutcome.proceed 10 first_ids after_revocation

attempt_succeeds : attempt ≡ ok (answer_of attempt, store_of after_revocation attempt)
unfolding run_locked revoke append read_head read_chain insert_seq sort_seq insert_entry
    chain_payload append_entry chain_hash canonical_bytes nullable canonicalise canonicalise_number
    canonicalise_string insert_key member_text sort_keys bool_text digit_text join text_le
    to_decimal to_hex units_le utf16 utf8 texts idempotency_key transition confirm rail_status_text
    order_state_text revoke_locked evaluate checks fold evaluated_rule kind_text state_text
    code_text verdict_text paise_to_canonical reserve challenge record_decision evaluated_json
    locked_facts run_with_mandate claim release_failed record_body record_execution submit call_rail
    execute_claimed
attempt_succeeds = refl

no_failure : (code : ReasonCode) → none ≡ some code → verdict_for_reason code ≡ Verdict.deny
no_failure code e = cc

revoke-denies_example : (answer_of attempt).verdict ≡ Verdict.deny
revoke-denies_example =
    revoke-denies platform "d0" (record { mandate_id = "m"; reason = "lost" }) store
      revocation_succeeds 100 request none VerifierOutcome.proceed 10 first_ids no_failure refl
      attempt_succeeds

abbrev purchase : ExecuteRequest
purchase = record {
  intent_id = "i0";
  mandate_id = "m";
  merchant_id = "shop";
  amount_paise = 2;
  decision_id = "d";
}

-- The rail does not answer the create.
abbrev unanswered : Execution
unanswered = record {
  order_id = "o";
  mode = "sandbox";
  found = ok none;
  created = err rail_timeout;
  charged = err rail_timeout;
  claim_outage = none;
  record_outage = none;
}

rail_called : (execute platform purchase unanswered store).1 ≢ []
unfolding execute append read_head read_chain insert_seq sort_seq insert_entry chain_payload
    append_entry chain_hash canonical_bytes nullable canonicalise canonicalise_number
    canonicalise_string insert_key member_text sort_keys bool_text digit_text join text_le
    to_decimal to_hex units_le utf16 utf8 texts idempotency_key transition confirm rail_status_text
    order_state_text revoke_locked evaluate checks fold evaluated_rule kind_text state_text
    code_text verdict_text paise_to_canonical reserve challenge record_decision evaluated_json
    locked_facts run_with_mandate claim release_failed record_body record_execution submit call_rail
    execute_claimed
rail_called = cc

execute-reap_example :
    reap platform "shop" settled (execute platform purchase unanswered store).2
    ≡ ok (false, (execute platform purchase unanswered store).2)
execute-reap_example =
    execute-reap platform purchase unanswered store "shop" settled rail_called refl
