-- ===== src/Tests/Checkout.antt =====
-- An authorisation from the request to the call of the executor, at a concrete input.
use razorpay_hackathon.Base.{◌≤◌, ◌≡◌, ◌≢◌, true, none, some, [], ◌∷◌, ◌++◌, All, length}
use razorpay_hackathon.Shared.Reason.{Verdict, code_text, verdict_text}
use razorpay_hackathon.Shared.Money.{paise_to_canonical}
use razorpay_hackathon.Shared.Crypto.{chain_hash, idempotency_key, verify_bytes, verify_payload}
use razorpay_hackathon.Shared.Json.{
  canonical_bytes, nullable, texts, canonicalise, canonicalise_number, canonicalise_string,
  insert_key, member_text, sort_keys,
}
use razorpay_hackathon.Shared.Text.{
  bool_text, digit_text, join, text_le, to_decimal, to_hex, from_hex, units_le, utf16, utf8,
}
use razorpay_hackathon.Policy.Facts.{VerifierOutcome}
use razorpay_hackathon.Policy.Engine.{evaluate, checks, fold, evaluated_rule, kind_text, state_text}
use razorpay_hackathon.Ledger.Entry.{
  append, read_head, read_chain, insert_seq, sort_seq, insert_entry, chain_payload,
}
use razorpay_hackathon.Store.Rows.{LockedMandate}
use razorpay_hackathon.Store.Reads.{lock_mandate, sum_reserved_and_captured}
use razorpay_hackathon.Store.Writes.{append_entry}
use razorpay_hackathon.Store.Transaction.{with_authorization_transaction}
use razorpay_hackathon.Authorization.Request.{
  sort_texts, intent_signing_payload, quote_signing_payload,
}
use razorpay_hackathon.Authorization.Stateless.{
  binding_failure, quote_failure, run_stateless_checks,
}
use razorpay_hackathon.Authorization.Authentic.{IsAuthentic}
use razorpay_hackathon.Authorization.Locked.{
  run_locked, reserve, challenge, locked_facts, run_with_mandate,
}
use razorpay_hackathon.Authorization.Entries.{record_decision, evaluated_json}
use razorpay_hackathon.Authorization.Reserved.{hold}
use razorpay_hackathon.Authorization.Service.{
  KernelConfig, VerifierAnswer, Environment, Outcome, ExecuteRequest, authorize, authorize_checked,
  committed, settle, run_verifier,
}
use razorpay_hackathon.Authorization.Paid.{verifier_for, keys_for, authorize-executions}
use razorpay_hackathon.Tests.Purchase.{platform, request, store, first_ids}

abbrev config : KernelConfig
config = record {
  merchant_id = "shop";
  retry_attempts = 3;
  challenge_ttl_ms = 100;
  rethrow_unexpected_errors = true;
  has_executor = true;
}

abbrev env : Environment
env = record {
  clock = 10;
  ids = first_ids;
  operations_decision_id = "d0";
  verifier = VerifierAnswer.answered VerifierOutcome.proceed;
  contention = λ attempt. none;
  operations_contention = λ attempt. none;
  error_class = λ fault. "Error";
}

abbrev checkout : Outcome
checkout = authorize platform config env request store

checkout_pays : checkout.executions ≢ []
unfolding authorize authorize_checked committed settle run_verifier with_authorization_transaction
    run_locked append read_head read_chain insert_seq sort_seq insert_entry chain_payload
    append_entry chain_hash verify_bytes verify_payload canonical_bytes nullable canonicalise
    canonicalise_number canonicalise_string insert_key member_text sort_keys bool_text digit_text
    join text_le to_decimal to_hex from_hex units_le utf16 utf8 texts idempotency_key sort_texts
    intent_signing_payload quote_signing_payload binding_failure quote_failure run_stateless_checks
    evaluate checks fold evaluated_rule kind_text state_text code_text verdict_text
    paise_to_canonical reserve challenge record_decision evaluated_json locked_facts
    run_with_mandate
checkout_pays = cc

authorize-executions_example :
    All (λ (x : ExecuteRequest). x.amount_paise ≡ 4) checkout.executions
    × (length checkout.executions ≤ 1)
    × IsAuthentic platform request (keys_for platform config env request store) 10
    × (m : LockedMandate) × (lock_mandate store "m" ≡ some m)
    × (checkout.store.reservations
        ≡ store.reservations
          ++ hold platform 100 request none (verifier_for env none) 10 first_ids m Verdict.allow 10
            ∷ [])
    × (sum_reserved_and_captured checkout.store m.mandate_id m.cumulative_window
        ≤ m.cumulative_paise)
authorize-executions_example = authorize-executions platform config env request store checkout_pays
