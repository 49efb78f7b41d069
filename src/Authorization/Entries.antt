-- ===== src/Authorization/Entries.antt =====
-- authorization.service.ts: the ledger entries of one authorisation.
use razorpay_hackathon.Base.{ℕ, String, true, false, Option, none, some, List, [], ◌∷◌}
use razorpay_hackathon.Shared.Reason.{Verdict, ReasonCode, verdict_text, code_text, step_up}
use razorpay_hackathon.Shared.Money.{paise_to_canonical}
use razorpay_hackathon.Shared.Json.{
  JsonValue, JsonItems, object, member, end, text, bool, nullable, array, nil, cons,
}
use razorpay_hackathon.Shared.Crypto.{Runtime, Date}
use razorpay_hackathon.Shared.Fault.{Result, ok, ◌>>=◌}
use razorpay_hackathon.Policy.Facts.{VerifierOutcome, PolicyOutcome, EvaluatedRule}
use razorpay_hackathon.Ledger.Entry.{StoredEntry, LedgerKind, LedgerAppend}
use razorpay_hackathon.Store.Rows.{LockedMandate, Db}
use razorpay_hackathon.Store.Writes.{append_entry}
use razorpay_hackathon.Authorization.Request.{FreshIds, AuthorizationRequest}

abbrev pub reason_json : Option ReasonCode → JsonValue
reason_json none = JsonValue.null
reason_json (some code) = text (code_text code)

unfoldable pub evaluated_json : List EvaluatedRule → JsonItems
evaluated_json [] = nil
evaluated_json (rule ∷ rules) =
    cons
      (object (
        member "rule" (text rule.rule) (
          member "passed" (bool rule.passed) (
            member "observed" (nullable rule.observed) (
              member "bound" (nullable rule.bound)
                (member "reason_code" (reason_json rule.reason_code) end))))))
      (evaluated_json rules)

module _ (rt : Runtime) (challenge_ttl_ms : ℕ) (request : AuthorizationRequest)
    (stateless_failure : Option ReasonCode) (verifier : VerifierOutcome) (now : Date)
    (ids : FreshIds) where
  abbrev pub intent_entry : LockedMandate → LedgerAppend
  intent_entry mandate =
      let intent = request.signed_intent.intent in
      record {
        chain_id = mandate.mandate_id;
        kind = LedgerKind.intent;
        merchant_id = mandate.merchant_id;
        ref = some intent.intent_id;
        payload_redacted = object (
            member "intent_id" (text intent.intent_id) (
              member "quote_id" (text intent.quote_id) (
                member "merchant_id" (text intent.merchant_id) (
                  member "amount_paise" (text (paise_to_canonical intent.amount_paise))
                    (member "agent_id" (text request.signed_intent.agent_id) end)))));
      }

  abbrev pub decision_entry : LockedMandate → PolicyOutcome → LedgerAppend
  decision_entry mandate outcome =
      let intent = request.signed_intent.intent in
      record {
        chain_id = mandate.mandate_id;
        kind = LedgerKind.decision;
        merchant_id = mandate.merchant_id;
        ref = some intent.intent_id;
        payload_redacted = object (
            member "decision_id" (text ids.decision_id) (
              member "intent_id" (text intent.intent_id) (
                member "verdict" (text (verdict_text outcome.verdict)) (
                  member "reason_code" (text (code_text outcome.reason_code))
                    (member "evaluated" (array (evaluated_json outcome.evaluated)) end)))));
      }

  abbrev pub reservation_entry : LockedMandate → String → Verdict → LedgerAppend
  reservation_entry mandate reservation_id verdict =
      let intent = request.signed_intent.intent in
      record {
        chain_id = mandate.mandate_id;
        kind = LedgerKind.reservation;
        merchant_id = mandate.merchant_id;
        ref = some intent.intent_id;
        payload_redacted = object (
            member "reservation_id" (text reservation_id) (
              member "intent_id" (text intent.intent_id) (
                member "amount_paise" (text (paise_to_canonical intent.amount_paise)) (
                  member "state" (text "held")
                    (member "step_up" (bool (elim verdict [ step_up ↦ true | _ ↦ false ])) end)))));
      }

  -- The entries of the decision: the DECISION entry, the head of the chain, and the store.
  unfoldable pub record_decision :
      LockedMandate → PolicyOutcome → Option String → Db → Result (StoredEntry × StoredEntry × Db)
  record_decision mandate outcome reservation_id db = do
    opened ← append_entry rt db (intent_entry mandate)
    decided ← append_entry rt opened.1 (decision_entry mandate outcome)
    elim reservation_id [
      | none ↦ ok (decided.0, decided.0, decided.1)
      | some id ↦ do
        held ← append_entry rt decided.1 (reservation_entry mandate id outcome.verdict)
        ok (decided.0, held.0, held.1)
    ]
