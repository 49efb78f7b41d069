-- ===== src/Authorization/Operations.antt =====
-- ledger.operations.ts: the merchant's own chain, for decisions that no mandate's chain can hold.
use razorpay_hackathon.Base.{String, Option, none, some, ◌==◌, find}
use razorpay_hackathon.Shared.Reason.{ReasonCode, code_text}
use razorpay_hackathon.Shared.Json.{JsonValue, object, member, end, text, nullable}
use razorpay_hackathon.Shared.Crypto.{Runtime}
use razorpay_hackathon.Shared.Fault.{Result, ok, ◌>>=◌}
use razorpay_hackathon.Ledger.Entry.{StoredEntry, LedgerKind}
use razorpay_hackathon.Store.Rows.{MerchantRow, Db}
use razorpay_hackathon.Store.Writes.{update_where, append_entry}

pub data OperationsEvent : Type 0 where
  -- the reason, the intent, the mandate and the detail
  decision : ReasonCode → Option String → Option String → JsonValue → OperationsEvent
  -- the operator and the reason
  impersonation : String → String → OperationsEvent

unfoldable pub payload_for : OperationsEvent → JsonValue
payload_for (impersonation operator reason) = object (
    member "event" (text "operator_impersonation")
      (member "operator" (text operator) (member "reason" (text reason) end)))
payload_for (decision reason_code intent_id mandate_id detail) = object (
    member "event" (text "decision") (
      member "reason_code" (text (code_text reason_code)) (
        member "intent_id" (nullable intent_id)
          (member "mandate_id" (nullable mandate_id) (member "detail" detail end)))))

abbrev pub event_kind : OperationsEvent → LedgerKind
event_kind (impersonation _ _) = LedgerKind.api_call
event_kind (decision _ _ _ _) = LedgerKind.decision

abbrev pub event_ref : OperationsEvent → Option String
event_ref (impersonation _ _) = none
event_ref (decision _ intent_id _ _) = intent_id

-- The body of the transaction; `none` where the merchant has no row.
unfoldable pub append_operations_event :
    Runtime → String → OperationsEvent → Db → Result (Option StoredEntry × Db)
unfolding payload_for
append_operations_event rt merchant_id event db =
    elim (find (λ (m : MerchantRow). m.merchant_id == merchant_id) db.merchants) [
      | none ↦ ok (none, db)
      | some merchant ↦ do
        recorded ← append_entry rt db (record {
          chain_id = merchant_id;
          kind = event_kind event;
          merchant_id = merchant_id;
          ref = event_ref event;
          payload_redacted = payload_for event;
        })
        let db' = recorded.1
        ok (
          some recorded.0,
          record db' {
            merchants =
                update_where (λ m. m.merchant_id == merchant_id)
                  (λ m. record m {
                    chain_head_seq = some recorded.0.seq;
                    chain_head_hash = some recorded.0.hash;
                  })
                  db'.merchants;
          },
        )
    ]
