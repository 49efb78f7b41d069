-- ===== src/Settlement/Reconciler.antt =====
-- modules/reconciler: webhooks. A signature proves who sent an event; the order's state comes from a
-- fresh read of the rail.
use razorpay_hackathon.Base.{
  ℕ, String, Bool, false, not, ◌&&◌, Option, none, some, List, [], ◌∷◌, ltb, nat_eq, length,
  if◌then◌else◌,
}
use razorpay_hackathon.Shared.Text.{Bytes, from_hex}
use razorpay_hackathon.Shared.Json.{object, member, end, text}
use razorpay_hackathon.Shared.Crypto.{Runtime}
use razorpay_hackathon.Shared.Fault.{Fault, Result, ok, ◌>>=◌}
use razorpay_hackathon.Ledger.Entry.{LedgerKind, bytes_eq}
use razorpay_hackathon.Store.Rows.{OrderRow, OrderState, ReleaseReason, Db}
use razorpay_hackathon.Store.Reads.{find_order_by_rail_id}
use razorpay_hackathon.Store.Writes.{
  claim_event, set_order_state, capture_reservation, release_reservation, append_entry,
}
use razorpay_hackathon.Store.Transaction.{with_authorization_transaction}
use razorpay_hackathon.Settlement.Rail.{RailOrder, RailStatus, is_paid, order_state_text}

pub record PaymentEntity : Type 0 where
  pub id : String
  pub order_id : String
  pub status : String

-- An envelope that the schema accepted; the payment may be missing.
pub record WebhookEnvelope : Type 0 where
  pub event : String
  pub id : String
  pub payment : Option PaymentEntity

pub data IngestOutcome : Type 0 where
  -- the order, the intent and the state
  applied : String → String → OrderState → IngestOutcome
  duplicate : String → IngestOutcome
  unverified malformed : IngestOutcome
  unknown_order : String → IngestOutcome

unfoldable pub rail_status_text : RailStatus → String
rail_status_text RailStatus.created = "created"
rail_status_text RailStatus.attempted = "attempted"
rail_status_text RailStatus.paid = "paid"
rail_status_text RailStatus.failed = "failed"

-- The expected HMAC comes from the platform.
unfoldable pub verify_webhook_signature : Bytes → String → Bool
verify_webhook_signature expected provided =
    let supplied = from_hex provided in
    if not (nat_eq (length supplied) (length expected)) then false else bytes_eq expected supplied

-- Paid, with some amount.
abbrev pub was_captured : RailOrder → Bool
was_captured order = is_paid order.status && ltb 0 order.amount_paid_paise

abbrev pub or_else : Option String → String → String
or_else none s = s
or_else (some t) _ = t

module _ (rt : Runtime) (merchant_id : String) where
  -- The transition of the order and its reservation.
  unfoldable pub transition : OrderRow → PaymentEntity → RailOrder → Db → Db
  transition order payment rail_order db =
      let captured = was_captured rail_order in
      let db' : Db =
        set_order_state db order.order_id
          (if captured then OrderState.captured else OrderState.failed) none
          (some (or_else rail_order.rail_payment_id payment.id)) in
      if captured
      then capture_reservation db' order.intent_id
      else (release_reservation db' order.intent_id ReleaseReason.payment_failed).1

  -- The transition with its two entries.
  unfoldable pub confirm :
      String → String → PaymentEntity → OrderRow → RailOrder → Db → Result (IngestOutcome × Db)
  unfolding transition
  confirm provider_event_id event_type payment order rail_order db = do
    let state = if was_captured rail_order then OrderState.captured else OrderState.failed
    seen ← append_entry rt (transition order payment rail_order db) (record {
      chain_id = order.mandate_id;
      kind = LedgerKind.webhook;
      merchant_id = merchant_id;
      ref = some order.intent_id;
      payload_redacted = object (
          member "provider_event_id" (text provider_event_id) (
            member "event" (text event_type) (
              member "rail_order_id" (text payment.order_id)
                (member "confirmed_by" (text "orders.fetch") end))));
    })
    done ← append_entry rt seen.1 (record {
      chain_id = order.mandate_id;
      kind = if was_captured rail_order then LedgerKind.execution_result else LedgerKind.release;
      merchant_id = merchant_id;
      ref = some order.intent_id;
      payload_redacted = object (
          member "order_id" (text order.order_id) (
            member "state" (text (order_state_text state))
              (member "rail_status" (text (rail_status_text rail_order.status)) end)));
    })
    ok (applied order.order_id order.intent_id state, done.1)

  -- The body of the transaction, which takes no lock on the mandate. The last argument but one is the
  -- rail's answer to `fetchOrder`.
  unfoldable pub apply_event :
      String → String → PaymentEntity → Result RailOrder → Db → Result (IngestOutcome × Db)
  unfolding confirm
  apply_event provider_event_id event_type payment fetched db =
      let (claimed, db₁) = claim_event db provider_event_id in
      if not claimed
      then ok (duplicate provider_event_id, db₁)
      else elim (find_order_by_rail_id db₁ payment.order_id) [
        | none ↦ ok (unknown_order payment.order_id, db₁)
        | some order ↦ fetched >>= λ rail_order.
            confirm provider_event_id event_type payment order rail_order db₁
      ]

  -- The intents for which the merchant is told of a capture, after the commit.
  abbrev pub captured_intents : Result IngestOutcome → List String
  captured_intents (ok (applied _ intent_id OrderState.captured)) = intent_id ∷ []
  captured_intents _ = []

  -- `expected` is the HMAC of the raw body, `parsed` what the body parses to.
  unfoldable pub ingest_webhook :
      ℕ
      → (ℕ → Option Fault)
      → Bytes
      → Option WebhookEnvelope
      → Option String
      → Result RailOrder
      → Db
      → Result IngestOutcome × Db × List String
  unfolding apply_event verify_webhook_signature
  ingest_webhook attempts contention expected parsed signature fetched db = elim signature [
    | none ↦ (ok unverified, db, [])
    | some provided ↦
        if not (verify_webhook_signature expected provided)
        then (ok unverified, db, [])
        else elim parsed [
          | none ↦ (ok malformed, db, [])
          | some envelope ↦ elim envelope.payment [
            | none ↦ (ok malformed, db, [])
            | some payment ↦
                let (outcome, db') =
                  with_authorization_transaction attempts contention
                    (apply_event envelope.id envelope.event payment fetched) db in
                (outcome, db', captured_intents outcome)
          ]
        ]
  ]
