-- ===== src/Settlement/Refund.antt =====
-- modules/executor/executor.service.ts: `refund`.
use razorpay_hackathon.Base.{String, Option, none, some, List, [], ◌∷◌}
use razorpay_hackathon.Shared.Money.{Paise, paise_to_canonical}
use razorpay_hackathon.Shared.Json.{object, member, end, text}
use razorpay_hackathon.Shared.Crypto.{Runtime, idempotency_key}
use razorpay_hackathon.Shared.Fault.{Fault, Result, ok, err, ◌>>=◌}
use razorpay_hackathon.Ledger.Entry.{LedgerKind}
use razorpay_hackathon.Store.Rows.{OrderRow, RefundState, Db}
use razorpay_hackathon.Store.Reads.{find_by_order_id}
use razorpay_hackathon.Store.Writes.{insert_refund, set_refund_state, append_entry}
use razorpay_hackathon.Settlement.Rail.{RailRefund, RefundStatus, RailCall}
use razorpay_hackathon.Settlement.Executor.{in_transaction}

pub record RefundRequest : Type 0 where
  pub order_id : String
  pub merchant_id : String
  pub amount_paise : Paise
  pub reason : String

pub record RefundResult : Type 0 where
  pub refund_id : String
  pub state : RefundState
  pub rail_refund_id : Option String

pub record RefundEnvironment : Type 0 where
  pub refund_id : String
  pub answer : Result RailRefund
  pub claim_outage : Option Fault
  pub record_outage : Option Fault

unfoldable pub refund_state_text : RefundState → String
refund_state_text RefundState.requested = "REQUESTED"
refund_state_text RefundState.submitted = "SUBMITTED"
refund_state_text RefundState.completed = "COMPLETED"
refund_state_text RefundState.failed = "FAILED"

abbrev pub refunded_state : Result RailRefund → RefundState
refunded_state (err _) = RefundState.failed
refunded_state (ok refund) = elim refund.status [
  | RefundStatus.processed ↦ RefundState.completed
  | _ ↦ RefundState.submitted
]

abbrev pub rail_refund_id_of : Result RailRefund → Option String
rail_refund_id_of (err _) = none
rail_refund_id_of (ok refund) = some refund.rail_refund_id

module _ (rt : Runtime) (request : RefundRequest) (env : RefundEnvironment) where
  -- The order and its payment, with the refund row written; `none` where nothing was paid.
  unfoldable pub claim_refund : Db → Result (Option (OrderRow × String) × Db)
  claim_refund db = elim (find_by_order_id db request.order_id) [
    | none ↦ ok (none, db)
    | some order ↦ elim order.rail_payment_id [
      | none ↦ ok (none, db)
      | some payment ↦ do
        db' ← insert_refund db (record {
          refund_id = env.refund_id;
          order_id = request.order_id;
          merchant_id = request.merchant_id;
          amount_paise = request.amount_paise;
          reason = request.reason;
          state = RefundState.requested;
          idempotency_key = idempotency_key rt env.refund_id;
          rail_refund_id = none;
        })
        ok (some (order, payment), db')
    ]
  ]

  unfoldable pub record_refund : OrderRow → Db → Result (Unit {0} × Db)
  record_refund order db = do
    let state = refunded_state env.answer
    written ←
        append_entry rt (set_refund_state db env.refund_id state (rail_refund_id_of env.answer))
          (record {
            chain_id = order.mandate_id;
            kind = LedgerKind.refund;
            merchant_id = request.merchant_id;
            ref = some order.intent_id;
            payload_redacted = object (
                member "refund_id" (text env.refund_id) (
                  member "order_id" (text request.order_id) (
                    member "amount_paise" (text (paise_to_canonical request.amount_paise)) (
                      member "reason" (text request.reason)
                        (member "state" (text (refund_state_text state)) end)))));
          })
    ok (tt, written.1)

  -- The answer, the calls to the rail, and the store.
  unfoldable pub refund : Db → Result RefundResult × List RailCall × Db
  unfolding claim_refund record_refund
  refund db =
      let (claimed, db₁) = in_transaction env.claim_outage claim_refund db in
      elim claimed [
        | err fault ↦ (err fault, [], db₁)
        | ok none ↦ (
          ok (record {
            refund_id = env.refund_id;
            state = RefundState.failed;
            rail_refund_id = none;
          }),
          [],
          db₁,
        )
        | ok (some (order, payment)) ↦
            let (recorded, db₂) = in_transaction env.record_outage (record_refund order) db₁ in
            let call =
              RailCall.create_refund payment request.amount_paise
                (idempotency_key rt env.refund_id) in
            (
              elim recorded [
                | err fault ↦ err fault
                | ok _ ↦ ok (record {
                  refund_id = env.refund_id;
                  state = refunded_state env.answer;
                  rail_refund_id = rail_refund_id_of env.answer;
                })
              ],
              call ∷ [],
              db₂,
            )
      ]
