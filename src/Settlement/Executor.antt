-- ===== src/Settlement/Executor.antt =====
-- modules/executor/executor.service.ts: `execute` and `recordExecution`.
use razorpay_hackathon.Base.{
  String, Bool, true, false, Option, none, some, List, [], ◌∷◌, ◌++◌, if◌then◌else◌,
}
use razorpay_hackathon.Shared.Json.{object, member, end, text, nullable}
use razorpay_hackathon.Shared.Crypto.{Runtime, idempotency_key}
use razorpay_hackathon.Shared.Fault.{Fault, Result, ok, err, ◌>>=◌, rail_timeout}
use razorpay_hackathon.Ledger.Entry.{LedgerKind, LedgerAppend}
use razorpay_hackathon.Store.Rows.{OrderRow, OrderState, ReleaseReason, Db}
use razorpay_hackathon.Store.Reads.{find_by_intent, lock_mandate}
use razorpay_hackathon.Store.Writes.{
  insert_order, set_order_state, release_reservation, append_entry,
}
use razorpay_hackathon.Authorization.Service.{ExecuteRequest}
use razorpay_hackathon.Settlement.Rail.{
  RailOrder, RailCall, Instrument, instrument_of, is_paid, order_state_text,
}

pub record ExecuteResult : Type 0 where
  pub order_id : String
  pub state : OrderState
  pub rail_order_id : Option String
  pub idempotency_key : String

-- The environment of one execution: a fresh order id, the rail's mode and answers, and the error that
-- the database raises in each of the two transactions, if any.
pub record Execution : Type 0 where
  pub order_id : String
  pub mode : String
  pub found : Result (Option RailOrder)
  pub created : Result RailOrder
  pub charged : Result String
  pub claim_outage : Option Fault
  pub record_outage : Option Fault

pub record Claim : Type 0 where
  pub existing : Option OrderRow
  pub order_id : String
  pub instrument : Option Instrument

-- `inTransaction`: commits, or leaves the store as it was.
abbrev pub in_transaction :
    {A : Type 0} → Option Fault → (Db → Result (A × Db)) → Db → Result A × Db
in_transaction none fn db = elim (fn db) [ ok done ↦ (ok done.0, done.1) | err e ↦ (err e, db) ]
in_transaction (some fault) fn db = (err fault, db)

abbrev pub is_failed : OrderState → Bool
is_failed OrderState.failed = true
is_failed _ = false

abbrev pub is_submitting : OrderState → Bool
is_submitting OrderState.submitting = true
is_submitting _ = false

module _ (rt : Runtime) (request : ExecuteRequest) (env : Execution) where
  abbrev pub key : String
  key = idempotency_key rt request.intent_id

  -- The first transaction: the order row is there before the rail is called.
  unfoldable pub claim : Db → Result (Claim × Db)
  claim db =
      let instrument = instrument_of (lock_mandate db request.mandate_id) in
      elim (find_by_intent db request.intent_id) [
        | some existing ↦ ok (
          record {
            existing = some existing;
            order_id = existing.order_id;
            instrument = instrument;
          },
          db,
        )
        | none ↦ do
          db' ← insert_order db (record {
            order_id = env.order_id;
            intent_id = request.intent_id;
            mandate_id = request.mandate_id;
            merchant_id = request.merchant_id;
            amount_paise = request.amount_paise;
            state = OrderState.submitting;
            rail_order_id = none;
            rail_payment_id = none;
            idempotency_key = key;
            created_at = db.now;
          })
          ok (record { existing = none; order_id = env.order_id; instrument = instrument }, db')
      ]

  abbrev call_entry : OrderState → Option String → LedgerAppend
  call_entry state rail_order_id = record {
    chain_id = request.mandate_id;
    kind = LedgerKind.api_call;
    merchant_id = request.merchant_id;
    ref = some request.intent_id;
    payload_redacted = object (
        member "operation" (text "orders.create") (
          member "rail" (text env.mode) (
            member "idempotency_key" (text key) (
              member "rail_order_id" (nullable rail_order_id)
                (member "state" (text (order_state_text state)) end)))));
  }

  abbrev release_entry : String → LedgerAppend
  release_entry order_id = record {
    chain_id = request.mandate_id;
    kind = LedgerKind.release;
    merchant_id = request.merchant_id;
    ref = some request.intent_id;
    payload_redacted = object (
        member "order_id" (text order_id) (
          member "reason" (text "payment_failed")
            (member "detail" (text "the rail refused the call, so no money moved") end)));
  }

  -- On FAILED the hold comes back, in the same transaction.
  unfoldable pub release_failed : String → Db → Result (Unit {0} × Db)
  release_failed order_id db = do
    let (released, db') = release_reservation db request.intent_id ReleaseReason.payment_failed
    if released
        then (do written ← append_entry rt db' (release_entry order_id); ok (tt, written.1))
        else ok (tt, db')

  unfoldable pub record_body : String → OrderState → Option String → Db → Result (Unit {0} × Db)
  record_body order_id state rail_order_id db = do
    written ←
        append_entry rt (set_order_state db order_id state rail_order_id none)
          (call_entry state rail_order_id)
    if is_failed state then release_failed order_id written.1 else ok (tt, written.1)

  -- An error here is logged and swallowed.
  unfoldable pub record_execution : String → OrderState → Option String → Db → Db
  unfolding record_body
  record_execution order_id state rail_order_id db =
      (in_transaction env.record_outage (record_body order_id state rail_order_id) db).1

  -- The state after the create, and the rail's order id.
  abbrev pub created_state : Result RailOrder → OrderState × Option String
  created_state (ok order) = (OrderState.submitted, some order.rail_order_id)
  created_state (err rail_timeout) = (OrderState.ambiguous, none)
  created_state (err _) = (OrderState.failed, none)

  -- A charge that timed out is ambiguous; one that was refused leaves the order payable.
  abbrev pub charged_state : Result String → OrderState
  charged_state (err rail_timeout) = OrderState.ambiguous
  charged_state _ = OrderState.submitted

  -- Creating the order and charging the instrument: the state, the rail's order id, the calls made.
  unfoldable pub submit : Option Instrument → OrderState × Option String × List RailCall
  submit instrument =
      let create = RailCall.create_order request.intent_id request.amount_paise key in
      elim env.created [
        | err fault ↦ ((created_state (err fault)).0, none, create ∷ [])
        | ok order ↦ elim instrument [
          | none ↦ (OrderState.submitted, some order.rail_order_id, create ∷ [])
          | some i ↦ (
            charged_state env.charged,
            some order.rail_order_id,
            create ∷ RailCall.charge_token order.rail_order_id i.token_id request.amount_paise ∷ [],
          )
        ]
      ]

  abbrev finish :
      String
      → OrderState
      → Option String
      → List RailCall
      → Db
      → Result ExecuteResult × List RailCall × Db
  finish order_id state rail_order_id calls db = (
    ok (record {
      order_id = order_id;
      state = state;
      rail_order_id = rail_order_id;
      idempotency_key = key;
    }),
    calls,
    record_execution order_id state rail_order_id db,
  )

  -- The order that the rail already has, or the create.
  unfoldable pub call_rail :
      Claim → List RailCall → Option RailOrder → Db → Result ExecuteResult × List RailCall × Db
  unfolding submit record_execution
  call_rail claimed calls (some order) db =
      finish claimed.order_id
        (if is_paid order.status then OrderState.captured else OrderState.submitted)
        (some order.rail_order_id) calls db
  call_rail claimed calls none db =
      let (state, rail_order_id, made) = submit claimed.instrument in
      finish claimed.order_id state rail_order_id (calls ++ made) db

  -- A lookup that fails counts as finding nothing.
  abbrev pub found_order : Result (Option RailOrder) → Option RailOrder
  found_order (ok order) = order
  found_order (err _) = none

  unfoldable pub execute_claimed : Claim → Db → Result ExecuteResult × List RailCall × Db
  unfolding call_rail
  execute_claimed claimed db = elim claimed.existing [
    | none ↦ call_rail claimed [] none db
    | some existing ↦
        if is_submitting existing.state
        then call_rail claimed (RailCall.find_order_by_intent request.intent_id ∷ [])
            (found_order env.found) db
        else (
          ok (record {
            order_id = existing.order_id;
            state = existing.state;
            rail_order_id = existing.rail_order_id;
            idempotency_key = existing.idempotency_key;
          }),
          [],
          db,
        )
  ]

  unfoldable pub execute : Db → Result ExecuteResult × List RailCall × Db
  unfolding claim execute_claimed
  execute db =
      let (claimed, db') = in_transaction env.claim_outage claim db in
      elim claimed [ err fault ↦ (err fault, [], db') | ok c ↦ execute_claimed c db' ]
