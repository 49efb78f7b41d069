-- ===== src/Settlement/Ambiguous.antt =====
-- modules/jobs/reconcile-ambiguous.job.ts and compensate-revoked.job.ts: orders whose outcome is not
-- known, and captures on a revoked mandate. What the rail reads comes from outside.
use razorpay_hackathon.Base.{
  ℕ, ◌+◌, String, Bool, true, false, not, ◌&&◌, Option, none, some, List, ltb, select, any, ◌==◌,
  if◌then◌else◌, is_some,
}
use razorpay_hackathon.Shared.Json.{JsonMembers, object, member, end, text}
use razorpay_hackathon.Shared.Crypto.{Runtime, Date}
use razorpay_hackathon.Shared.Fault.{Result, ok, err, ◌>>=◌}
use razorpay_hackathon.Ledger.Entry.{LedgerKind}
use razorpay_hackathon.Store.Rows.{OrderRow, OrderState, RefundRow, ReleaseReason, Db}
use razorpay_hackathon.Store.Reads.{lock_mandate, is_counted}
use razorpay_hackathon.Store.Writes.{
  set_order_state, capture_reservation, release_reservation, release_where, append_entry,
}
use razorpay_hackathon.Settlement.Rail.{RailStatus, RailOrder, order_state_text}
use razorpay_hackathon.Policy.Engine.{is_revoked}

pub reconcile_max_age_ms : ℕ
reconcile_max_age_ms = 86400000

abbrev pub is_unresolved : OrderState → Bool
is_unresolved OrderState.submitting = true
is_unresolved OrderState.submitted = true
is_unresolved OrderState.ambiguous = true
is_unresolved _ = false

-- The scan.
unfoldable pub pending_orders : Db → List OrderRow
pending_orders db = select (λ o. is_unresolved o.state) db.orders

-- What a read of the rail found: the status and the payment.
pub record RailRead : Type 0 where
  pub rail_status : Option RailStatus
  pub rail_payment_id : Option String

abbrev unread : RailRead
unread = record { rail_status = none; rail_payment_id = none }

abbrev read_of : RailOrder → RailRead
read_of order = record { rail_status = some order.status; rail_payment_id = order.rail_payment_id }

-- The read, by the rail's id where the order has one and by the notes otherwise. An order that is
-- found by its notes is marked submitted at once, in a transaction of its own.
unfoldable pub read_rail :
    OrderRow → Result RailOrder → Result (Option RailOrder) → Db → RailRead × Db
read_rail order fetched found db = elim order.rail_order_id [
  | some _ ↦ elim fetched [ ok rail_order ↦ (read_of rail_order, db) | err _ ↦ (unread, db) ]
  | none ↦ elim found [
    | ok (some rail_order) ↦ (
      read_of rail_order,
      set_order_state db order.order_id OrderState.submitted (some rail_order.rail_order_id) none,
    )
    | ok none ↦ (unread, db)
    | err _ ↦ (unread, db)
  ]
]

-- The state that the read and the age give, where they give one.
unfoldable pub resolution : Bool → Option RailStatus → Option OrderState
resolution _ (some RailStatus.paid) = some OrderState.captured
resolution _ (some RailStatus.failed) = some OrderState.failed
resolution expired _ = if expired then some OrderState.failed_unresolved else none

abbrev alert_of : OrderState → JsonMembers
alert_of OrderState.failed_unresolved =
    member "alert" (text "operator review required: outcome never established") end
alert_of _ = end

-- The order's new state, and what becomes of its reservation.
unfoldable pub resolved_rows : OrderRow → OrderState → Option String → Db → Db
resolved_rows order OrderState.captured payment db =
    capture_reservation (set_order_state db order.order_id OrderState.captured none payment)
      order.intent_id
resolved_rows order OrderState.failed payment db =
    (release_reservation (set_order_state db order.order_id OrderState.failed none none)
      order.intent_id ReleaseReason.payment_failed).1
resolved_rows order state payment db =
    (release_reservation (set_order_state db order.order_id state none none) order.intent_id
      ReleaseReason.unresolved).1

module _ (rt : Runtime) (merchant_id : String) where
  -- The transaction that resolves one order of the scan.
  unfoldable pub resolve_order : Date → OrderRow → RailRead → Db → Result (Option OrderState × Db)
  unfolding resolution resolved_rows reconcile_max_age_ms order_state_text append_entry
  resolve_order now order read db =
      elim (resolution (ltb (order.created_at + reconcile_max_age_ms) now) read.rail_status) [
        | none ↦ ok (none, db)
        | some state ↦ do
          written ← append_entry rt (resolved_rows order state read.rail_payment_id db) (record {
            chain_id = order.mandate_id;
            kind = LedgerKind.reconcile;
            merchant_id = merchant_id;
            ref = some order.intent_id;
            payload_redacted = object (
                member "order_id" (text order.order_id)
                  (member "resolved_to" (text (order_state_text state)) (alert_of state)));
          })
          ok (some state, written.1)
      ]

  -- The orders that `compensateRevoked` refunds.
  unfoldable pub orphaned_orders : Db → List OrderRow
  orphaned_orders db =
      select
        (λ o.
          (elim (lock_mandate db o.mandate_id) [
            | none ↦ false
            | some m ↦ is_revoked m.state && is_some m.revoked_at
          ])
          && ((elim o.state [ OrderState.captured ↦ true | _ ↦ false ])
              && not (any (λ (r : RefundRow). r.order_id == o.order_id) db.refunds)))
        db.orders

  -- Its transaction after the executor's refund, of which it records the id and the state.
  unfoldable pub compensate : OrderRow → String → String → Db → Result (Unit {0} × Db)
  unfolding append_entry
  compensate order refund_id refund_state db = do
    written ←
        append_entry rt (release_where db is_counted order.intent_id ReleaseReason.refunded)
          (record {
            chain_id = order.mandate_id;
            kind = LedgerKind.reconcile;
            merchant_id = merchant_id;
            ref = some order.intent_id;
            payload_redacted = object (
                member "order_id" (text order.order_id) (
                  member "compensated_by" (text refund_id)
                    (member "refund_state" (text refund_state) end)));
          })
    ok (tt, written.1)
