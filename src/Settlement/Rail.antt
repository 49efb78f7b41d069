-- ===== src/Settlement/Rail.antt =====
-- modules/rail/rail.validation.ts: the payment rail as its callers see it. What the rail answers comes
-- from outside; a `Result` is an answer, a timeout or a rejection.
use razorpay_hackathon.Base.{String, Bool, true, false, Option, none, some}
use razorpay_hackathon.Shared.Money.{Paise}
use razorpay_hackathon.Store.Rows.{LockedMandate, OrderState}

pub data RailStatus : Type 0 where
  created attempted paid failed : RailStatus

pub record RailOrder : Type 0 where
  pub rail_order_id : String
  pub status : RailStatus
  pub amount_paid_paise : Paise
  pub rail_payment_id : Option String

pub data RefundStatus : Type 0 where
  pending processed failed : RefundStatus

pub record RailRefund : Type 0 where
  pub rail_refund_id : String
  pub status : RefundStatus

abbrev pub is_paid : RailStatus → Bool
is_paid paid = true
is_paid _ = false

-- The calls that an execution makes, in order: each with the intent or the order it is for.
pub data RailCall : Type 0 where
  -- the intent
  find_order_by_intent : String → RailCall
  -- the intent, the amount, the idempotency key
  create_order : String → Paise → String → RailCall
  -- the rail's order, the token and the amount
  charge_token : String → String → Paise → RailCall
  -- the payment, the amount, the idempotency key
  create_refund : String → Paise → String → RailCall

pub record Instrument : Type 0 where
  pub customer_id : String
  pub token_id : String

-- `findPaymentInstrument` of executor.repository.ts, on the mandate's row.
abbrev pub instrument_of : Option LockedMandate → Option Instrument
instrument_of none = none
instrument_of (some m) = elim m.payment_customer_ref [
  | none ↦ none
  | some customer ↦ elim m.payment_token_ref [
    | none ↦ none
    | some token ↦ some (record { customer_id = customer; token_id = token })
  ]
]

unfoldable pub order_state_text : OrderState → String
order_state_text OrderState.authorised = "AUTHORISED"
order_state_text OrderState.submitting = "SUBMITTING"
order_state_text OrderState.submitted = "SUBMITTED"
order_state_text OrderState.captured = "CAPTURED"
order_state_text OrderState.failed = "FAILED"
order_state_text OrderState.ambiguous = "AMBIGUOUS"
order_state_text OrderState.failed_unresolved = "FAILED_UNRESOLVED"
