-- ===== src/Store/Rows.antt =====
-- The rows of the tables (interfaces of authorization.repository.ts, quote.repository.ts and
-- executor.repository.ts, and migrations/002_core.sql to 015_payment_instrument.sql), as far as the
-- modelled statements read or write them. The tables hold the rows that row level security shows to
-- the deployment's merchant.
use razorpay_hackathon.Base.{ℕ, String, Bool, Option, List}
use razorpay_hackathon.Shared.Text.{Bytes}
use razorpay_hackathon.Shared.Money.{Paise}
use razorpay_hackathon.Shared.Json.{JsNumber}
use razorpay_hackathon.Shared.Crypto.{Date}
use razorpay_hackathon.Policy.Facts.{MandateState}
use razorpay_hackathon.Ledger.Entry.{StoredEntry}

-- `cumulative_window` is the interval's length in milliseconds; the lists are those of `scope`.
pub record LockedMandate : Type 0 where
  pub mandate_id : String
  pub merchant_id : String
  pub agent_id : String
  pub state : MandateState
  pub not_before : Date
  pub not_after : Date
  pub per_transaction_paise : Paise
  pub cumulative_paise : Paise
  pub cumulative_window : ℕ
  pub velocity_per_hour : ℕ
  pub silent_threshold_paise : Paise
  pub allowed_merchants : List String
  pub allowed_categories : List String
  pub auth_event_id : Option String
  pub revoked_at : Option Date
  pub payment_customer_ref : Option String
  pub payment_token_ref : Option String
  pub chain_head_seq : Option ℕ
  pub chain_head_hash : Option Bytes
  pub subject_pseudonym : String
  pub kid : String
  pub signature : Bytes
  pub customer_ref : Option String
  pub fulfilment_ref : Option String

pub record AgentIdentity : Type 0 where
  pub agent_id : String
  pub name : String
  pub public_key : Bytes
  pub attestation : String

pub data KeyState : Type 0 where
  active retired : KeyState

pub record VerificationKey : Type 0 where
  pub kid : String
  pub purpose : String
  pub state : KeyState
  pub public_key : Bytes
  pub private_key : Option Bytes

pub record AuthEvent : Type 0 where
  pub auth_event_id : String
  pub subject_pseudonym : String
  pub method : String
  pub occurred_at : Date
  pub max_age_seconds : ℕ

pub record CatalogItem : Type 0 where
  pub merchant_id : String
  pub sku : String
  pub name : String
  pub category : String
  pub price_paise : Paise
  pub active : Bool

pub record QuoteLine : Type 0 where
  pub sku : String
  pub quantity : JsNumber
  pub price_paise : Paise

pub record QuoteRow : Type 0 where
  pub quote_id : String
  pub mandate_id : String
  pub merchant_id : String
  pub amount_paise : Paise
  pub categories : List String
  pub basket_hash : Bytes
  pub expires_at : Date
  pub consumed_at : Option Date
  pub consumed_by : Option String
  pub nonce : String
  pub issued_at : Date
  pub kid : String
  pub signature : Bytes
  pub basket : List QuoteLine

pub record NonceRow : Type 0 where
  pub nonce : String
  pub mandate_id : String
  pub intent_id : String

pub data ReservationState : Type 0 where
  held captured released : ReservationState

pub data ReleaseReason : Type 0 where
  payment_failed reaped step_up_abandoned unresolved refunded : ReleaseReason

pub record Reservation : Type 0 where
  pub reservation_id : String
  pub mandate_id : String
  pub merchant_id : String
  pub intent_id : String
  pub amount_paise : Paise
  pub state : ReservationState
  pub step_up : Bool
  pub created_at : Date
  pub resolved_at : Option Date
  pub release_reason : Option ReleaseReason

pub data ChallengeState : Type 0 where
  pending approved rejected expired : ChallengeState

pub record Challenge : Type 0 where
  pub challenge_id : String
  pub intent_id : String
  pub mandate_id : String
  pub merchant_id : String
  pub amount_paise : Paise
  pub state : ChallengeState
  pub expires_at : Date

pub data OrderState : Type 0 where
  authorised submitting submitted captured failed ambiguous failed_unresolved : OrderState

pub record OrderRow : Type 0 where
  pub order_id : String
  pub intent_id : String
  pub mandate_id : String
  pub merchant_id : String
  pub amount_paise : Paise
  pub state : OrderState
  pub rail_order_id : Option String
  pub rail_payment_id : Option String
  pub idempotency_key : String
  pub created_at : Date

pub data RefundState : Type 0 where
  requested submitted completed failed : RefundState

pub record RefundRow : Type 0 where
  pub refund_id : String
  pub order_id : String
  pub merchant_id : String
  pub amount_paise : Paise
  pub reason : String
  pub state : RefundState
  pub idempotency_key : String
  pub rail_refund_id : Option String

-- The merchant's row carries the head of the operations chain.
pub record MerchantRow : Type 0 where
  pub merchant_id : String
  pub chain_head_seq : Option ℕ
  pub chain_head_hash : Option Bytes

-- `now` is the time that `now()` answers in the statements of the current transaction.
pub record Db : Type 0 where
  pub now : Date
  pub merchants : List MerchantRow
  pub mandates : List LockedMandate
  pub agents : List AgentIdentity
  pub keys : List VerificationKey
  pub auth_events : List AuthEvent
  pub catalog : List CatalogItem
  pub quotes : List QuoteRow
  pub nonces : List NonceRow
  pub reservations : List Reservation
  pub challenges : List Challenge
  pub orders : List OrderRow
  pub refunds : List RefundRow
  pub webhook_events : List String
  pub ledger : List StoredEntry
