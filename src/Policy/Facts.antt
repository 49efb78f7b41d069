-- ===== src/Policy/Facts.antt =====
-- modules/policy/policy.validation.ts and modules/verifier/verifier.validation.ts: what the fold
-- may see, and what it answers.
use razorpay_hackathon.Base.{ℕ, String, Bool, Option, List}
use razorpay_hackathon.Shared.Reason.{Verdict, ReasonCode}
use razorpay_hackathon.Shared.Money.{Paise}
use razorpay_hackathon.Shared.Crypto.{Date}

-- There is no outcome that grants.
pub data VerifierOutcome : Type 0 where
  proceed : VerifierOutcome
  deny unavailable : String → VerifierOutcome

pub data MandateState : Type 0 where
  live revoked expired : MandateState

pub record MandateFacts : Type 0 where
  pub mandate_id : String
  pub merchant_id : String
  pub agent_id : String
  pub state : MandateState
  pub not_before : Date
  pub not_after : Date
  pub per_transaction_paise : Paise
  pub cumulative_paise : Paise
  pub velocity_per_hour : ℕ
  pub silent_threshold_paise : Paise
  pub allowed_merchants : List String
  pub allowed_categories : List String
  pub has_auth_event : Bool

pub record IntentFacts : Type 0 where
  pub intent_id : String
  pub merchant_id : String
  pub amount_paise : Paise
  pub agent_id : String
  pub taint_reached_decision_field : Bool

pub record QuoteFacts : Type 0 where
  pub quote_id : String
  pub mandate_id : String
  pub amount_paise : Paise
  pub categories : List String
  pub expires_at : Date

pub record PolicyFacts : Type 0 where
  pub now : Date
  pub stateless_failure : Option ReasonCode
  pub verifier : VerifierOutcome
  pub mandate : MandateFacts
  pub intent : IntentFacts
  pub quote : QuoteFacts
  pub nonce_already_spent : Bool
  pub quote_already_consumed : Bool
  pub reserved_and_captured_paise : Paise
  pub reservations_last_hour : ℕ
  pub seen_this_merchant_before : Bool
  pub agent_registered : Bool

pub record EvaluatedRule : Type 0 where
  pub rule : String
  pub passed : Bool
  pub observed : Option String
  pub bound : Option String
  pub reason_code : Option ReasonCode

pub record PolicyOutcome : Type 0 where
  pub verdict : Verdict
  pub reason_code : ReasonCode
  pub evaluated : List EvaluatedRule
