-- ===== src/Authorization/Approval.antt =====
-- When a human's approval of a step-up is honoured.
use razorpay_hackathon.Base.{◌<◌, ◌≡◌, ◌↔◌, Bool, true, some, arith}
use razorpay_hackathon.Shared.Reason.{ok_000}
use razorpay_hackathon.Shared.Crypto.{Date}
use razorpay_hackathon.Policy.Facts.{MandateState}
use razorpay_hackathon.Store.Rows.{LockedMandate, Challenge, ChallengeState, ReservationState, Db}
use razorpay_hackathon.Store.Reads.{reservation_state}
use razorpay_hackathon.Authorization.StepUp.{check_approval}

-- What holds of an approval that is honoured.
pub record IsApprovable (db : Db) (challenge : Challenge) (mandate : LockedMandate) (now : Date)
    (approve : Bool) : Type 0 where
  pub approved : approve ≡ true
  pub undecided : challenge.state ≡ ChallengeState.pending
  pub in_time : now < challenge.expires_at
  pub live : mandate.state ≡ MandateState.live
  pub not_over : now < mandate.not_after
  pub held : reservation_state db challenge.intent_id ≡ some ReservationState.held

-- An approval is answered OK-000 exactly when the human approved, the challenge is undecided and in
-- time, the mandate is live and not over, and the reservation of the intent is still held.
pub check_approval-ok_iff :
    (db : Db) (challenge : Challenge) (mandate : LockedMandate) (now : Date) (approve : Bool)
    → (check_approval db challenge mandate now approve ≡ ok_000)
      ↔ IsApprovable db challenge mandate now approve
unfolding check_approval
check_approval-ok_iff db challenge mandate now approve = ground arith
