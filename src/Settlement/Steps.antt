-- ===== src/Settlement/Steps.antt =====
-- The transactions that touch the reservations, and the stores that they reach.
use razorpay_hackathon.Base.{ℕ, ◌≤◌, String, ◌≡◌, Bool, Option, some}
use razorpay_hackathon.Shared.Reason.{Verdict, ReasonCode, verdict_for_reason}
use razorpay_hackathon.Shared.Crypto.{Runtime, Date}
use razorpay_hackathon.Shared.Fault.{Result, ok}
use razorpay_hackathon.Policy.Facts.{VerifierOutcome}
use razorpay_hackathon.Store.Rows.{
  LockedMandate, Challenge, Reservation, OrderRow, OrderState, ReservationState, ReleaseReason, Db,
}
use razorpay_hackathon.Store.Reads.{lock_mandate}
use razorpay_hackathon.Store.Writes.{release_where, capture_reservation}
use razorpay_hackathon.Authorization.Request.{FreshIds, AuthorizationRequest, Decision}
use razorpay_hackathon.Authorization.Locked.{run_locked}
use razorpay_hackathon.Authorization.StepUp.{approve_locked}
use razorpay_hackathon.Authorization.Service.{ExecuteRequest}
use razorpay_hackathon.Settlement.Rail.{RailOrder}
use razorpay_hackathon.Settlement.Executor.{Execution, record_body}
use razorpay_hackathon.Settlement.Reconciler.{PaymentEntity, IngestOutcome, apply_event}
use razorpay_hackathon.Settlement.Jobs.{expire_challenge, reap}
use razorpay_hackathon.Settlement.Ambiguous.{RailRead, resolve_order, compensate}
use razorpay_hackathon.Settlement.Revocation.{RevocationResult, RevokeMandateInput, revoke}

module _ (rt : Runtime) where
  -- The transactions that touch the reservations, in whatever order they commit, the time that
  -- passes, and what anything else does to the rest of the store.
  pub data Step : Db → Db → Type 0 where
    runs :
        (ttl : ℕ) (request : AuthorizationRequest) (failure : Option ReasonCode)
        (verifier : VerifierOutcome) (now : Date) (ids : FreshIds) (db : Db) {m : LockedMandate}
        {d : Decision} {db' : Db}
        → ((code : ReasonCode) → failure ≡ some code → verdict_for_reason code ≡ Verdict.deny)
        → lock_mandate db request.signed_intent.intent.mandate_id ≡ some m
        → run_locked rt ttl request failure verifier now ids db ≡ ok (d, db')
        → Step db db'
    approves :
        (challenge_id : String) (approve : Bool) (now : Date) (decision_id : String) (seen db : Db)
        {d : Decision} {db' : Db}
        → approve_locked rt challenge_id approve now decision_id seen db ≡ ok (d, db')
        → Step db db'
    revokes :
        (decision_id : String) (input : RevokeMandateInput) (db : Db)
        {answer : Option RevocationResult} {db' : Db}
        → revoke rt decision_id input db ≡ ok (answer, db')
        → Step db db'
    -- The executor's record of a call, which releases the hold of a purchase that failed.
    records :
        (request : ExecuteRequest) (env : Execution) (order_id : String) (state : OrderState)
        (rail_order_id : Option String) (db : Db) {db' : Db}
        → record_body rt request env order_id state rail_order_id db ≡ ok (tt, db')
        → Step db db'
    -- A webhook.
    applies :
        (merchant_id id type : String) (payment : PaymentEntity) (fetched : Result RailOrder)
        (db : Db) {outcome : IngestOutcome} {db' : Db}
        → apply_event rt merchant_id id type payment fetched db ≡ ok (outcome, db')
        → Step db db'
    -- The jobs.
    expires :
        (merchant_id : String) (challenge : Challenge) (db : Db) {db' : Db}
        → expire_challenge rt merchant_id challenge db ≡ ok (tt, db')
        → Step db db'
    reaps :
        (merchant_id : String) (candidate : Reservation) (db : Db) {done : Bool} {db' : Db}
        → reap rt merchant_id candidate db ≡ ok (done, db')
        → Step db db'
    resolves :
        (merchant_id : String) (now : Date) (order : OrderRow) (read : RailRead) (db : Db)
        {answer : Option OrderState} {db' : Db}
        → resolve_order rt merchant_id now order read db ≡ ok (answer, db')
        → Step db db'
    compensates :
        (merchant_id : String) (order : OrderRow) (refund_id refund_state : String) (db : Db)
        {db' : Db}
        → compensate rt merchant_id order refund_id refund_state db ≡ ok (tt, db')
        → Step db db'
    captures : (intent_id : String) (db : Db) → Step db (capture_reservation db intent_id)
    releases :
        (p : ReservationState → Bool) (intent_id : String) (reason : ReleaseReason) (db : Db)
        → Step db (release_where db p intent_id reason)
    elapses : (later : Date) (db : Db) → db.now ≤ later → Step db (record db { now = later })
    elsewhere :
        (db db' : Db)
        → db'.now ≡ db.now
        → db'.reservations ≡ db.reservations
        → db'.mandates ≡ db.mandates
        → Step db db'

  pub data Steps : Db → Db → Type 0 where
    stay : (db : Db) → Steps db db
    after : {db db' db'' : Db} → Step db db' → Steps db' db'' → Steps db db''
