-- ===== src/Authorization/Reserved.antt =====
-- What a run under the lock does to the reservations, the quotes and the nonces.
use razorpay_hackathon.Base.{
  ℕ, String, ◌≡◌, refl, ◌≢◌, true, false, Option, none, some, [], ◌∷◌, ◌++◌, arith, any,
}
use razorpay_hackathon.Shared.Reason.{Verdict, ReasonCode, allow, deny, step_up}
use razorpay_hackathon.Shared.Crypto.{Runtime, Date}
use razorpay_hackathon.Shared.Fault.{ok}
use razorpay_hackathon.Policy.Facts.{VerifierOutcome}
use razorpay_hackathon.Store.Rows.{LockedMandate, Reservation, ReservationState, Db}
use razorpay_hackathon.Store.Writes.{update_where, is_open_quote}
use razorpay_hackathon.Authorization.Request.{FreshIds, AuthorizationRequest}
use razorpay_hackathon.Authorization.Locked.{reserve, challenge}

module _ (rt : Runtime) (ttl : ℕ) (request : AuthorizationRequest) (failure : Option ReasonCode)
    (verifier : VerifierOutcome) (now : Date) (ids : FreshIds) where
  -- The hold that is written on ALLOW and STEP_UP.
  abbrev pub hold : LockedMandate → Verdict → Date → Reservation
  hold mandate verdict created_at =
      let intent = request.signed_intent.intent in
      record {
        reservation_id = ids.reservation_id;
        mandate_id = mandate.mandate_id;
        merchant_id = intent.merchant_id;
        intent_id = intent.intent_id;
        amount_paise = intent.amount_paise;
        state = ReservationState.held;
        step_up = elim verdict [ step_up ↦ true | _ ↦ false ];
        created_at = created_at;
        resolved_at = none;
        release_reason = none;
      }

  pub record IsHeld (mandate : LockedMandate) (verdict : Verdict) (db : Db) (id : Option String)
      (db' : Db) : Type 0 where
    pub reservation_id : id ≡ some ids.reservation_id
    pub reservations : db'.reservations ≡ db.reservations ++ hold mandate verdict db.now ∷ []
    pub open_quote : any (is_open_quote request.signed_intent.intent.quote_id) db.quotes ≡ true
    pub quotes :
        db'.quotes
        ≡ update_where
            (is_open_quote request.signed_intent.intent.quote_id)
            (λ q. record q {
              consumed_at = some db.now;
              consumed_by = some request.signed_intent.intent.intent_id;
            })
            db.quotes
    pub nonces : db'.nonces ≡ db.nonces
    pub time : db'.now ≡ db.now
    pub ledger : db'.ledger ≡ db.ledger
    pub mandates : db'.mandates ≡ db.mandates

  pub reserve-IsHeld :
      (mandate : LockedMandate) (verdict : Verdict) (db : Db) {id : Option String} {db' : Db}
      → verdict ≢ deny
      → reserve rt ttl request failure verifier now ids mandate verdict db ≡ ok (id, db')
      → IsHeld mandate verdict db id db'
  unfolding reserve
  reserve-IsHeld mandate deny db h e = absurd (h refl)
  reserve-IsHeld mandate allow db h e = ground arith
  reserve-IsHeld mandate step_up db h e = ground arith

  pub reserve_denied :
      (mandate : LockedMandate) (db : Db) {id : Option String} {db' : Db}
      → reserve rt ttl request failure verifier now ids mandate deny db ≡ ok (id, db')
      → (id ≡ none) × (db' ≡ db)
  unfolding reserve
  reserve_denied mandate db e = ground arith

  -- A challenge touches only its own table, and is written on STEP_UP only.
  pub record IsChallenged (db db' : Db) : Type 0 where
    pub time : db'.now ≡ db.now
    pub nonces : db'.nonces ≡ db.nonces
    pub quotes : db'.quotes ≡ db.quotes
    pub reservations : db'.reservations ≡ db.reservations
    pub orders : db'.orders ≡ db.orders
    pub ledger : db'.ledger ≡ db.ledger
    pub mandates : db'.mandates ≡ db.mandates

  pub challenge_rows :
      (mandate : LockedMandate) (verdict : Verdict) (db : Db) {id : Option String} {db' : Db}
      → challenge rt ttl request failure verifier now ids mandate verdict db ≡ ok (id, db')
      → IsChallenged db db'
  unfolding challenge
  challenge_rows mandate deny db e = ground arith
  challenge_rows mandate allow db e = ground arith
  challenge_rows mandate step_up db e = ground arith
