-- ===== src/Settlement/Effects.antt =====
-- The transactions of the reconciler and the jobs, seen in the reservations.
use razorpay_hackathon.Base.{
  is_some, any, ltb, ◌+◌, ◌==◌, String, Bool, Option, ◌≡◌, refl, inl, inr, arith, Bool-cases,
  Option-cases, if◌then◌else◌,
}
use razorpay_hackathon.Shared.Crypto.{Runtime, Date}
use razorpay_hackathon.Shared.Fault.{Result, ok, >>=-Given, given, Result-cases}
use razorpay_hackathon.Store.Rows.{Challenge, Reservation, ReleaseReason, OrderRow, OrderState, Db}
use razorpay_hackathon.Store.Reads.{is_counted, find_by_intent, find_order_by_rail_id}
use razorpay_hackathon.Store.Writes.{append_entry, release_reservation, claim_event}
use razorpay_hackathon.Settlement.Rail.{RailOrder}
use razorpay_hackathon.Settlement.Reconciler.{
  PaymentEntity, IngestOutcome, transition, confirm, apply_event, was_captured,
}
use razorpay_hackathon.Settlement.Jobs.{expire_challenge, reap}
use razorpay_hackathon.Settlement.Ambiguous.{
  RailRead, resolution, resolved_rows, resolve_order, compensate, reconcile_max_age_ms,
}
use razorpay_hackathon.Settlement.Settled.{
  Settled, released, captured, Settled-refl, Settled-before, Settled-append,
}

resolved_rows-Settled :
    (order : OrderRow) (state : OrderState) (payment : Option String) (db : Db)
    → Settled db (resolved_rows order state payment db)
unfolding resolved_rows
resolved_rows-Settled order OrderState.captured payment db = record {
  now = refl;
  mandates = refl;
  rows = captured order.intent_id refl;
}
resolved_rows-Settled order OrderState.failed payment db = record {
  now = refl;
  mandates = refl;
  rows = released is_counted order.intent_id ReleaseReason.payment_failed refl;
}
resolved_rows-Settled order _ payment db = record {
  now = refl;
  mandates = refl;
  rows = released is_counted order.intent_id ReleaseReason.unresolved refl;
}

transition-Settled :
    (rt : Runtime) (merchant_id : String) (order : OrderRow) (payment : PaymentEntity)
    (rail_order : RailOrder) (db : Db)
    → Settled db (transition rt merchant_id order payment rail_order db)
unfolding transition
transition-Settled rt merchant_id order payment rail_order db =
    elim (Bool-cases (was_captured rail_order)) [
      | inl paid ↦
          rw (paid, if◌then◌else◌)
            (record { now = refl; mandates = refl; rows = captured order.intent_id refl })
      | inr failed ↦
          rw (failed, if◌then◌else◌)
            (record {
              now = refl;
              mandates = refl;
              rows = released is_counted order.intent_id ReleaseReason.payment_failed refl;
            })
    ]

claim_event-rows :
    (id : String) (db : Db)
    → ((claim_event db id).1.now ≡ db.now)
      × ((claim_event db id).1.mandates ≡ db.mandates)
      × ((claim_event db id).1.reservations ≡ db.reservations)
claim_event-rows id db =
    elim (Bool-cases (any (λ (event : String). event == id) db.webhook_events)) [
      | inl before ↦ rw (before, if◌then◌else◌) (refl, refl, refl)
      | inr fresh ↦ rw (fresh, if◌then◌else◌) (refl, refl, refl)
    ]

module _ (rt : Runtime) (merchant_id : String) where
  pub reap-Settled :
      (candidate : Reservation) (db : Db) {done : Bool} {db' : Db}
      → reap rt merchant_id candidate db ≡ ok (done, db')
      → Settled db db'
  unfolding reap
  reap-Settled candidate db {db' = db'} e =
      elim (Bool-cases (is_some (find_by_intent db candidate.intent_id))) [
        | inl ordered ↦ Settled-refl db db' (ground (arith, rw (ordered, reap) at e))
        | inr unordered ↦
            elim (Bool-cases (release_reservation db candidate.intent_id ReleaseReason.reaped).0) [
              | inr nothing ↦
                  Settled-refl db db' (ground (arith, rw (unordered, nothing, reap) at e))
              | inl some_released ↦
                  elim (>>=-Given (append_entry rt _ _) _
                    (rw (unordered, some_released, reap) at e)) [
                      | given written appended e1 ↦
                          let here : Settled db _ = record {
                            now = refl;
                            mandates = refl;
                            rows =
                                released is_counted candidate.intent_id ReleaseReason.reaped refl;
                          } in
                          let last = Settled-append rt db _ _ here appended in
                          let store : written.1 ≡ db' = ground (arith, e1) in rw⁻¹ store last
                    ]
            ]
      ]

  pub expire_challenge-Settled :
      (challenge : Challenge) (db : Db) {db' : Db}
      → expire_challenge rt merchant_id challenge db ≡ ok (tt, db')
      → Settled db db'
  unfolding expire_challenge
  expire_challenge-Settled challenge db {db' = db'} e = elim (>>=-Given (append_entry rt _ _) _ e) [
    | given written appended e1 ↦
        let here : Settled db _ = record {
          now = refl;
          mandates = refl;
          rows = released is_counted challenge.intent_id ReleaseReason.step_up_abandoned refl;
        } in
        let last = Settled-append rt db _ _ here appended in
        let store : written.1 ≡ db' = ground (arith, e1) in rw⁻¹ store last
  ]

  pub compensate-Settled :
      (order : OrderRow) (refund_id refund_state : String) (db : Db) {db' : Db}
      → compensate rt merchant_id order refund_id refund_state db ≡ ok (tt, db')
      → Settled db db'
  unfolding compensate
  compensate-Settled order refund_id refund_state db {db' = db'} e =
      elim (>>=-Given (append_entry rt _ _) _ e) [
        | given written appended e1 ↦
            let here : Settled db _ = record {
              now = refl;
              mandates = refl;
              rows = released is_counted order.intent_id ReleaseReason.refunded refl;
            } in
            let last = Settled-append rt db _ _ here appended in
            let store : written.1 ≡ db' = ground (arith, e1) in rw⁻¹ store last
      ]

  pub resolve_order-Settled :
      (now : Date) (order : OrderRow) (read : RailRead) (db : Db) {answer : Option OrderState}
      {db' : Db}
      → resolve_order rt merchant_id now order read db ≡ ok (answer, db')
      → Settled db db'
  unfolding resolve_order
  resolve_order-Settled now order read db {db' = db'} e =
      elim (Option-cases
        (resolution (ltb (order.created_at + reconcile_max_age_ms) now) read.rail_status)) [
          | inl unclear ↦ Settled-refl db db' (ground (arith, rw (unclear, resolve_order) at e))
          | inr (state, clear) ↦
              elim (>>=-Given (append_entry rt _ _) _ (rw (clear, resolve_order) at e)) [
                | given written appended e1 ↦
                    let last =
                      Settled-append rt db _ _
                        (resolved_rows-Settled order state read.rail_payment_id db) appended in
                    let store : written.1 ≡ db' = ground (arith, e1) in rw⁻¹ store last
              ]
        ]

  confirm-Settled :
      (id type : String) (payment : PaymentEntity) (order : OrderRow) (rail_order : RailOrder)
      (db : Db) {outcome : IngestOutcome} {db' : Db}
      → confirm rt merchant_id id type payment order rail_order db ≡ ok (outcome, db')
      → Settled db db'
  unfolding confirm
  confirm-Settled id type payment order rail_order db {db' = db'} e =
      elim (>>=-Given (append_entry rt _ _) _ e) [
        | given seen appended e1 ↦ elim (>>=-Given (append_entry rt _ _) _ e1) [
          | given done appended' e2 ↦
              let first =
                Settled-append rt db _ _
                  (transition-Settled rt merchant_id order payment rail_order db) appended in
              let last = Settled-append rt db seen.1 _ first appended' in
              let store : done.1 ≡ db' = ground (arith, e2) in rw⁻¹ store last
        ]
      ]

  pub apply_event-Settled :
      (id type : String) (payment : PaymentEntity) (fetched : Result RailOrder) (db : Db)
      {outcome : IngestOutcome} {db' : Db}
      → apply_event rt merchant_id id type payment fetched db ≡ ok (outcome, db')
      → Settled db db'
  unfolding apply_event
  apply_event-Settled id type payment fetched db {outcome = outcome} {db' = db'} e =
      let step : Db = (claim_event db id).1 in
      let (time, mandates, rows) = claim_event-rows id db in
      let only : step ≡ db' → Settled db db' =
        λ same. Settled-before db step db' time mandates rows (Settled-refl step db' same) in
      elim (Bool-cases (claim_event db id).0) [
        | inr before ↦ only (ground (arith, rw (before, apply_event) at e))
        | inl fresh ↦ elim (Option-cases (find_order_by_rail_id step payment.order_id)) [
          | inl unknown ↦ only (ground (arith, rw (fresh, unknown, apply_event) at e))
          | inr (order, known) ↦ elim (Result-cases fetched) [
            | inr (fault, thrown) ↦ ground (arith, rw (fresh, known, thrown, apply_event) at e)
            | inl (rail_order, answered) ↦ Settled-before db step db' time mandates rows (
                confirm-Settled id type payment order rail_order step
                  (rw (fresh, known, answered, apply_event) at e))
          ]
        ]
      ]
