-- ===== src/Settlement/Charged.antt =====
-- The executor's record of a call, seen in the reservations.
use razorpay_hackathon.Base.{String, Option, ◌≡◌, refl, inl, inr, arith, Bool-cases}
use razorpay_hackathon.Shared.Crypto.{Runtime}
use razorpay_hackathon.Shared.Fault.{ok, >>=-Given, given}
use razorpay_hackathon.Store.Rows.{ReleaseReason, OrderState, Db}
use razorpay_hackathon.Store.Reads.{is_counted}
use razorpay_hackathon.Store.Writes.{append_entry, release_reservation}
use razorpay_hackathon.Authorization.Recorded.{append_entry_rows}
use razorpay_hackathon.Authorization.Service.{ExecuteRequest}
use razorpay_hackathon.Settlement.Executor.{Execution, release_failed, record_body, is_failed}
use razorpay_hackathon.Settlement.Settled.{
  Settled, released, Settled-refl, Settled-before, Settled-append,
}

module _ (rt : Runtime) (request : ExecuteRequest) (env : Execution) where
  release_failed-Settled :
      (order_id : String) (db : Db) {db' : Db}
      → release_failed rt request env order_id db ≡ ok (tt, db')
      → Settled db db'
  unfolding release_failed
  release_failed-Settled order_id db {db' = db'} e =
      let here : Settled db
          (release_reservation db request.intent_id ReleaseReason.payment_failed).1 =
        record {
          now = refl;
          mandates = refl;
          rows = released is_counted request.intent_id ReleaseReason.payment_failed refl;
        } in
      elim (Bool-cases (release_reservation db request.intent_id ReleaseReason.payment_failed).0) [
        | inr nothing ↦
            let store : (release_reservation db request.intent_id ReleaseReason.payment_failed).1
                ≡ db' =
              ground (arith, rw (nothing, release_failed) at e) in
            rw⁻¹ store here
        | inl some_released ↦
            elim (>>=-Given (append_entry rt _ _) _ (rw (some_released, release_failed) at e)) [
              | given written appended e1 ↦
                  let last = Settled-append rt db _ _ here appended in
                  let store : written.1 ≡ db' = ground (arith, e1) in rw⁻¹ store last
            ]
      ]

  pub record_body-Settled :
      (order_id : String) (state : OrderState) (rail_order_id : Option String) (db : Db) {db' : Db}
      → record_body rt request env order_id state rail_order_id db ≡ ok (tt, db')
      → Settled db db'
  unfolding record_body
  record_body-Settled order_id state rail_order_id db {db' = db'} e =
      elim (>>=-Given (append_entry rt _ _) _ e) [
        | given written appended e1 ↦
            let (own, kept, _) = append_entry_rows rt _ _ appended in
            elim (Bool-cases (is_failed state)) [
              | inr other ↦
                  let same : written.1 ≡ db' = ground (arith, rw other at e1) in
                  Settled-before db written.1 db' own.now kept own.reservations
                    (Settled-refl written.1 db' same)
              | inl failed ↦
                  Settled-before db written.1 db' own.now kept own.reservations
                    (release_failed-Settled order_id written.1 (rw failed at e1))
            ]
      ]
