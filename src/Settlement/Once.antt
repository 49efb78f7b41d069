-- ===== src/Settlement/Once.antt =====
-- What happens once: a webhook event, and the expiry of a mandate.
use razorpay_hackathon.Base.{
  ◌≤◌, ◌<◌, leb_iff, String, ◌≡◌, refl, inl, inr, true, List, [], ◌∷◌, arith, any, any-append_last,
  ◌==◌, ==_refl, Bool-cases, if◌then◌else◌, Option-cases,
}
use razorpay_hackathon.Shared.Crypto.{Runtime, Date}
use razorpay_hackathon.Shared.Fault.{Result, ok, >>=-eq-ok, Result-cases}
use razorpay_hackathon.Policy.Facts.{MandateState}
use razorpay_hackathon.Ledger.Entry.{StoredEntry, LedgerAppend}
use razorpay_hackathon.Store.Rows.{LockedMandate, OrderRow, Db}
use razorpay_hackathon.Store.Reads.{find_order_by_rail_id}
use razorpay_hackathon.Store.Writes.{append_entry, claim_event, update_where}
use razorpay_hackathon.Settlement.Rail.{RailOrder}
use razorpay_hackathon.Settlement.Reconciler.{
  PaymentEntity, IngestOutcome, duplicate, apply_event, transition, confirm,
}
use razorpay_hackathon.Settlement.Jobs.{JobResult, expire_mandates, is_overdue}

abbrev IsClaimed : String → Db → Type 0
IsClaimed id db = any (λ (event : String). event == id) db.webhook_events ≡ true

module _ (rt : Runtime) where
  append_entry-webhook_events :
      (db : Db) (entry : LedgerAppend) {row : StoredEntry} {db' : Db}
      → append_entry rt db entry ≡ ok (row, db')
      → db'.webhook_events ≡ db.webhook_events
  unfolding append_entry
  append_entry-webhook_events db entry e = ground arith

claim_event-IsClaimed : (id : String) (db : Db) → IsClaimed id (claim_event db id).1
claim_event-IsClaimed id db =
    elim (Bool-cases (any (λ (event : String). event == id) db.webhook_events)) [
      | inl before ↦ rw (before, if◌then◌else◌) before
      | inr now ↦
          rw (now, if◌then◌else◌)
            (any-append_last (λ (event : String). event == id) db.webhook_events id (==_refl id))
    ]

module _ (rt : Runtime) (merchant_id id : String) where
  confirm-webhook_events :
      (type : String) (payment : PaymentEntity) (order : OrderRow) (rail_order : RailOrder)
      (db : Db) {outcome : IngestOutcome} {db' : Db}
      → confirm rt merchant_id id type payment order rail_order db ≡ ok (outcome, db')
      → db'.webhook_events ≡ db.webhook_events
  unfolding confirm transition
  confirm-webhook_events type payment order rail_order db e =
      let (seen, es, e₁) =
        >>=-eq-ok (append_entry rt (transition rt merchant_id order payment rail_order db) _) _ e in
      let (done, ed, e₂) = >>=-eq-ok (append_entry rt seen.1 _) _ e₁ in
      let first = append_entry-webhook_events rt _ _ es in
      let second = append_entry-webhook_events rt _ _ ed in ground arith

  apply_event-IsClaimed :
      (type : String) (payment : PaymentEntity) (fetched : Result RailOrder) (db : Db)
      {outcome : IngestOutcome} {db' : Db}
      → apply_event rt merchant_id id type payment fetched db ≡ ok (outcome, db')
      → IsClaimed id db'
  unfolding apply_event
  apply_event-IsClaimed type payment fetched db {outcome = outcome} {db' = db'} e =
      let spent = claim_event-IsClaimed id db in
      let step : Db = (claim_event db id).1 in
      elim (Bool-cases (claim_event db id).0) [
        | inr before ↦ ground (arith, spent, before)
        | inl now ↦ elim (Option-cases (find_order_by_rail_id step payment.order_id)) [
          | inl unknown ↦ ground (arith, spent)
          | inr (order, known) ↦ elim (Result-cases fetched) [
            | inr (fault, failed) ↦ ground arith
            | inl (rail_order, answered) ↦
                let confirmed : confirm rt merchant_id id type payment order rail_order step
                    ≡ ok (outcome, db') =
                  rw (now, known, answered) at e in
                rw (confirm-webhook_events type payment order rail_order step confirmed) spent
          ]
        ]
      ]

  module _ (type : String) (payment : PaymentEntity) (fetched : Result RailOrder) (db : Db)
      {outcome : IngestOutcome} {db' : Db}
      (done : apply_event rt merchant_id id type payment fetched db ≡ ok (outcome, db')) where
    -- Once an event was processed, any later event with its provider's id, whatever it says
    -- and whatever the rail answers, is a duplicate and changes nothing.
    pub apply_event-duplicate :
        (type' : String) (payment' : PaymentEntity) (fetched' : Result RailOrder)
        → apply_event rt merchant_id id type' payment' fetched' db' ≡ ok (duplicate id, db')
    unfolding apply_event
    apply_event-duplicate type' payment' fetched' =
        let spent = apply_event-IsClaimed type payment fetched db done in rw spent refl

-- What the sweep may do to a mandate: a live one whose end has come is expired and is otherwise as it
-- was; any other stays.
pub data Swept (now : Date) : LockedMandate → LockedMandate → Type 0 where
  ended :
      (m : LockedMandate)
      → m.state ≡ MandateState.live
      → m.not_after ≤ now
      → Swept now m (record m { state = MandateState.expired })
  stays : (m : LockedMandate) → (m.state ≡ MandateState.live → now < m.not_after) → Swept now m m

-- The rows of a table before and after the sweep, one by one.
pub data SweptAll (now : Date) : List LockedMandate → List LockedMandate → Type 0 where
  no_rows : SweptAll now [] []
  rows :
      {m m' : LockedMandate} {ms ms' : List LockedMandate}
      → Swept now m m'
      → SweptAll now ms ms'
      → SweptAll now (m ∷ ms) (m' ∷ ms')

update-SweptAll :
    (now : Date) (ms : List LockedMandate)
    → SweptAll now ms
        (update_where (is_overdue now) (λ m. record m { state = MandateState.expired }) ms)
update-SweptAll now [] = no_rows
update-SweptAll now (m ∷ ms) = elim (Bool-cases (is_overdue now m)) [
  | inl over ↦
      let live : m.state ≡ MandateState.live = ground (arith, over) in
      let past : m.not_after ≤ now = ground (arith, over, leb_iff m.not_after now) in
      rw (over, if◌then◌else◌) (rows (ended m live past) (update-SweptAll now ms))
  | inr current ↦
      let before : m.state ≡ MandateState.live → now < m.not_after =
        λ live. ground (arith, rw (live) at current, leb_iff m.not_after now) in
      rw (current, if◌then◌else◌) (rows (stays m before) (update-SweptAll now ms))
]

-- The sweep expires each live mandate whose end is not after the given time, leaves every other
-- mandate as it was, in its place, and changes nothing else in the store.
pub expire_mandates-SweptAll :
    (now : Date) (db : Db) {result : JobResult} {db' : Db}
    → expire_mandates now db ≡ ok (result, db')
    → SweptAll now db.mandates db'.mandates × (db' ≡ record db { mandates = db'.mandates })
unfolding expire_mandates
expire_mandates-SweptAll now db {db' = db'} e =
    let swept : db' ≡ record db {
      mandates =
          update_where (is_overdue now) (λ m. record m { state = MandateState.expired })
            db.mandates;
    } =
      ground arith in
    rw swept (update-SweptAll now db.mandates, refl)
