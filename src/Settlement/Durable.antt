-- ===== src/Settlement/Durable.antt =====
-- An execution that reached the rail leaves an order, which the reaper respects.
use razorpay_hackathon.Base.{
  String, ◌≡◌, refl, ◌∙◌, ◌≢◌, inl, inr, Bool, true, false, Option, none, some, List, [], ◌∷◌, ◌++◌,
  ◌||◌, arith, find, any, ◌==◌, ==_refl, Bool-cases, Option-cases, is_some,
}
use razorpay_hackathon.Shared.Crypto.{Runtime}
use razorpay_hackathon.Shared.Fault.{Fault, Result, ok, >>=-eq-ok, Result-cases}
use razorpay_hackathon.Ledger.Entry.{StoredEntry, LedgerAppend}
use razorpay_hackathon.Store.Rows.{OrderRow, OrderState, Reservation, ReleaseReason, Db}
use razorpay_hackathon.Store.Reads.{find_by_intent}
use razorpay_hackathon.Store.Writes.{
  append_entry, set_order_state, release_reservation, insert_order,
}
use razorpay_hackathon.Store.Updated.{find-update_keys}
use razorpay_hackathon.Authorization.Service.{ExecuteRequest}
use razorpay_hackathon.Settlement.Rail.{RailCall, RailOrder}
use razorpay_hackathon.Settlement.Executor.{
  Execution, Claim, in_transaction, is_failed, is_submitting, found_order, claim, release_failed,
  record_body, record_execution, submit, call_rail, execute_claimed, execute,
}
use razorpay_hackathon.Settlement.Jobs.{reap}

-- The store has an order for the intent.
abbrev HasOrder : String → Db → Type 0
HasOrder intent_id db = is_some (find_by_intent db intent_id) ≡ true

find-append_last {ℓ} :
    {A : Type ℓ} (p : A → Bool) (xs : List A) (x : A)
    → p x ≡ true
    → is_some (find p (xs ++ x ∷ [])) ≡ true
find-append_last p [] x h = ground arith
find-append_last p (y ∷ xs) x h = ground (arith, find-append_last p xs x h)

insert_order-HasOrder :
    (db : Db) (row : OrderRow) {db' : Db}
    → insert_order db row ≡ ok db'
    → HasOrder row.intent_id db'
insert_order-HasOrder db row {db' = db'} e =
    elim (Bool-cases (
      any (λ (o : OrderRow). o.order_id == row.order_id || o.intent_id == row.intent_id)
        db.orders)) [
          | inl taken ↦ ground (arith, taken)
          | inr free ↦
              let stored : db' ≡ record db { orders = db.orders ++ row ∷ [] } =
                ground (arith, free) in
              rw stored (
                find-append_last (λ (o : OrderRow). o.intent_id == row.intent_id) db.orders row
                  (==_refl row.intent_id))
        ]

in_transaction-ok :
    {A : Type 0} (outage : Option Fault) (fn : Db → Result (A × Db)) (db : Db) {a : A}
    → (in_transaction outage fn db).0 ≡ ok a
    → fn db ≡ ok (a, (in_transaction outage fn db).1)
in_transaction-ok (some fault) fn db e = cc
in_transaction-ok none fn db e = elim (Result-cases (fn db)) [
  | inl (done, answered) ↦ ground (arith, answered)
  | inr (fault, failed) ↦ ground (arith, failed)
]

module _ (rt : Runtime) where
  append_entry-orders :
      (db : Db) (entry : LedgerAppend) {row : StoredEntry} {db' : Db}
      → append_entry rt db entry ≡ ok (row, db')
      → db'.orders ≡ db.orders
  unfolding append_entry
  append_entry-orders db entry e = ground arith

module _ (rt : Runtime) (request : ExecuteRequest) (env : Execution) where
  claim-HasOrder :
      (db : Db) {c : Claim} {db' : Db}
      → claim rt request env db ≡ ok (c, db')
      → HasOrder request.intent_id db'
  unfolding claim
  claim-HasOrder db {db' = db'} e = elim (Option-cases (find_by_intent db request.intent_id)) [
    | inr (existing, found) ↦ ground (arith, e)
    | inl fresh ↦
        let (inserted, ei, rest) = >>=-eq-ok (insert_order db _) _ (rw (fresh, claim) at e) in
        let stored : db' ≡ inserted = ground (arith, rest) in
        rw stored (insert_order-HasOrder db _ ei)
  ]

  release_failed-orders :
      (order_id : String) (db : Db) {u : Unit {0}} {db' : Db}
      → release_failed rt request env order_id db ≡ ok (u, db')
      → db'.orders ≡ db.orders
  unfolding release_failed
  release_failed-orders order_id db e =
      elim (Bool-cases (release_reservation db request.intent_id ReleaseReason.payment_failed).0) [
        | inr nothing ↦ ground (arith, nothing)
        | inl released ↦
            let (written, ew, rest) =
              >>=-eq-ok
                (append_entry rt
                  (release_reservation db request.intent_id ReleaseReason.payment_failed).1 _)
                _ (rw released at e) in
            let same = append_entry-orders rt _ _ ew in ground (arith, same, rest)
      ]

  record_body-orders :
      (order_id : String) (state : OrderState) (rail_order_id : Option String) (db : Db)
      {u : Unit {0}} {db' : Db}
      → record_body rt request env order_id state rail_order_id db ≡ ok (u, db')
      → db'.orders ≡ (set_order_state db order_id state rail_order_id none).orders
  unfolding record_body
  record_body-orders order_id state rail_order_id db e =
      let (written, ew, rest) =
        >>=-eq-ok (append_entry rt (set_order_state db order_id state rail_order_id none) _) _ e in
      let same = append_entry-orders rt _ _ ew in
      elim (Bool-cases (is_failed state)) [
        | inr other ↦ ground (arith, same, rest)
        | inl failed ↦ release_failed-orders order_id written.1 (rw failed at rest) ∙ same
      ]

  in_transaction-keeps :
      (outage : Option Fault) (fn : Db → Result (Unit {0} × Db)) (db : Db) (intent_id : String)
      → ((u : Unit {0}) (db' : Db) → fn db ≡ ok (u, db') → HasOrder intent_id db')
      → HasOrder intent_id db
      → HasOrder intent_id (in_transaction outage fn db).1
  in_transaction-keeps (some fault) fn db intent_id keeps h = h
  in_transaction-keeps none fn db intent_id keeps h = elim (Result-cases (fn db)) [
    | inl (done, e) ↦ rw (e, in_transaction) (keeps done.0 done.1 e)
    | inr (fault, e) ↦ rw (e, in_transaction) h
  ]

  record_execution-HasOrder :
      (order_id : String) (state : OrderState) (rail_order_id : Option String) (db : Db)
      → HasOrder request.intent_id db
      → HasOrder request.intent_id (record_execution rt request env order_id state rail_order_id db)
  unfolding record_execution
  record_execution-HasOrder order_id state rail_order_id db h =
      in_transaction-keeps env.record_outage
        (record_body rt request env order_id state rail_order_id) db request.intent_id
        (λ u db' e.
          let orders = record_body-orders order_id state rail_order_id db e in
          rw orders (
            find-update_keys (λ (o : OrderRow). o.intent_id == request.intent_id)
              (λ o. o.order_id == order_id) _ db.orders (λ y. refl)
            ∙ h))
        h

  call_rail-HasOrder :
      (c : Claim) (calls : List RailCall) (found : Option RailOrder) (db : Db)
      → HasOrder request.intent_id db
      → HasOrder request.intent_id (call_rail rt request env c calls found db).2
  unfolding call_rail
  call_rail-HasOrder c calls none db h =
      let made = submit rt request env c.instrument in
      record_execution-HasOrder c.order_id made.0 made.1 db h
  call_rail-HasOrder c calls (some order) db h =
      record_execution-HasOrder c.order_id _ (some order.rail_order_id) db h

  execute_claimed-HasOrder :
      (c : Claim) (db : Db)
      → HasOrder request.intent_id db
      → HasOrder request.intent_id (execute_claimed rt request env c db).2
  unfolding execute_claimed
  execute_claimed-HasOrder c db h = elim (Option-cases c.existing) [
    | inl fresh ↦ let called = call_rail-HasOrder c [] none db h in ground (arith, fresh, called)
    | inr (existing, found) ↦ elim (Bool-cases (is_submitting existing.state)) [
      | inl unsure ↦
          let called =
            call_rail-HasOrder c (RailCall.find_order_by_intent request.intent_id ∷ [])
              (found_order rt request env env.found) db h in
          ground (arith, found, unsure, called)
      | inr resolved ↦ ground (arith, found, resolved, h)
    ]
  ]

  execute-HasOrder :
      (db : Db)
      → (execute rt request env db).1 ≢ []
      → HasOrder request.intent_id (execute rt request env db).2
  unfolding execute
  execute-HasOrder db called =
      elim (Result-cases (in_transaction env.claim_outage (claim rt request env) db).0) [
        | inr (fault, failed) ↦ absurd (called (ground arith))
        | inl (c, claimed) ↦
            let ordered =
              claim-HasOrder db
                (in_transaction-ok env.claim_outage (claim rt request env) db claimed) in
            let kept =
              execute_claimed-HasOrder c
                (in_transaction env.claim_outage (claim rt request env) db).1 ordered in
            ground (arith, claimed, kept)
      ]

  -- A purchase whose execution called the rail is never reaped: on the store that the
  -- execution left, however its calls and its recording ended, the reaper finds the order of a
  -- candidate for the intent and changes nothing.
  pub execute-reap :
      (db : Db) (merchant_id : String) (candidate : Reservation)
      → (execute rt request env db).1 ≢ []
      → candidate.intent_id ≡ request.intent_id
      → reap rt merchant_id candidate (execute rt request env db).2
        ≡ ok (false, (execute rt request env db).2)
  unfolding reap execute
  execute-reap db merchant_id candidate called same =
      let ordered : HasOrder candidate.intent_id (execute rt request env db).2 =
        rw same (execute-HasOrder db called) in
      rw (reap, ordered) refl
