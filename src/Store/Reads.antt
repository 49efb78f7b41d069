-- ===== src/Store/Reads.antt =====
-- The queries of authorization.repository.ts, identity.repository.ts, quote.repository.ts,
-- executor.repository.ts and mandate.repository.ts.
use razorpay_hackathon.Base.{
  ℕ, ◌+◌, String, Bool, true, false, ◌&&◌, Option, none, some, List, [], ◌∷◌, map, ltb, ◌==◌,
  if◌then◌else◌, find, select, any, length,
}
use razorpay_hackathon.Shared.Money.{Paise}
use razorpay_hackathon.Store.Rows.{
  LockedMandate, AgentIdentity, VerificationKey, QuoteRow, Reservation, ReservationState, Challenge,
  OrderRow, Db,
}

-- The primary key gives one row at most, and the lock adds nothing to what is read.
abbrev pub lock_mandate : Db → String → Option LockedMandate
lock_mandate db mandate_id = find (λ m. m.mandate_id == mandate_id) db.mandates

abbrev pub find_agent : Db → String → Option AgentIdentity
find_agent db agent_id = find (λ a. a.agent_id == agent_id) db.agents

abbrev pub is_agent_registered : Db → String → Bool
is_agent_registered db agent_id = any (λ (a : AgentIdentity). a.agent_id == agent_id) db.agents

abbrev pub find_verification_key : Db → String → Option VerificationKey
find_verification_key db kid = find (λ k. k.kid == kid) db.keys

abbrev pub find_quote : Db → String → Option QuoteRow
find_quote db quote_id = find (λ q. q.quote_id == quote_id) db.quotes

-- state IN ('held', 'captured')
abbrev pub is_counted : ReservationState → Bool
is_counted ReservationState.released = false
is_counted _ = true

abbrev pub is_held : ReservationState → Bool
is_held ReservationState.held = true
is_held _ = false

abbrev pub is_captured : ReservationState → Bool
is_captured ReservationState.captured = true
is_captured _ = false

-- A reservation of the mandate that is counted, created less than `window` before `now`.
abbrev pub counts : String → ℕ → ℕ → Reservation → Bool
counts mandate_id window now r =
    r.mandate_id == mandate_id && (is_counted r.state && ltb now (r.created_at + window))

abbrev pub sum_of : (Reservation → Bool) → List Reservation → Paise
sum_of p [] = 0
sum_of p (r ∷ rs) = (if p r then r.amount_paise else 0) + sum_of p rs

abbrev pub sum_reserved_and_captured : Db → String → ℕ → Paise
sum_reserved_and_captured db mandate_id window =
    sum_of (counts mandate_id window db.now) db.reservations

abbrev pub hour : ℕ
hour = 3600000

abbrev pub count_reservations_last_hour : Db → String → ℕ
count_reservations_last_hour db mandate_id =
    length (select (counts mandate_id hour db.now) db.reservations)

abbrev pub has_captured_at_merchant : Db → String → String → Bool
has_captured_at_merchant db mandate_id merchant_id =
    any (λ r. r.mandate_id == mandate_id && (r.merchant_id == merchant_id && is_captured r.state))
      db.reservations

abbrev pub find_challenge : Db → String → Option Challenge
find_challenge db challenge_id = find (λ c. c.challenge_id == challenge_id) db.challenges

abbrev pub find_reservation : Db → String → Option Reservation
find_reservation db intent_id = find (λ r. r.intent_id == intent_id) db.reservations

abbrev pub reservation_state : Db → String → Option ReservationState
reservation_state db intent_id = elim (find_reservation db intent_id) [
  | none ↦ none
  | some r ↦ some r.state
]

-- `orders.findByIntent` of executor.repository.ts.
abbrev pub find_by_intent : Db → String → Option OrderRow
find_by_intent db intent_id = find (λ o. o.intent_id == intent_id) db.orders

abbrev pub find_by_order_id : Db → String → Option OrderRow
find_by_order_id db order_id = elim (find (λ (o : OrderRow). o.order_id == order_id) db.orders) [
  | none ↦ none
  | some o ↦ find_by_intent db o.intent_id
]

-- `findOrderByRailId` of reconciler.repository.ts.
abbrev pub has_rail_id : String → OrderRow → Bool
has_rail_id rail_order_id o = elim o.rail_order_id [ none ↦ false | some id ↦ id == rail_order_id ]

abbrev pub find_order_by_rail_id : Db → String → Option OrderRow
find_order_by_rail_id db rail_order_id = find (has_rail_id rail_order_id) db.orders

-- `heldReservations` of mandate.repository.ts.
abbrev pub held_reservations : Db → String → List String
held_reservations db mandate_id =
    map (λ (r : Reservation). r.reservation_id)
      (select (λ r. r.mandate_id == mandate_id && is_held r.state) db.reservations)
