-- ===== src/Store/Writes.antt =====
-- The statements that write: authorization.repository.ts, quote.repository.ts, mandate.repository.ts,
-- executor.repository.ts and reconciler.repository.ts. An insert that would repeat a unique key throws.
use razorpay_hackathon.Base.{
  ℕ, String, Bool, true, false, ◌&&◌, ◌||◌, Option, none, some, List, [], ◌∷◌, ◌++◌, ◌==◌,
  if◌then◌else◌, any, is_none,
}
use razorpay_hackathon.Shared.Text.{Bytes}
use razorpay_hackathon.Shared.Fault.{Result, ok, err, unique_violation, ◌>>=◌}
use razorpay_hackathon.Shared.Crypto.{Runtime}
use razorpay_hackathon.Policy.Facts.{MandateState}
use razorpay_hackathon.Ledger.Entry.{StoredEntry, LedgerAppend, append}
use razorpay_hackathon.Store.Rows.{
  LockedMandate, QuoteRow, NonceRow, Reservation, ReservationState, ReleaseReason, Challenge,
  ChallengeState, OrderRow, OrderState, RefundRow, RefundState, Db,
}
use razorpay_hackathon.Store.Reads.{is_counted, is_held}

-- UPDATE … WHERE
abbrev pub update_where {ℓ} : {A : Type ℓ} → (A → Bool) → (A → A) → List A → List A
update_where p f [] = []
update_where p f (x ∷ xs) = (if p x then f x else x) ∷ update_where p f xs

-- The savepoint keeps a duplicate from aborting the transaction.
abbrev pub burn_nonce : Db → NonceRow → Bool × Db
burn_nonce db row =
    if any (λ (n : NonceRow). n.nonce == row.nonce) db.nonces
    then (false, db)
    else (true, record db { nonces = db.nonces ++ row ∷ [] })

abbrev pub is_open_quote : String → QuoteRow → Bool
is_open_quote quote_id q = q.quote_id == quote_id && is_none q.consumed_at

-- `quotes.consume`; the primary key gives one row at most.
abbrev pub consume_quote : Db → String → String → Bool × Db
consume_quote db quote_id intent_id = (
  any (is_open_quote quote_id) db.quotes,
  record db {
    quotes =
        update_where (is_open_quote quote_id)
          (λ q. record q { consumed_at = some db.now; consumed_by = some intent_id }) db.quotes;
  },
)

abbrev pub insert_reservation : Db → Reservation → Result Db
insert_reservation db row =
    if any
      (λ (r : Reservation). r.reservation_id == row.reservation_id || r.intent_id == row.intent_id)
      db.reservations
    then err (unique_violation "reservations")
    else ok (record db { reservations = db.reservations ++ row ∷ [] })

abbrev pub insert_challenge : Db → Challenge → Result Db
insert_challenge db row =
    if any (λ (c : Challenge). c.challenge_id == row.challenge_id || c.intent_id == row.intent_id)
      db.challenges
    then err (unique_violation "challenges")
    else ok (record db { challenges = db.challenges ++ row ∷ [] })

abbrev pub is_pending : ChallengeState → Bool
is_pending ChallengeState.pending = true
is_pending _ = false

abbrev pub resolve_challenge : Db → String → ChallengeState → Db
resolve_challenge db challenge_id state = record db {
  challenges =
      update_where (λ c. c.challenge_id == challenge_id && is_pending c.state)
        (λ c. record c { state = state }) db.challenges;
}

abbrev pub headed_by : ℕ → Bytes → LockedMandate → LockedMandate
headed_by seq hash m = record m { chain_head_seq = some seq; chain_head_hash = some hash }

abbrev pub update_chain_head : Db → String → ℕ → Bytes → Db
update_chain_head db mandate_id seq hash = record db {
  mandates = update_where (λ m. m.mandate_id == mandate_id) (headed_by seq hash) db.mandates;
}

-- Release of the reservations of an intent in the states that `p` names.
abbrev pub release_where : Db → (ReservationState → Bool) → String → ReleaseReason → Db
release_where db p intent_id reason = record db {
  reservations =
      update_where (λ r. r.intent_id == intent_id && p r.state)
        (λ r. record r {
          state = ReservationState.released;
          resolved_at = some db.now;
          release_reason = some reason;
        })
        db.reservations;
}

abbrev pub any_reservation : Db → (ReservationState → Bool) → String → Bool
any_reservation db p intent_id =
    any (λ (r : Reservation). r.intent_id == intent_id && p r.state) db.reservations

-- `releaseReservation` of reconciler.service.ts: was a reservation released?
abbrev pub release_reservation : Db → String → ReleaseReason → Bool × Db
release_reservation db intent_id reason =
    (any_reservation db is_counted intent_id, release_where db is_counted intent_id reason)

-- `captureReservation` of reconciler.repository.ts.
abbrev pub capture_reservation : Db → String → Db
capture_reservation db intent_id = record db {
  reservations =
      update_where (λ r. r.intent_id == intent_id && is_held r.state)
        (λ r. record r { state = ReservationState.captured; resolved_at = some db.now })
        db.reservations;
}

abbrev pub mark_revoked : Db → String → Db
mark_revoked db mandate_id = record db {
  mandates =
      update_where (λ m. m.mandate_id == mandate_id)
        (λ m. record m { state = MandateState.revoked; revoked_at = some db.now }) db.mandates;
}

abbrev pub insert_order : Db → OrderRow → Result Db
insert_order db row =
    if any (λ (o : OrderRow). o.order_id == row.order_id || o.intent_id == row.intent_id) db.orders
    then err (unique_violation "orders")
    else ok (record db { orders = db.orders ++ row ∷ [] })

-- COALESCE(new, old)
abbrev pub coalesce {ℓ} : {A : Type ℓ} → Option A → Option A → Option A
coalesce none old = old
coalesce (some a) old = some a

abbrev pub set_order_state : Db → String → OrderState → Option String → Option String → Db
set_order_state db order_id state rail_order_id rail_payment_id = record db {
  orders =
      update_where (λ o. o.order_id == order_id)
        (λ o. record o {
          state = state;
          rail_order_id = coalesce rail_order_id o.rail_order_id;
          rail_payment_id = coalesce rail_payment_id o.rail_payment_id;
        })
        db.orders;
}

abbrev pub insert_refund : Db → RefundRow → Result Db
insert_refund db row =
    if any (λ (r : RefundRow). r.refund_id == row.refund_id) db.refunds
    then err (unique_violation "refunds")
    else ok (record db { refunds = db.refunds ++ row ∷ [] })

abbrev pub set_refund_state : Db → String → RefundState → Option String → Db
set_refund_state db refund_id state rail_refund_id = record db {
  refunds =
      update_where (λ r. r.refund_id == refund_id)
        (λ r. record r { state = state; rail_refund_id = coalesce rail_refund_id r.rail_refund_id })
        db.refunds;
}

-- `claimEvent`: false for a provider event that was claimed before.
abbrev pub claim_event : Db → String → Bool × Db
claim_event db provider_event_id =
    if any (λ (id : String). id == provider_event_id) db.webhook_events
    then (false, db)
    else (true, record db { webhook_events = db.webhook_events ++ provider_event_id ∷ [] })

-- An entry appended to the ledger table of the store.
unfoldable pub append_entry : Runtime → Db → LedgerAppend → Result (StoredEntry × Db)
append_entry rt db entry = do
  written ← append rt db.ledger entry
  ok (written.0, record db { ledger = written.1 })
