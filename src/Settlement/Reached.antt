-- ===== src/Settlement/Reached.antt =====
-- Every store that the transactions reach, seen as an abstract budget.
use razorpay_hackathon.Base.{
  ℕ, ◌≤◌, String, ◌≡◌, sym, ap, ◌∙◌, inl, inr, Option, arith, if◌then◌else◌, Bool-cases,
  Option-cases,
}
use razorpay_hackathon.Shared.Money.{Paise}
use razorpay_hackathon.Shared.Crypto.{Runtime}
use razorpay_hackathon.Shared.Fault.{ok, >>=-Given, given}
use razorpay_hackathon.Policy.Engine.{is_revoked}
use razorpay_hackathon.Store.Rows.{LockedMandate, Db}
use razorpay_hackathon.Store.Reads.{lock_mandate, sum_reserved_and_captured}
use razorpay_hackathon.Store.Writes.{mark_revoked, append_entry, update_chain_head}
use razorpay_hackathon.Authorization.Recorded.{append_entry_rows}
use razorpay_hackathon.Authorization.Budget.{
  Move, relax, Move-le, HasLimits, HasLimits-headed, HasLimits-revoked, sum_of-later,
  sum_of-release, sum_of-capture,
}
use razorpay_hackathon.Settlement.Settled.{Settled, left, released, captured}
use razorpay_hackathon.Settlement.Effects.{
  apply_event-Settled, expire_challenge-Settled, reap-Settled, resolve_order-Settled,
  compensate-Settled,
}
use razorpay_hackathon.Settlement.Charged.{record_body-Settled}
use razorpay_hackathon.Settlement.Revocation.{
  RevocationResult, RevokeMandateInput, revoke_locked, revoke,
}
use razorpay_hackathon.Settlement.Spending.{run_locked-rows, run_locked-Move}
use razorpay_hackathon.Settlement.Approved.{approve_locked-relaxes}
use razorpay_hackathon.Settlement.Steps.{
  Step, Steps, runs, approves, revokes, records, applies, expires, reaps, resolves, compensates,
  captures, releases, elapses, elsewhere, stay, after,
}

module _ (rt : Runtime) where
  module _ (id : String) (window : ℕ) (limit : Paise) where
    abbrev spent : Db → Paise
    spent db = sum_reserved_and_captured db id window

    unmoved :
        (db db' : Db)
        → db'.now ≡ db.now
        → db'.reservations ≡ db.reservations
        → Move limit (spent db) (spent db')
    unmoved db db' time rows = relax _ _ (rw (time, rows) (omega arith))

    revoke_locked-Move :
        (decision_id : String) (input : RevokeMandateInput) (m : LockedMandate) (db : Db)
        {answer : Option RevocationResult} {db' : Db}
        → revoke_locked rt decision_id input m db ≡ ok (answer, db')
        → HasLimits id window limit db.mandates
        → Move limit (spent db) (spent db') × HasLimits id window limit db'.mandates
    unfolding revoke_locked
    revoke_locked-Move decision_id input m db {db' = db'} e has =
        elim (Bool-cases (is_revoked m.state)) [
          | inl gone ↦
              let same : db ≡ db' = ground (arith, rw (gone, if◌then◌else◌) at e) in
              (
                unmoved db db' (ap (λ (s : Db). s.now) (sym same))
                    (ap (λ (s : Db). s.reservations) (sym same)),
                rw⁻¹ same has,
              )
          | inr live ↦
              elim (>>=-Given (append_entry rt (mark_revoked db m.mandate_id) _) _
                (rw (live, if◌then◌else◌) at e)) [
                  | given written appended e1 ↦
                      let (own, kept, _) = append_entry_rows rt _ _ appended in
                      let store : update_chain_head written.1 m.mandate_id written.0.seq
                            written.0.hash
                          ≡ db' =
                        ground (arith, e1) in
                      (
                        unmoved db db' (ap (λ (s : Db). s.now) (sym store) ∙ own.now)
                            (ap (λ (s : Db). s.reservations) (sym store) ∙ own.reservations),
                        rw⁻¹ store (
                            HasLimits-headed id m.mandate_id written.0.seq written.0.hash window
                              limit written.1.mandates
                              (rw kept (HasLimits-revoked id window limit db m.mandate_id has))),
                      )
                ]
        ]

    revoke-Move :
        (decision_id : String) (input : RevokeMandateInput) (db : Db)
        {answer : Option RevocationResult} {db' : Db}
        → revoke rt decision_id input db ≡ ok (answer, db')
        → HasLimits id window limit db.mandates
        → Move limit (spent db) (spent db') × HasLimits id window limit db'.mandates
    unfolding revoke
    revoke-Move decision_id input db {db' = db'} e has =
        elim (Option-cases (lock_mandate db input.mandate_id)) [
          | inl unknown ↦
              let same : db ≡ db' = ground (arith, rw (unknown, revoke) at e) in
              (
                unmoved db db' (ap (λ (s : Db). s.now) (sym same))
                    (ap (λ (s : Db). s.reservations) (sym same)),
                rw⁻¹ same has,
              )
          | inr (m, found) ↦ revoke_locked-Move decision_id input m db (rw (found, revoke) at e) has
        ]

    Settled-Move :
        (db db' : Db)
        → Settled db db'
        → HasLimits id window limit db.mandates
        → Move limit (spent db) (spent db') × HasLimits id window limit db'.mandates
    Settled-Move db db' s has = (
      elim s.rows [
        | left e ↦ unmoved db db' s.now e
        | released p intent_id reason e ↦
            relax _ _ (rw (s.now, e) (sum_of-release id window db p intent_id reason))
        | captured intent_id e ↦ relax _ _ (rw (s.now, e) (sum_of-capture id window db intent_id))
      ],
      rw s.mandates has,
    )

    -- From a store that holds a mandate with these limits, each of these transactions makes one move
    -- of the abstract budget, in the sum of what is held or captured in the window: an authorisation
    -- under the lock, an approval, a revocation, the executor's record of a call, a webhook's event,
    -- the expiry of a challenge, the reaping of a reservation, the resolution of an order and the
    -- compensation of one, and likewise a capture, a release, time that passes and whatever leaves
    -- the clock, the reservations and the mandates. It reserves an amount that the limit has room for,
    -- or adds nothing, and the store still holds the mandate with its limits. The stateless checks of
    -- the authorisation passed, or failed with a code that denies.
    pub Step-Move :
        {db db' : Db}
        → Step rt db db'
        → HasLimits id window limit db.mandates
        → Move limit
            (sum_reserved_and_captured db id window)
            (sum_reserved_and_captured db' id window)
          × HasLimits id window limit db'.mandates
    Step-Move {db' = db'} (runs ttl request failure verifier now ids db {m = m} denies found e)
          has =
        let (_, seq, hash, mandates) =
          run_locked-rows rt ttl request failure verifier now ids db denies found e in
        (
          run_locked-Move rt ttl request failure verifier now ids db denies found e id window limit
              has,
          rw mandates (HasLimits-headed id m.mandate_id seq hash window limit db.mandates has),
        )
    Step-Move (approves challenge_id approve now decision_id seen db e) has =
        let (less, _, other, seq, hash, mandates) =
          approve_locked-relaxes rt challenge_id approve now decision_id seen db e id window in
        (
          relax _ _ less,
          rw mandates (HasLimits-headed id other seq hash window limit db.mandates has),
        )
    Step-Move (revokes decision_id input db e) has = revoke-Move decision_id input db e has
    Step-Move (records request env order_id state rail_order_id db {db' = last} e) has =
        Settled-Move db last (record_body-Settled rt request env order_id state rail_order_id db e)
          has
    Step-Move (applies merchant_id key type payment fetched db {db' = last} e) has =
        Settled-Move db last (apply_event-Settled rt merchant_id key type payment fetched db e) has
    Step-Move (expires merchant_id challenge db {db' = last} e) has =
        Settled-Move db last (expire_challenge-Settled rt merchant_id challenge db e) has
    Step-Move (reaps merchant_id candidate db {db' = last} e) has =
        Settled-Move db last (reap-Settled rt merchant_id candidate db e) has
    Step-Move (resolves merchant_id now order read db {db' = last} e) has =
        Settled-Move db last (resolve_order-Settled rt merchant_id now order read db e) has
    Step-Move (compensates merchant_id order refund_id refund_state db {db' = last} e) has =
        Settled-Move db last (compensate-Settled rt merchant_id order refund_id refund_state db e)
          has
    Step-Move (captures intent_id db) has = (relax _ _ (sum_of-capture id window db intent_id), has)
    Step-Move (releases p intent_id reason db) has =
        (relax _ _ (sum_of-release id window db p intent_id reason), has)
    Step-Move (elapses later db h) has =
        (relax _ _ (sum_of-later id window db.now later db.reservations h), has)
    Step-Move (elsewhere db db' time rows mandates) has =
        (unmoved db db' time rows, rw mandates has)

    -- Over every sequence of authorisations under the lock, approvals, revocations, the executor's
    -- records, webhook events, expiries, reapings, resolutions, compensations, captures and releases, in
    -- whatever order they commit, with time that passes and with anything that leaves the clock, the
    -- reservations and the mandates: from a store that holds a mandate with these limits, in which what
    -- is held or captured in the window is within the cumulative limit, what is held or captured stays
    -- within the limit. The stateless checks of each authorisation passed, or failed with a code that
    -- denies.
    pub Steps-within_limit :
        {db db' : Db}
        → Steps rt db db'
        → HasLimits id window limit db.mandates
        → sum_reserved_and_captured db id window ≤ limit
        → sum_reserved_and_captured db' id window ≤ limit
    Steps-within_limit (stay db) has h = h
    Steps-within_limit (after step steps) has h =
        let (move, has') = Step-Move step has in Steps-within_limit steps has' (Move-le move h)
