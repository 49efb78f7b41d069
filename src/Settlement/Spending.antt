-- ===== src/Settlement/Spending.antt =====
-- What an authorisation adds to the spending of a mandate.
use mathlib.Core.Path.{subst}
use razorpay_hackathon.Base.{
  ◌+◌, true, ◌≤◌, ◌≢◌, ==_refl, ==_ne, ltb_iff, ℕ, String, ◌≡◌, refl, sym, ap, ◌∙◌, inl, inr, Bool,
  Option, some, arith, any, ◌==◌, ==_iff, if◌then◌else◌, Bool-cases, Option-cases,
}
use razorpay_hackathon.Shared.Text.{Bytes}
use razorpay_hackathon.Shared.Reason.{Verdict, ReasonCode, verdict_for_reason}
use razorpay_hackathon.Shared.Money.{Paise}
use razorpay_hackathon.Shared.Crypto.{Runtime, Date}
use razorpay_hackathon.Shared.Fault.{ok, >>=-Given, given}
use razorpay_hackathon.Policy.Facts.{VerifierOutcome, PolicyOutcome}
use razorpay_hackathon.Policy.Permission.{is_deny-cases}
use razorpay_hackathon.Ledger.Entry.{StoredEntry}
use razorpay_hackathon.Store.Rows.{LockedMandate, NonceRow, Reservation, Db}
use razorpay_hackathon.Store.Reads.{lock_mandate, counts, sum_of, sum_reserved_and_captured}
use razorpay_hackathon.Store.Writes.{update_where, headed_by, append_entry}
use razorpay_hackathon.Authorization.Request.{FreshIds, AuthorizationRequest, Decision}
use razorpay_hackathon.Authorization.Locked.{run_locked}
use razorpay_hackathon.Authorization.Entries.{record_decision}
use razorpay_hackathon.Authorization.Cap.{sum_of-append}
use razorpay_hackathon.Authorization.Run.{burn, outcome_of}
use razorpay_hackathon.Authorization.Recorded.{append_entry_rows}
use razorpay_hackathon.Authorization.Reserved.{hold, reserve_denied, challenge_rows}
use razorpay_hackathon.Authorization.Safety.{
  the_run, named_mandate, run_locked-IsKept, run_locked-IsHeld, reservations_held, limits_before,
}
use razorpay_hackathon.Authorization.Chained.{run_locked_denied}
use razorpay_hackathon.Authorization.Budget.{Move, reserve, relax, HasLimits}

module _ (rt : Runtime) (ttl : ℕ) (request : AuthorizationRequest) (failure : Option ReasonCode)
    (verifier : VerifierOutcome) (now : Date) (ids : FreshIds) where
  record_decision-mandates :
      (m : LockedMandate) (outcome : PolicyOutcome) (id : Option String) (db : Db)
      {done : StoredEntry × StoredEntry × Db}
      → record_decision rt ttl request failure verifier now ids m outcome id db ≡ ok done
      → done.2.mandates ≡ db.mandates
  unfolding record_decision
  record_decision-mandates m outcome id db {done = done} e =
      elim (>>=-Given (append_entry rt db _) _ e) [
        | given opened opens e1 ↦ elim (>>=-Given (append_entry rt opened.1 _) _ e1) [
          | given decided decides e2 ↦
              let first = (append_entry_rows rt db _ opens).1 in
              let second = (append_entry_rows rt opened.1 _ decides).1 in
              elim (Option-cases id) [
                | inl none_held ↦ ground (arith, first, second, rw none_held at e2)
                | inr (held, some_held) ↦
                    elim (>>=-Given (append_entry rt decided.1 _) _ (rw some_held at e2)) [
                      | given reserved reserves e3 ↦
                          let third = (append_entry_rows rt decided.1 _ reserves).1 in
                          ground (arith, first, second, third, e3)
                    ]
              ]
        ]
      ]

  burn-rows :
      (db : Db)
      → ((burn rt ttl request failure verifier now ids db).1.now ≡ db.now)
        × ((burn rt ttl request failure verifier now ids db).1.mandates ≡ db.mandates)
  burn-rows db =
      elim (Bool-cases
        (any (λ (n : NonceRow). n.nonce == request.signed_intent.intent.nonce) db.nonces)) [
          | inl spent ↦ rw (spent, if◌then◌else◌) (refl, refl)
          | inr unspent ↦ rw (unspent, if◌then◌else◌) (refl, refl)
        ]

  module _ (db : Db) {m : LockedMandate} {d : Decision} {db' : Db}
      (denies : (code : ReasonCode) → failure ≡ some code → verdict_for_reason code ≡ Verdict.deny)
      (found : lock_mandate db request.signed_intent.intent.mandate_id ≡ some m)
      (done : run_locked rt ttl request failure verifier now ids db ≡ ok (d, db')) where
    reserved-rows :
        ((the_run rt ttl request failure verifier now ids db denies found done).reserved.1.now
          ≡ db.now)
        × ((the_run rt ttl request failure verifier now ids db denies found
              done).reserved.1.mandates
            ≡ db.mandates)
    reserved-rows =
        let run = the_run rt ttl request failure verifier now ids db denies found done in
        let (burnt_now, burnt_mandates) = burn-rows db in
        elim (is_deny-cases d.verdict) [
          | inl denied ↦
              let same = sym run.verdict ∙ denied in
              let (none_held, e) =
                reserve_denied rt ttl request failure verifier now ids m
                  (burn rt ttl request failure verifier now ids db).1
                  (rw same at run.was_reserved) in
              (ap (λ (s : Db). s.now) e ∙ burnt_now, ap (λ (s : Db). s.mandates) e ∙ burnt_mandates)
          | inr other ↦
              let held =
                run_locked-IsHeld rt ttl request failure verifier now ids db denies found done
                  other in
              (held.time ∙ burnt_now, held.mandates ∙ burnt_mandates)
        ]

    -- A run leaves the clock and the mandates of the store, but for the head of a chain.
    pub run_locked-rows :
        (db'.now ≡ db.now)
        × (seq : ℕ) × (hash : Bytes) × (db'.mandates
            ≡ update_where
                (λ (x : LockedMandate). x.mandate_id == m.mandate_id)
                (headed_by seq hash)
                db.mandates)
    run_locked-rows =
        let run = the_run rt ttl request failure verifier now ids db denies found done in
        let kept = run_locked-IsKept rt ttl request failure verifier now ids db denies found done in
        let outcome = outcome_of rt ttl request failure verifier now ids m db in
        let (time, mandates) = reserved-rows in
        let c =
          challenge_rows rt ttl request failure verifier now ids m outcome.verdict run.reserved.1
            run.was_challenged in
        let recorded =
          record_decision-mandates m outcome run.reserved.0 run.challenged.1 run.was_recorded in
        (
          kept.time ∙ time,
          run.recorded.1.seq,
          run.recorded.1.hash,
          ap (λ (s : Db). s.mandates) run.store
              ∙ ap
                  (update_where (λ (x : LockedMandate). x.mandate_id == m.mandate_id)
                    (headed_by run.recorded.1.seq run.recorded.1.hash))
                  (recorded ∙ c.mandates ∙ mandates),
        )

    -- A run makes one move of the budget of every mandate with these limits.
    pub run_locked-Move :
        (id : String) (window : ℕ) (limit : Paise)
        → HasLimits id window limit db.mandates
        → Move limit
            (sum_reserved_and_captured db id window)
            (sum_reserved_and_captured db' id window)
    run_locked-Move id window limit has =
        let (time, _, _, _) = run_locked-rows in
        elim (is_deny-cases d.verdict) [
          | inl denied ↦
              let (same, _, _, _) =
                run_locked_denied rt ttl request failure verifier now ids db denies found done
                  denied in
              relax _ _ (rw (time, same) (omega arith))
          | inr other ↦
              let added =
                reservations_held rt ttl request failure verifier now ids db denies found done
                  other in
              let r = hold rt ttl request failure verifier now ids m d.verdict db.now in
              let p : Reservation → Bool = counts id window db.now in
              let total = sum_of-append p db.reservations r in
              let (room, _, _) =
                limits_before rt ttl request failure verifier now ids db denies found done other in
              rw (added, time)
                (rw total (elim (Bool-cases (p r)) [
                  | inl counted ↦
                      let own : m.mandate_id ≡ id =
                        (==_iff m.mandate_id id).0 (ground (arith, counted)) in
                      let key =
                        sym (
                          named_mandate rt ttl request failure verifier now ids db denies found
                            done)
                        ∙ own in
                      let found' : lock_mandate db id ≡ some m =
                        subst (λ k. lock_mandate db k ≡ some m) key found in
                      let same : m ≡ has.mandate = ground (arith, found', has.known) in
                      let wide : m.cumulative_window ≡ window =
                        ap (λ (x : LockedMandate). x.cumulative_window) same ∙ has.window_is in
                      let high : m.cumulative_paise ≡ limit =
                        ap (λ (x : LockedMandate). x.cumulative_paise) same ∙ has.limit_is in
                      rw counted (
                        reserve (sum_of p db.reservations) r.amount_paise
                          (rw (own, wide, high) at room))
                  | inr apart ↦ rw apart (relax _ _ (omega arith))
                ]))
        ]

    -- A run that does not deny, against a mandate with a window, adds exactly the amount of the intent
    -- to what is held or captured of that mandate in the window, and nothing to what is of another
    -- mandate, in whatever window. The stateless checks passed, or failed with a code that denies.
    pub run_locked-spends :
        d.verdict ≢ Verdict.deny
        → 1 ≤ m.cumulative_window
        → (sum_reserved_and_captured db' m.mandate_id m.cumulative_window
            ≡ sum_reserved_and_captured db m.mandate_id m.cumulative_window
              + request.signed_intent.intent.amount_paise)
          × ((id : String) (window : ℕ)
              → m.mandate_id ≢ id
              → sum_reserved_and_captured db' id window ≡ sum_reserved_and_captured db id window)
    run_locked-spends other wide =
        let (time, _, _, _) = run_locked-rows in
        let added =
          reservations_held rt ttl request failure verifier now ids db denies found done other in
        let r = hold rt ttl request failure verifier now ids m d.verdict db.now in
        let own_total =
          sum_of-append (counts m.mandate_id m.cumulative_window db.now) db.reservations r in
        let counted : counts m.mandate_id m.cumulative_window db.now r ≡ true =
          rw (==_refl m.mandate_id)
            ((ltb_iff db.now (db.now + m.cumulative_window)).1 (omega (arith, wide))) in
        (
          rw (added, time) (rw own_total (rw counted refl)),
          λ id window apart.
              rw (added, time)
                (rw (sum_of-append (counts id window db.now) db.reservations r)
                  (rw (==_ne m.mandate_id id apart) (omega arith))),
        )
