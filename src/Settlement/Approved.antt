-- ===== src/Settlement/Approved.antt =====
-- What an approval leaves of the spending of a mandate.
use razorpay_hackathon.Base.{ℕ, ◌≤◌, String, ◌≡◌, sym, ap, ◌∙◌, Bool, arith, ◌==◌}
use razorpay_hackathon.Shared.Text.{Bytes}
use razorpay_hackathon.Shared.Reason.{Verdict}
use razorpay_hackathon.Shared.Crypto.{Runtime, Date}
use razorpay_hackathon.Shared.Fault.{
  ok, >>=-Given, given, or_throw, unknown_challenge, unknown_mandate,
}
use razorpay_hackathon.Store.Rows.{LockedMandate, ReleaseReason, Challenge, Db}
use razorpay_hackathon.Store.Reads.{
  is_held, lock_mandate, find_challenge, counts, sum_of, sum_reserved_and_captured,
}
use razorpay_hackathon.Store.Writes.{update_where, headed_by, append_entry, update_chain_head}
use razorpay_hackathon.Authorization.Request.{Decision}
use razorpay_hackathon.Authorization.StepUp.{
  resolve, approve_locked, check_approval, verdict_of_approval,
}
use razorpay_hackathon.Authorization.Recorded.{append_entry_rows}
use razorpay_hackathon.Authorization.Budget.{sum_of-release}

module _ (rt : Runtime) where
  resolve-relaxes :
      (challenge_id : String) (approve : Bool) (now : Date) (decision_id : String) (c : Challenge)
      (verdict : Verdict) (db : Db) (id : String) (window : ℕ)
      → sum_of
          (counts id window db.now)
          (resolve rt challenge_id approve now decision_id c verdict db).reservations
        ≤ sum_of (counts id window db.now) db.reservations
  unfolding resolve
  resolve-relaxes challenge_id approve now decision_id c Verdict.allow db id window = omega arith
  resolve-relaxes challenge_id approve now decision_id c Verdict.deny db id window =
      sum_of-release id window db is_held c.intent_id ReleaseReason.step_up_abandoned
  resolve-relaxes challenge_id approve now decision_id c Verdict.step_up db id window =
      sum_of-release id window db is_held c.intent_id ReleaseReason.step_up_abandoned

  resolve-rows :
      (challenge_id : String) (approve : Bool) (now : Date) (decision_id : String) (c : Challenge)
      (verdict : Verdict) (db : Db)
      → ((resolve rt challenge_id approve now decision_id c verdict db).now ≡ db.now)
        × ((resolve rt challenge_id approve now decision_id c verdict db).mandates ≡ db.mandates)
  unfolding resolve
  resolve-rows challenge_id approve now decision_id c verdict db = ground arith

  -- An approval adds nothing to what is held or captured, and leaves the clock and the mandates but
  -- for the head of a chain.
  pub approve_locked-relaxes :
      (challenge_id : String) (approve : Bool) (now : Date) (decision_id : String) (seen db : Db)
      {d : Decision} {db' : Db}
      → approve_locked rt challenge_id approve now decision_id seen db ≡ ok (d, db')
      → (id : String) (window : ℕ)
      → (sum_reserved_and_captured db' id window ≤ sum_reserved_and_captured db id window)
        × (db'.now ≡ db.now)
        × (other : String) × (seq : ℕ) × (hash : Bytes) × (db'.mandates
            ≡ update_where
                (λ (x : LockedMandate). x.mandate_id == other)
                (headed_by seq hash)
                db.mandates)
  unfolding approve_locked
  approve_locked-relaxes challenge_id approve now decision_id seen db {db' = db'} e id window =
      elim (>>=-Given (or_throw (find_challenge seen challenge_id) (unknown_challenge challenge_id))
        _ e) [
          | given c ec e1 ↦
              elim (>>=-Given
                (or_throw (lock_mandate db c.mandate_id) (unknown_mandate c.mandate_id)) _ e1) [
                  | given m em e2 ↦
                      let verdict = verdict_of_approval (check_approval db c m now approve) in
                      elim (>>=-Given
                        (append_entry rt
                          (resolve rt challenge_id approve now decision_id c verdict db) _)
                        _ e2) [
                          | given written appended e3 ↦
                              let (own, kept, _) = append_entry_rows rt _ _ appended in
                              let store : update_chain_head written.1 m.mandate_id written.0.seq
                                    written.0.hash
                                  ≡ db' =
                                ground (arith, e3) in
                              let (time, mandates) =
                                resolve-rows challenge_id approve now decision_id c verdict db in
                              let less =
                                resolve-relaxes challenge_id approve now decision_id c verdict db id
                                  window in
                              let moved = ap (λ (s : Db). s.now) (sym store) ∙ own.now ∙ time in
                              let rows : db'.reservations
                                  ≡ (resolve rt challenge_id approve now decision_id c verdict
                                      db).reservations =
                                ap (λ (s : Db). s.reservations) (sym store) ∙ own.reservations in
                              (
                                rw (moved, rows) less,
                                moved,
                                m.mandate_id,
                                written.0.seq,
                                written.0.hash,
                                ap (λ (s : Db). s.mandates) (sym store)
                                    ∙ ap
                                        (update_where
                                          (λ (x : LockedMandate). x.mandate_id == m.mandate_id)
                                          (headed_by written.0.seq written.0.hash))
                                        (kept ∙ mandates),
                              )
                        ]
                ]
        ]
