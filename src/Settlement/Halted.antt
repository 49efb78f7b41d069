-- ===== src/Settlement/Halted.antt =====
-- A revocation stops every later authorisation.
use razorpay_hackathon.Base.{
  find_holds, ℕ, String, ◌≡◌, refl, inl, inr, Bool, true, Option, some, arith, ◌==◌, ==_iff,
  Bool-cases, Option-cases,
}
use razorpay_hackathon.Shared.Reason.{Verdict, ReasonCode, verdict_for_reason}
use razorpay_hackathon.Shared.Crypto.{Runtime, Date}
use razorpay_hackathon.Shared.Fault.{ok, >>=-eq-ok}
use razorpay_hackathon.Policy.Facts.{VerifierOutcome, MandateState}
use razorpay_hackathon.Policy.Engine.{is_revoked}
use razorpay_hackathon.Policy.Permission.{is_deny-cases}
use razorpay_hackathon.Ledger.Entry.{StoredEntry, LedgerAppend}
use razorpay_hackathon.Store.Rows.{LockedMandate, Db}
use razorpay_hackathon.Store.Reads.{lock_mandate}
use razorpay_hackathon.Store.Writes.{headed_by, mark_revoked, update_chain_head, append_entry}
use razorpay_hackathon.Store.Updated.{find-update_where}
use razorpay_hackathon.Authorization.Request.{FreshIds, AuthorizationRequest, Decision}
use razorpay_hackathon.Authorization.Locked.{run_locked, locked_facts}
use razorpay_hackathon.Authorization.Safety.{facts-IsAdmissible}
use razorpay_hackathon.Settlement.Revocation.{
  RevokeMandateInput, RevocationResult, revoke, revoke_locked,
}

module _ (rt : Runtime) where
  append_entry-mandates :
      (db : Db) (entry : LedgerAppend) {row : StoredEntry} {db' : Db}
      → append_entry rt db entry ≡ ok (row, db')
      → db'.mandates ≡ db.mandates
  unfolding append_entry
  append_entry-mandates db entry e = ground arith

abbrev revoked_from : Date → LockedMandate → LockedMandate
revoked_from now m = record m { state = MandateState.revoked; revoked_at = some now }

module _ (rt : Runtime) (decision_id : String) (input : RevokeMandateInput) (db : Db) where
  abbrev names : LockedMandate → Bool
  names m = m.mandate_id == input.mandate_id

  revoke-lock_mandate :
      {result : RevocationResult} {db' : Db}
      → revoke rt decision_id input db ≡ ok (some result, db')
      → (m : LockedMandate) × (lock_mandate db' input.mandate_id ≡ some m)
        × (m.state ≡ MandateState.revoked)
  unfolding revoke revoke_locked
  revoke-lock_mandate {result = result} {db' = db'} e =
      elim (Option-cases (lock_mandate db input.mandate_id)) [
        | inl unknown ↦ ground arith
        | inr (m, found) ↦ elim (Bool-cases (is_revoked m.state)) [
          | inl already ↦ let same : db' ≡ db = ground arith in (m, rw same found, ground arith)
          | inr current ↦
              let locked : revoke_locked rt decision_id input m db ≡ ok (some result, db') =
                rw (found, revoke) at e in
              let (written, ew, rest) =
                >>=-eq-ok (append_entry rt (mark_revoked db m.mandate_id) _) _
                  (rw current at locked) in
              let own : m.mandate_id ≡ input.mandate_id =
                (==_iff m.mandate_id input.mandate_id).0 (find_holds names db.mandates m found) in
              let named : (y : LockedMandate)
                  → names y ≡ true
                  → (y.mandate_id == m.mandate_id) ≡ true =
                λ y h. rw own h in
              let own_row : LockedMandate → Bool = λ y. y.mandate_id == m.mandate_id in
              let marked =
                find-update_where names own_row (revoked_from db.now) db.mandates {x = m}
                  (λ y. refl) named found in
              let mandates = append_entry-mandates rt _ _ ew in
              let store : db'
                  ≡ update_chain_head written.1 m.mandate_id written.0.seq written.0.hash =
                ground (arith, rest) in
              let headed =
                find-update_where names own_row (headed_by written.0.seq written.0.hash)
                  written.1.mandates {x = revoked_from db.now m} (λ y. refl) named
                  (rw mandates marked) in
              (
                headed_by written.0.seq written.0.hash (revoked_from db.now m),
                rw store headed,
                refl,
              )
        ]
      ]

  -- Once a revocation succeeded, whether it was the first or not, every later run under the
  -- lock that succeeds against the mandate on the store it left is denied, if its stateless
  -- failure is none but one that denies.
  pub revoke-denies :
      {result : RevocationResult} {revoked : Db}
      → revoke rt decision_id input db ≡ ok (some result, revoked)
      → (ttl : ℕ) (request : AuthorizationRequest) (failure : Option ReasonCode)
        (verifier : VerifierOutcome) (now : Date) (ids : FreshIds) {d : Decision} {db' : Db}
      → ((code : ReasonCode) → failure ≡ some code → verdict_for_reason code ≡ Verdict.deny)
      → request.signed_intent.intent.mandate_id ≡ input.mandate_id
      → run_locked rt ttl request failure verifier now ids revoked ≡ ok (d, db')
      → d.verdict ≡ Verdict.deny
  unfolding locked_facts
  revoke-denies {revoked = revoked} e ttl request failure verifier now ids {d = d} denies same
        done =
      let (m, found, dead) = revoke-lock_mandate e in
      let found' : lock_mandate revoked request.signed_intent.intent.mandate_id ≡ some m =
        rw same found in
      elim (is_deny-cases d.verdict) [
        | inl denied ↦ denied
        | inr other ↦
            let a =
              facts-IsAdmissible rt ttl request failure verifier now ids revoked denies found' done
                other in
            ground (arith, a, dead)
      ]
