-- ===== src/Settlement/Revocation.antt =====
-- modules/mandate/mandate.service.ts: `revoke`, which takes the lock that an authorisation takes. Holds
-- that stand are reported, not cancelled.
use razorpay_hackathon.Base.{
  ℕ, String, Bool, true, false, Option, none, some, List, [], if◌then◌else◌,
}
use razorpay_hackathon.Shared.Json.{object, member, end, text, array, texts}
use razorpay_hackathon.Shared.Crypto.{Runtime}
use razorpay_hackathon.Shared.Fault.{Result, ok, ◌>>=◌}
use razorpay_hackathon.Policy.Engine.{is_revoked}
use razorpay_hackathon.Ledger.Entry.{LedgerKind}
use razorpay_hackathon.Store.Rows.{LockedMandate, Db}
use razorpay_hackathon.Store.Reads.{lock_mandate, held_reservations}
use razorpay_hackathon.Store.Writes.{mark_revoked, update_chain_head, append_entry}

pub record RevocationResult : Type 0 where
  pub mandate_id : String
  pub already_revoked : Bool
  pub held_reservation_ids : List String
  pub ledger_seq : Option ℕ

pub record RevokeMandateInput : Type 0 where
  pub mandate_id : String
  pub reason : String

module _ (rt : Runtime) (decision_id : String) (input : RevokeMandateInput) where
  unfoldable pub revoke_locked : LockedMandate → Db → Result (Option RevocationResult × Db)
  unfolding append_entry texts
  revoke_locked mandate db =
      if is_revoked mandate.state
      then ok (
        some (record {
          mandate_id = mandate.mandate_id;
          already_revoked = true;
          held_reservation_ids = [];
          ledger_seq = none;
        }),
        db,
      )
      else (do
        let held : List String = held_reservations db mandate.mandate_id
        written ← append_entry rt (mark_revoked db mandate.mandate_id) (record {
          chain_id = mandate.mandate_id;
          kind = LedgerKind.decision;
          merchant_id = mandate.merchant_id;
          ref = some mandate.mandate_id;
          payload_redacted = object (
              member "decision_id" (text decision_id) (
                member "verdict" (text "DENY") (
                  member "reason_code" (text "MND-003") (
                    member "reason" (text input.reason)
                      (member "held_reservations" (array (texts held)) end)))));
        })
        ok (
          some (record {
            mandate_id = mandate.mandate_id;
            already_revoked = false;
            held_reservation_ids = held;
            ledger_seq = some written.0.seq;
          }),
          update_chain_head written.1 mandate.mandate_id written.0.seq written.0.hash,
        ))

  -- The body of the transaction of `revoke`.
  unfoldable pub revoke : Db → Result (Option RevocationResult × Db)
  unfolding revoke_locked
  revoke db = elim (lock_mandate db input.mandate_id) [
    | none ↦ ok (none, db)
    | some mandate ↦ revoke_locked mandate db
  ]
