-- ===== src/Authorization/StepUp.antt =====
-- authorization.service.ts: the approval of a step-up (`approveStepUp`, `checkApproval`).
use razorpay_hackathon.Base.{
  String, Bool, true, false, not, ◌||◌, Option, none, some, [], leb, if◌then◌else◌,
}
use razorpay_hackathon.Shared.Reason.{
  Verdict, ReasonCode, verdict_text, code_text, ok_000, stp_001, int_002, mnd_002, mnd_003,
}
use razorpay_hackathon.Shared.Json.{object, member, end, text, bool}
use razorpay_hackathon.Shared.Crypto.{Runtime, Date, idempotency_key}
use razorpay_hackathon.Shared.Fault.{
  Result, ok, ◌>>=◌, or_throw, unknown_mandate, unknown_challenge,
}
use razorpay_hackathon.Policy.Engine.{is_live, is_revoked}
use razorpay_hackathon.Ledger.Entry.{LedgerKind, LedgerAppend}
use razorpay_hackathon.Store.Rows.{
  LockedMandate, Challenge, ChallengeState, ReservationState, ReleaseReason, Db,
}
use razorpay_hackathon.Store.Reads.{lock_mandate, find_challenge, reservation_state, is_held}
use razorpay_hackathon.Store.Writes.{
  is_pending, resolve_challenge, release_where, update_chain_head, append_entry,
}
use razorpay_hackathon.Authorization.Request.{Decision}

-- `reservation !== "held"`, for a state that may be missing.
abbrev pub is_held? : Option ReservationState → Bool
is_held? none = false
is_held? (some state) = is_held state

-- What could have changed while a human was deciding. The first reason wins.
unfoldable pub check_approval : Db → Challenge → LockedMandate → Date → Bool → ReasonCode
check_approval db challenge mandate now approve =
    if not approve
    then stp_001
    else if not (is_pending challenge.state)
    then int_002
    else if leb challenge.expires_at now
    then int_002
    else if is_revoked mandate.state
    then mnd_003
    else if not (is_live mandate.state) || leb mandate.not_after now
    then mnd_002
    else if not (is_held? (reservation_state db challenge.intent_id))
    then int_002
    else ok_000

abbrev pub verdict_of_approval : ReasonCode → Verdict
verdict_of_approval ok_000 = Verdict.allow
verdict_of_approval _ = Verdict.deny

abbrev pub is_allow : Verdict → Bool
is_allow Verdict.allow = true
is_allow _ = false

module _ (rt : Runtime) (challenge_id : String) (approve : Bool) (now : Date)
    (decision_id : String) where
  abbrev pub approval_entry : LockedMandate → Challenge → Verdict → ReasonCode → LedgerAppend
  approval_entry mandate challenge verdict reason_code = record {
    chain_id = mandate.mandate_id;
    kind = LedgerKind.decision;
    merchant_id = mandate.merchant_id;
    ref = some challenge.intent_id;
    payload_redacted = object (
        member "decision_id" (text decision_id) (
          member "intent_id" (text challenge.intent_id) (
            member "verdict" (text (verdict_text verdict)) (
              member "reason_code" (text (code_text reason_code)) (
                member "step_up"
                  (object (
                    member "challenge_id" (text challenge_id)
                      (member "satisfied" (bool (is_allow verdict)) end)))
                  end)))));
  }

  -- The challenge is resolved, and the hold goes unless the purchase was allowed.
  unfoldable pub resolve : Challenge → Verdict → Db → Db
  resolve challenge verdict db =
      let allowed = is_allow verdict in
      let resolved : Db =
        resolve_challenge db challenge_id
          (if allowed then ChallengeState.approved else ChallengeState.rejected) in
      if allowed
      then resolved
      else release_where resolved is_held challenge.intent_id ReleaseReason.step_up_abandoned

  -- The body of the transaction. The challenge is read before the lock on the mandate is held, in the
  -- store as it is `seen` then, and other transactions may commit before the lock is granted; all
  -- else is read and written in the store `db` under the lock.
  unfoldable pub approve_locked : Db → Db → Result (Decision × Db)
  unfolding resolve check_approval
  approve_locked seen db = do
    challenge ← or_throw (find_challenge seen challenge_id) (unknown_challenge challenge_id)
    mandate ← or_throw (lock_mandate db challenge.mandate_id) (unknown_mandate challenge.mandate_id)
    let reason_code = check_approval db challenge mandate now approve
    let verdict = verdict_of_approval reason_code
    recorded ←
        append_entry rt (resolve challenge verdict db)
          (approval_entry mandate challenge verdict reason_code)
    ok (
      record {
        decision_id = decision_id;
        intent_id = challenge.intent_id;
        mandate_id = mandate.mandate_id;
        verdict = verdict;
        reason_code = reason_code;
        evaluated = [];
        reservation_id = none;
        idempotency_key =
            if is_allow verdict then some (idempotency_key rt challenge.intent_id) else none;
        challenge_id = some challenge_id;
        ledger_seq = some recorded.0.seq;
        decided_at = rt.iso_string now;
      },
      update_chain_head recorded.1 mandate.mandate_id recorded.0.seq recorded.0.hash,
    )
