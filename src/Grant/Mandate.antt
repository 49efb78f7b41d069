-- ===== src/Grant/Mandate.antt =====
-- mandate.service.ts and mandate.repository.ts: a mandate is issued and signed, and names the entry that
-- heads its chain.
use razorpay_hackathon.Base.{
  ℕ, String, Bool, not, Option, none, some, List, [], ◌∷◌, ◌++◌, any, ltb, ◌==◌, if◌then◌else◌,
}
use razorpay_hackathon.Shared.Text.{Bytes}
use razorpay_hackathon.Shared.Money.{Paise, paise_to_canonical}
use razorpay_hackathon.Shared.Json.{JsonValue, object, member, end, text, texts, array, number, nat}
use razorpay_hackathon.Shared.Crypto.{Runtime, sign_payload}
use razorpay_hackathon.Shared.Fault.{
  Fault, Result, ok, err, ◌>>=◌, or_throw, unique_violation, check_violation, other,
}
use razorpay_hackathon.Policy.Facts.{MandateState}
use razorpay_hackathon.Ledger.Entry.{LedgerKind, LedgerAppend}
use razorpay_hackathon.Store.Rows.{LockedMandate, AuthEvent, Db}
use razorpay_hackathon.Store.Reads.{is_agent_registered}
use razorpay_hackathon.Store.Writes.{append_entry, update_chain_head}
use razorpay_hackathon.Store.Transaction.{with_authorization_transaction}
use razorpay_hackathon.Authorization.Request.{sort_texts}
use razorpay_hackathon.Grant.Identity.{find_active_key, private_key_for}

pub record MandateScope : Type 0 where
  pub merchants : List String
  pub categories : List String
  pub currency : String

pub record MandateLimits : Type 0 where
  pub per_transaction_paise : Paise
  pub cumulative_paise : Paise
  pub cumulative_window : String
  pub velocity_per_hour : ℕ
  pub silent_threshold_paise : Paise

pub record IssueMandateInput : Type 0 where
  pub merchant_id : String
  pub subject_pseudonym : String
  pub agent_id : String
  pub auth_event_id : String
  pub scope : MandateScope
  pub limits : MandateLimits
  pub not_before : String
  pub not_after : String
  pub customer_ref : Option String
  pub fulfilment_ref : Option String

unfoldable pub mandate_signing_payload : String → IssueMandateInput → JsonValue
unfolding sort_texts
mandate_signing_payload mandate_id input = object (
    member "agent_id" (text input.agent_id) (
      member "auth_event_id" (text input.auth_event_id) (
        member "cumulative_paise" (text (paise_to_canonical input.limits.cumulative_paise)) (
          member "cumulative_window" (text input.limits.cumulative_window) (
            member "mandate_id" (text mandate_id) (
              member "merchant_id" (text input.merchant_id) (
                member "not_after" (text input.not_after) (
                  member "not_before" (text input.not_before) (
                    member "per_transaction_paise"
                      (text (paise_to_canonical input.limits.per_transaction_paise))
                      (member "scope_categories" (array (texts (sort_texts input.scope.categories)))
                        (member "scope_currency" (text input.scope.currency) (
                          member "scope_merchants"
                            (array (texts (sort_texts input.scope.merchants)))
                            (member "silent_threshold_paise"
                              (text (paise_to_canonical input.limits.silent_threshold_paise))
                              (member "subject_pseudonym" (text input.subject_pseudonym) (
                                member "velocity_per_hour"
                                  (number (nat input.limits.velocity_per_hour)) end)))))))))))))))

module _ (rt : Runtime) where
  abbrev pub mandate_row : String → IssueMandateInput → String → Bytes → LockedMandate
  mandate_row mandate_id input kid signature = record {
    mandate_id = mandate_id;
    merchant_id = input.merchant_id;
    agent_id = input.agent_id;
    state = MandateState.live;
    not_before = rt.parse_date input.not_before;
    not_after = rt.parse_date input.not_after;
    per_transaction_paise = input.limits.per_transaction_paise;
    cumulative_paise = input.limits.cumulative_paise;
    cumulative_window = rt.interval_ms input.limits.cumulative_window;
    velocity_per_hour = input.limits.velocity_per_hour;
    silent_threshold_paise = input.limits.silent_threshold_paise;
    allowed_merchants = input.scope.merchants;
    allowed_categories = input.scope.categories;
    auth_event_id = some input.auth_event_id;
    revoked_at = none;
    payment_customer_ref = none;
    payment_token_ref = none;
    chain_head_seq = none;
    chain_head_hash = none;
    subject_pseudonym = input.subject_pseudonym;
    kid = kid;
    signature = signature;
    customer_ref = input.customer_ref;
    fulfilment_ref = input.fulfilment_ref;
  }

  -- With the table's constraints: the agent and the authentication event exist, the validity is in
  -- order, and the id is new.
  unfoldable pub insert_mandate : Db → LockedMandate → Result Db
  insert_mandate db row =
      if not (ltb row.not_before row.not_after)
      then err (check_violation "mandates")
      else if not (is_agent_registered db row.agent_id)
      then err other
      else if not (
          any
            (λ (e : AuthEvent). elim row.auth_event_id [
              | none ↦ Bool.false
              | some id ↦ e.auth_event_id == id
            ])
            db.auth_events)
      then err other
      else if any (λ (m : LockedMandate). m.mandate_id == row.mandate_id) db.mandates
      then err (unique_violation "mandates")
      else ok (record db { mandates = db.mandates ++ row ∷ [] })

  abbrev pub issued_entry : String → IssueMandateInput → LedgerAppend
  issued_entry mandate_id input = record {
    chain_id = mandate_id;
    kind = LedgerKind.mandate_issued;
    merchant_id = input.merchant_id;
    ref = some mandate_id;
    payload_redacted = mandate_signing_payload mandate_id input;
  }

  -- The body of the transaction.
  unfoldable pub issue_body : String → IssueMandateInput → String → Bytes → Db → Result (ℕ × Db)
  unfolding insert_mandate
  issue_body mandate_id input kid signature db = do
    opened ← insert_mandate db (mandate_row mandate_id input kid signature)
    written ← append_entry rt opened (issued_entry mandate_id input)
    ok (written.0.seq, update_chain_head written.1 mandate_id written.0.seq written.0.hash)

  -- The key that signs, and the signature.
  unfoldable pub sign_mandate : String → IssueMandateInput → Db → Result (String × Bytes)
  unfolding mandate_signing_payload
  sign_mandate mandate_id input db = do
    key ← or_throw (find_active_key db "mandate") other
    private_key ← private_key_for db key.kid
    signature ← sign_payload rt private_key (mandate_signing_payload mandate_id input)
    ok (key.kid, signature)

  -- The sequence number of the mandate's entry; `mandate_id` is fresh.
  unfoldable pub issue : ℕ → (ℕ → Option Fault) → String → IssueMandateInput → Db → Result ℕ × Db
  unfolding issue_body sign_mandate
  issue retry_attempts contention mandate_id input db = elim (sign_mandate mandate_id input db) [
    | err fault ↦ (err fault, db)
    | ok signed ↦
        with_authorization_transaction retry_attempts contention
          (issue_body mandate_id input signed.0 signed.1) db
  ]
