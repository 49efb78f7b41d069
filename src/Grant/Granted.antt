-- ===== src/Grant/Granted.antt =====
-- What it takes for a mandate to be granted, and which mandate it is.
use mathlib.Core.Path.{subst}
use razorpay_hackathon.Base.{
  ℕ, ◌⊎◌, ◌+◌, ◌<◌, String, ◌≡◌, refl, sym, ap, ◌∙◌, inl, inr, not, ◌||◌, Option, some, arith,
  Bool-cases, Option-cases, leb, leb_iff,
}
use razorpay_hackathon.Shared.Text.{Bytes}
use razorpay_hackathon.Shared.Crypto.{Runtime, Date}
use razorpay_hackathon.Shared.Fault.{Fault, ok, Result-cases}
use razorpay_hackathon.Policy.Facts.{MandateState}
use razorpay_hackathon.Ledger.Entry.{bytes_eq}
use razorpay_hackathon.Ledger.Verify.{bytes_eq_sound}
use razorpay_hackathon.Store.Rows.{LockedMandate}
use razorpay_hackathon.Store.Reads.{lock_mandate}
use razorpay_hackathon.Store.Writes.{headed_by}
use razorpay_hackathon.Grant.Identity.{record_auth_event}
use razorpay_hackathon.Grant.Mandate.{issue, mandate_row}
use razorpay_hackathon.Grant.Opened.{issue-Opens}
use razorpay_hackathon.Grant.Consent.{
  ConsentState, ConsentRow, ConsentDb, ConsentOptions, GrantOutcome, Checked, answered, verified,
  FreshGrant, find_request, is_otp_sent, otp_hash_of, check_code, check_row, mandate_input,
  insert_pseudonym, consent_event, grant_mandate, grant, verify_and_grant, thirty_days,
}

-- The request was sent a code that is current and was not tried too often, and the code is this one.
pub record IsVerified (rt : Runtime) (options : ConsentOptions) (clock : Date) (code : String)
    (row : ConsentRow) : Type 0 where
  pub sent : row.state ≡ ConsentState.otp_sent
  pub expires_at : Date
  pub expiry : row.otp_expires_at ≡ some expires_at
  pub current : clock < expires_at
  pub tried : row.otp_attempts < 5
  pub matches : row.otp_hash ≡ some (otp_hash_of rt options clock row.request_ref code)

-- The mandate gives what the request shows, to its agent, and is live for thirty days.
pub record IsGrantOf (rt : Runtime) (options : ConsentOptions) (clock : Date) (fresh : FreshGrant)
    (row : ConsentRow) (m : LockedMandate) : Type 0 where
  pub live : m.state ≡ MandateState.live
  pub merchant : m.merchant_id ≡ options.merchant_id
  pub agent : m.agent_id ≡ row.agent_id
  pub event : m.auth_event_id ≡ some fresh.auth_event_id
  pub subject : m.subject_pseudonym ≡ fresh.subject_pseudonym
  pub merchants : m.allowed_merchants ≡ row.scope.merchants
  pub categories : m.allowed_categories ≡ row.scope.categories
  pub per_transaction : m.per_transaction_paise ≡ row.limits.per_transaction_paise
  pub cumulative : m.cumulative_paise ≡ row.limits.cumulative_paise
  pub silent : m.silent_threshold_paise ≡ row.limits.silent_threshold_paise
  pub velocity : m.velocity_per_hour ≡ row.limits.velocity_per_hour
  pub customer : m.customer_ref ≡ row.customer_ref
  pub fulfilment : m.fulfilment_ref ≡ row.fulfilment_ref
  pub from : m.not_before ≡ rt.parse_date (rt.iso_string clock)
  pub until : m.not_after ≡ rt.parse_date (rt.iso_string (clock + thirty_days))

Checked-cases :
    (c : Checked)
    → ((o : GrantOutcome) × (c ≡ answered o)) ⊎ ((row : ConsentRow) × (c ≡ verified row))
Checked-cases (answered outcome) = inl (outcome, refl)
Checked-cases (verified row) = inr (row, refl)

module _ (rt : Runtime) (options : ConsentOptions) (clock : Date) where
  check_row-IsVerified :
      (row : ConsentRow) (hash : Bytes) (expires_at : Date) (code : String) (db : ConsentDb)
      {found : ConsentRow} {db' : ConsentDb}
      → row.otp_hash ≡ some hash
      → row.otp_expires_at ≡ some expires_at
      → check_row rt options clock row hash expires_at code db ≡ (verified found, db')
      → (found ≡ row) × (db' ≡ db) × IsVerified rt options clock code row
  unfolding check_row
  check_row-IsVerified row hash expires_at code db {found = found} {db' = db'} eh ee e =
      elim (Bool-cases
        (not (is_otp_sent row.state) || (leb expires_at clock || leb 5 row.otp_attempts))) [
          | inl over ↦ ground (arith, rw (over, check_row) at e)
          | inr open_still ↦
              elim (Bool-cases
                (bytes_eq (otp_hash_of rt options clock row.request_ref code) hash)) [
                  | inl right ↦
                      let same =
                        bytes_eq_sound (otp_hash_of rt options clock row.request_ref code) hash
                          right in
                      (
                        ground arith,
                        ground arith,
                        record {
                          sent = ground arith;
                          expires_at = expires_at;
                          expiry = ee;
                          current = ground (arith, leb_iff expires_at clock);
                          tried = ground (arith, leb_iff 5 row.otp_attempts);
                          matches = eh ∙ ap some (sym same);
                        },
                      )
                  | inr wrong ↦ ground (arith, rw (open_still, wrong, check_row) at e)
                ]
        ]

  check_code-IsVerified :
      (request_ref code : String) (db : ConsentDb) {row : ConsentRow} {db' : ConsentDb}
      → check_code rt options clock request_ref code db ≡ (verified row, db')
      → (find_request db request_ref ≡ some row) × (db' ≡ db) × IsVerified rt options clock code row
  unfolding check_code
  check_code-IsVerified request_ref code db {row = row} {db' = db'} e =
      elim (Option-cases (find_request db request_ref)) [
        | inl missing ↦ ground (arith, rw (missing, check_code) at e)
        | inr (r, found) ↦ elim (Option-cases r.otp_hash) [
          | inl missing ↦ ground (arith, rw (found, missing, check_code) at e)
          | inr (hash, eh) ↦ elim (Option-cases r.otp_expires_at) [
            | inl missing ↦ ground (arith, rw (found, eh, missing, check_code) at e)
            | inr (expires_at, ee) ↦
                let (same, stays, verified_row) =
                  check_row-IsVerified r hash expires_at code db eh ee
                    (rw (found, eh, ee, check_code) at e) in
                (
                  found ∙ ap some (sym same),
                  stays,
                  subst (IsVerified rt options clock code) (sym same) verified_row,
                )
          ]
        ]
      ]

  insert_pseudonym-requests :
      (pseudonym contact : String) (db : ConsentDb) {db' : ConsentDb}
      → insert_pseudonym pseudonym contact db ≡ ok db'
      → db'.requests ≡ db.requests
  unfolding insert_pseudonym
  insert_pseudonym-requests pseudonym contact db e = ground arith

  grant_mandate-IsGrantOf :
      (contention : ℕ → Option Fault) (fresh : FreshGrant) (row : ConsentRow) (db : ConsentDb)
      {id : String} {db' : ConsentDb}
      → grant_mandate rt options clock contention fresh row db ≡ (ok (GrantOutcome.granted id), db')
      → (m : LockedMandate) × (lock_mandate db'.store id ≡ some m)
        × IsGrantOf rt options clock fresh row m
  unfolding grant_mandate
  grant_mandate-IsGrantOf contention fresh row db {id = id} {db' = db'} e =
      let out =
        issue rt 3 contention fresh.mandate_id (mandate_input rt options clock fresh row)
          db.store in
      elim (Result-cases out.0) [
        | inr (fault, thrown) ↦ ground (arith, rw (thrown, grant_mandate) at e)
        | inl (seq, issued) ↦
            let o =
              issue-Opens rt fresh.mandate_id (mandate_input rt options clock fresh row) 3
                contention db.store {seq = seq} {db' = out.1} (λ i. (issued i, out.1)) in
            let named : fresh.mandate_id ≡ id = ground (arith, rw (issued, grant_mandate) at e) in
            let store : db'.store ≡ out.1 = ground (arith, rw (issued, grant_mandate) at e) in
            (
              headed_by o.entry.seq o.entry.hash (
                  mandate_row rt fresh.mandate_id (mandate_input rt options clock fresh row) o.kid
                    o.signature),
              rw (store, ← named) o.locked,
              record {
                live = refl;
                merchant = refl;
                agent = refl;
                event = refl;
                subject = refl;
                merchants = refl;
                categories = refl;
                per_transaction = refl;
                cumulative = refl;
                silent = refl;
                velocity = refl;
                customer = refl;
                fulfilment = refl;
                from = refl;
                until = refl;
              },
            )
      ]

  grant-IsGrantOf :
      (contention : ℕ → Option Fault) (fresh : FreshGrant) (row : ConsentRow) (db : ConsentDb)
      {id : String} {db' : ConsentDb}
      → grant rt options clock contention fresh row db ≡ (ok (GrantOutcome.granted id), db')
      → (m : LockedMandate) × (lock_mandate db'.store id ≡ some m)
        × IsGrantOf rt options clock fresh row m
  unfolding grant
  grant-IsGrantOf contention fresh row db e =
      elim (Result-cases (insert_pseudonym fresh.subject_pseudonym row.contact db)) [
        | inr (fault, thrown) ↦ ground (arith, rw (thrown, grant) at e)
        | inl (mapped, inserted) ↦
            elim (Result-cases
              (record_auth_event fresh.auth_event_id (consent_event fresh) mapped.store)) [
                | inr (fault, thrown) ↦ ground (arith, rw (inserted, thrown, grant) at e)
                | inl (recorded, done) ↦
                    grant_mandate-IsGrantOf contention fresh row
                      (record mapped { store = recorded.1 }) (rw (inserted, done, grant) at e)
              ]
      ]

  check_row-not_granted :
      (row : ConsentRow) (hash : Bytes) (expires_at : Date) (code : String) (db : ConsentDb)
      (id : String)
      → (check_row rt options clock row hash expires_at code db).0
        ≡ answered (GrantOutcome.granted id)
      → ⊥
  unfolding check_row
  check_row-not_granted row hash expires_at code db id e =
      elim (Bool-cases
        (not (is_otp_sent row.state) || (leb expires_at clock || leb 5 row.otp_attempts))) [
          | inl over ↦ ground (arith, rw (over, check_row) at e)
          | inr open_still ↦
              elim (Bool-cases
                (bytes_eq (otp_hash_of rt options clock row.request_ref code) hash)) [
                  | inl right ↦ ground (arith, rw (open_still, right, check_row) at e)
                  | inr wrong ↦ ground (arith, rw (open_still, wrong, check_row) at e)
                ]
        ]

  check_code-not_granted :
      (request_ref code : String) (db : ConsentDb) (id : String)
      → (check_code rt options clock request_ref code db).0 ≡ answered (GrantOutcome.granted id)
      → ⊥
  unfolding check_code
  check_code-not_granted request_ref code db id e =
      elim (Option-cases (find_request db request_ref)) [
        | inl missing ↦ ground (arith, rw (missing, check_code) at e)
        | inr (r, found) ↦ elim (Option-cases r.otp_hash) [
          | inl missing ↦ ground (arith, rw (found, missing, check_code) at e)
          | inr (hash, eh) ↦ elim (Option-cases r.otp_expires_at) [
            | inl missing ↦ ground (arith, rw (found, eh, missing, check_code) at e)
            | inr (expires_at, ee) ↦
                check_row-not_granted r hash expires_at code db id
                  (rw (found, eh, ee, check_code) at e)
          ]
        ]
      ]

  -- Where a code is answered with a grant, the request was sent a code that is still current and
  -- had fewer than five wrong attempts, and the submitted code is the one that was sent; and the
  -- mandate that the answer names is in the store, live, for the request's agent, scope, limits,
  -- shopper and address, bound to the authentication event of this verification. This holds
  -- whatever contention the issuing met.
  pub verify_and_grant-IsGrantOf :
      (contention : ℕ → Option Fault) (fresh : FreshGrant) (request_ref code : String)
      (db : ConsentDb) {id : String} {db' : ConsentDb}
      → verify_and_grant rt options clock contention fresh request_ref code db
        ≡ (ok (GrantOutcome.granted id), db')
      → (row : ConsentRow) × (find_request db request_ref ≡ some row)
        × IsVerified rt options clock code row
        × (m : LockedMandate) × (lock_mandate db'.store id ≡ some m)
        × IsGrantOf rt options clock fresh row m
  unfolding verify_and_grant grant
  verify_and_grant-IsGrantOf contention fresh request_ref code db {id = id} {db' = db'} e =
      elim (Checked-cases (check_code rt options clock request_ref code db).0) [
        | inl (outcome, told) ↦
            let e' = rw (told, verify_and_grant) at e in
            let same : outcome ≡ GrantOutcome.granted id = ground (arith, e') in
            elim (check_code-not_granted request_ref code db id (told ∙ ap answered same)) [ ]
        | inr (row, checked) ↦
            let after = (check_code rt options clock request_ref code db).1 in
            let (found, stays, holds) =
              check_code-IsVerified request_ref code db {row = row} {db' = after}
                (λ i. (checked i, after)) in
            let granted = rw (checked, verify_and_grant) at e in
            let (m, locked, given) = grant-IsGrantOf contention fresh row after granted in
            (row, found, holds, m, locked, given)
      ]
