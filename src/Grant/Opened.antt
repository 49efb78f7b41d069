-- ===== src/Grant/Opened.antt =====
-- A mandate that was issued is in the store as it was asked for, and heads its chain.
use razorpay_hackathon.Base.{
  ℕ, String, ◌≡◌, refl, sym, ap, ◌∙◌, inl, inr, Bool, Option, none, some, [], ◌∷◌, ◌++◌, arith, any,
  find, ◌==◌, ==_refl, Bool-cases, length,
}
use razorpay_hackathon.Shared.Text.{Bytes}
use razorpay_hackathon.Shared.Crypto.{Runtime}
use razorpay_hackathon.Shared.Fault.{Fault, ok, >>=-Given, given, Result-cases}
use razorpay_hackathon.Policy.Facts.{MandateState}
use razorpay_hackathon.Ledger.Entry.{StoredEntry, append, read_chain}
use razorpay_hackathon.Ledger.Chain.{HasChain, append-HasChain}
use razorpay_hackathon.Store.Rows.{LockedMandate, Db}
use razorpay_hackathon.Store.Reads.{lock_mandate}
use razorpay_hackathon.Store.Writes.{headed_by, append_entry, update_chain_head}
use razorpay_hackathon.Store.Updated.{find-update_where, find-append_new}
use razorpay_hackathon.Store.Transaction.{
  with_authorization_transaction, with_authorization_transaction-Ends, committed, threw, gave_up,
}
use razorpay_hackathon.Authorization.Recorded.{append_entry_rows}
use razorpay_hackathon.Grant.Mandate.{
  IssueMandateInput, mandate_row, insert_mandate, issued_entry, issue_body, sign_mandate, issue,
}

insert_mandate-stores :
    (rt : Runtime) (db : Db) (row : LockedMandate) {db' : Db}
    → insert_mandate rt db row ≡ ok db'
    → (lock_mandate db' row.mandate_id ≡ some row) × (db'.ledger ≡ db.ledger)
unfolding insert_mandate
insert_mandate-stores rt db row {db' = db'} e =
    let named : LockedMandate → Bool = λ m. m.mandate_id == row.mandate_id in
    elim (Bool-cases (any named db.mandates)) [
      | inl twice ↦ ground (arith, twice)
      | inr new ↦
          let stored : db' ≡ record db { mandates = db.mandates ++ row ∷ [] } =
            ground (arith, new) in
          (
            ap (λ (d : Db). find named d.mandates) stored
                ∙ find-append_new named db.mandates row new (==_refl row.mandate_id),
            ap (λ (d : Db). d.ledger) stored,
          )
    ]

-- The mandate gives exactly what was asked for, is live, and carries the key and the signature.
pub record IsIssued (rt : Runtime) (input : IssueMandateInput) (kid : String) (signature : Bytes)
    (m : LockedMandate) : Type 0 where
  pub live : m.state ≡ MandateState.live
  pub unrevoked : m.revoked_at ≡ none
  pub merchant : m.merchant_id ≡ input.merchant_id
  pub agent : m.agent_id ≡ input.agent_id
  pub subject : m.subject_pseudonym ≡ input.subject_pseudonym
  pub event : m.auth_event_id ≡ some input.auth_event_id
  pub from : m.not_before ≡ rt.parse_date input.not_before
  pub until : m.not_after ≡ rt.parse_date input.not_after
  pub per_transaction : m.per_transaction_paise ≡ input.limits.per_transaction_paise
  pub cumulative : m.cumulative_paise ≡ input.limits.cumulative_paise
  pub window : m.cumulative_window ≡ rt.interval_ms input.limits.cumulative_window
  pub velocity : m.velocity_per_hour ≡ input.limits.velocity_per_hour
  pub silent : m.silent_threshold_paise ≡ input.limits.silent_threshold_paise
  pub merchants : m.allowed_merchants ≡ input.scope.merchants
  pub categories : m.allowed_categories ≡ input.scope.categories
  pub customer : m.customer_ref ≡ input.customer_ref
  pub fulfilment : m.fulfilment_ref ≡ input.fulfilment_ref
  pub unpaid : (m.payment_customer_ref ≡ none) × (m.payment_token_ref ≡ none)
  pub key : m.kid ≡ kid
  pub signed : m.signature ≡ signature

mandate_row-IsIssued :
    (rt : Runtime) (mandate_id : String) (input : IssueMandateInput) (kid : String)
    (signature : Bytes) (seq : ℕ) (hash : Bytes)
    → IsIssued rt input kid signature
        (headed_by seq hash (mandate_row rt mandate_id input kid signature))
mandate_row-IsIssued rt mandate_id input kid signature seq hash = record {
  live = refl;
  unrevoked = refl;
  merchant = refl;
  agent = refl;
  subject = refl;
  event = refl;
  from = refl;
  until = refl;
  per_transaction = refl;
  cumulative = refl;
  window = refl;
  velocity = refl;
  silent = refl;
  merchants = refl;
  categories = refl;
  customer = refl;
  fulfilment = refl;
  unpaid = (refl, refl);
  key = refl;
  signed = refl;
}

module _ (rt : Runtime) (mandate_id : String) (input : IssueMandateInput) where
  -- The row that was inserted, headed by the entry that was appended for it.
  pub record Opens (before after : Db) (seq : ℕ) : Type 0 where
    pub kid : String
    pub signature : Bytes
    pub signs : sign_mandate rt mandate_id input before ≡ ok (kid, signature)
    pub entry : StoredEntry
    pub numbered : entry.seq ≡ seq
    pub locked :
        lock_mandate after mandate_id
        ≡ some (headed_by entry.seq entry.hash (mandate_row rt mandate_id input kid signature))
    pub written :
        append rt before.ledger (issued_entry rt mandate_id input) ≡ ok (entry, after.ledger)

  issue_body-Opens :
      (kid : String) (signature : Bytes) (db : Db) {seq : ℕ} {db' : Db}
      → sign_mandate rt mandate_id input db ≡ ok (kid, signature)
      → issue_body rt mandate_id input kid signature db ≡ ok (seq, db')
      → Opens db db' seq
  unfolding issue_body append_entry
  issue_body-Opens kid signature db {seq = seq} {db' = db'} signs e =
      let row = mandate_row rt mandate_id input kid signature in
      elim (>>=-Given (insert_mandate rt db row) _ e) [
        | given opened inserted e1 ↦
            elim (>>=-Given (append_entry rt opened (issued_entry rt mandate_id input)) _ e1) [
              | given written appended e2 ↦
                  let named : LockedMandate → Bool = λ m. m.mandate_id == mandate_id in
                  let (rows, mandates, done) =
                    append_entry_rows rt opened (issued_entry rt mandate_id input) appended in
                  let (found, ledger) = insert_mandate-stores rt db row inserted in
                  let store : update_chain_head written.1 mandate_id written.0.seq written.0.hash
                      ≡ db' =
                    ground (arith, e2) in
                  let headed =
                    find-update_where named named (headed_by written.0.seq written.0.hash)
                      written.1.mandates {x = row} (λ m. refl) (λ m h. h)
                      (ap (find named) mandates ∙ found) in
                  record {
                    kid = kid;
                    signature = signature;
                    signs = signs;
                    entry = written.0;
                    numbered = ground (arith, e2);
                    locked = ap (λ (d : Db). find named d.mandates) (sym store) ∙ headed;
                    written = rw (← ledger) done ∙ ap (λ (d : Db). ok (written.0, d.ledger)) store;
                  }
            ]
      ]

  -- A mandate that was issued, whatever contention its transaction met, is the one that was asked
  -- for, signed by the active mandate key, and headed by the entry that was appended for it.
  pub issue-Opens :
      (retry_attempts : ℕ) (contention : ℕ → Option Fault) (db : Db) {seq : ℕ} {db' : Db}
      → issue rt retry_attempts contention mandate_id input db ≡ (ok seq, db')
      → Opens db db' seq
  unfolding issue
  issue-Opens retry_attempts contention db {seq = seq} {db' = db'} e =
      elim (Result-cases (sign_mandate rt mandate_id input db)) [
        | inr (fault, thrown) ↦ ground (arith, rw (thrown, issue) at e)
        | inl (signed, signs) ↦
            let ran : with_authorization_transaction retry_attempts contention
                  (issue_body rt mandate_id input signed.0 signed.1) db
                ≡ (ok seq, db') =
              rw (signs, issue) at e in
            elim (with_authorization_transaction-Ends retry_attempts contention
              (issue_body rt mandate_id input signed.0 signed.1) db) [
                | committed k low high before free s store done out ↦
                    let same = sym out ∙ ran in
                    let result : ok (s, store) ≡ ok (seq, db') = ground (arith, same) in
                    issue_body-Opens signed.0 signed.1 db signs (done ∙ result)
                | threw k low high before fault raised final out ↦ ground (arith, sym out ∙ ran)
                | gave_up all out ↦ ground (arith, sym out ∙ ran)
              ]
      ]

  -- An issued mandate, whatever contention its transaction met, heads its chain: if the chain of
  -- the mandate's id was well formed, one entry was appended at its end, numbered by the length
  -- that the chain had, and the chain is well formed again; and the mandate that the store holds
  -- under that id is live, has each member that was asked for, carries the key and the signature of
  -- the active mandate key, and names that entry as the head of its chain.
  pub issue-HasChain :
      (retry_attempts : ℕ) (contention : ℕ → Option Fault) (db : Db) {seq : ℕ} {db' : Db}
      → HasChain rt db.ledger mandate_id
      → issue rt retry_attempts contention mandate_id input db ≡ (ok seq, db')
      → (entry : StoredEntry) × (kid : String) × (signature : Bytes) × (m : LockedMandate)
        × (sign_mandate rt mandate_id input db ≡ ok (kid, signature))
        × HasChain rt db'.ledger mandate_id
        × (read_chain db'.ledger mandate_id ≡ read_chain db.ledger mandate_id ++ entry ∷ [])
        × (seq ≡ length (read_chain db.ledger mandate_id))
        × (lock_mandate db' mandate_id ≡ some m)
        × IsIssued rt input kid signature m
        × (m.chain_head_seq ≡ some seq)
        × (m.chain_head_hash ≡ some entry.hash)
  issue-HasChain retry_attempts contention db h e =
      let o = issue-Opens retry_attempts contention db e in
      let (chain, own, numbered) =
        append-HasChain rt db.ledger (issued_entry rt mandate_id input) o.written h in
      (
        o.entry,
        o.kid,
        o.signature,
        headed_by o.entry.seq o.entry.hash (mandate_row rt mandate_id input o.kid o.signature),
        o.signs,
        chain,
        own,
        sym o.numbered ∙ numbered,
        o.locked,
        mandate_row-IsIssued rt mandate_id input o.kid o.signature o.entry.seq o.entry.hash,
        ap some o.numbered,
        refl,
      )
