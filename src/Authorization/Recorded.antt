-- ===== src/Authorization/Recorded.antt =====
-- What a run under the lock writes to the ledger.
use mathlib.Core.Path.{subst}
use mathlib.Core.List.{append_assoc}
use razorpay_hackathon.Base.{
  ℕ, String, ◌≡◌, refl, ◌∙◌, ap, ◌≢◌, inl, inr, Option, none, some, List, [], ◌∷◌, ◌++◌, map, arith,
}
use razorpay_hackathon.Shared.Reason.{ReasonCode}
use razorpay_hackathon.Shared.Crypto.{Runtime, Date}
use razorpay_hackathon.Shared.Fault.{ok, Result-cases, >>=-eq-ok}
use razorpay_hackathon.Policy.Facts.{VerifierOutcome, PolicyOutcome}
use razorpay_hackathon.Ledger.Entry.{StoredEntry, LedgerAppend, LedgerKind, append, read_chain}
use razorpay_hackathon.Ledger.Chain.{HasChain, append-HasChain, append-read_chain_other, append_row}
use razorpay_hackathon.Store.Rows.{LockedMandate, Db}
use razorpay_hackathon.Store.Writes.{append_entry}
use razorpay_hackathon.Authorization.Request.{FreshIds, AuthorizationRequest}
use razorpay_hackathon.Authorization.Entries.{
  record_decision, intent_entry, decision_entry, reservation_entry,
}
use razorpay_hackathon.Authorization.Run.{SameRows}

-- Between two stores only the ledger changed: the chain `id`, well formed before, got entries of the
-- given kinds at its end and is well formed again, and every other chain is as it was.
pub record Extends (rt : Runtime) (id : String) (db : Db) (entries : List StoredEntry) (db' : Db)
    : Type 0 where
  pub rows : SameRows db db'
  pub mandates : db'.mandates ≡ db.mandates
  pub well_formed : HasChain rt db.ledger id → HasChain rt db'.ledger id
  pub chain :
      HasChain rt db.ledger id → read_chain db'.ledger id ≡ read_chain db.ledger id ++ entries
  pub others :
      (other : String) → id ≢ other → read_chain db'.ledger other ≡ read_chain db.ledger other

abbrev pub same_rows : (db : Db) → SameRows db db
same_rows db = record {
  now = refl;
  nonces = refl;
  quotes = refl;
  reservations = refl;
  challenges = refl;
  orders = refl;
}

module _ (rt : Runtime) where
  pub append_entry_rows :
      (db : Db) (entry : LedgerAppend) {row : StoredEntry} {db' : Db}
      → append_entry rt db entry ≡ ok (row, db')
      → SameRows db db'
        × (db'.mandates ≡ db.mandates)
        × (append rt db.ledger entry ≡ ok (row, db'.ledger))
  unfolding append_entry
  append_entry_rows db entry e = elim (Result-cases (append rt db.ledger entry)) [
    | inr (fault, thrown) ↦ ground arith
    | inl (written, done) ↦ ground arith
  ]

  pub append_entry-Extends :
      (db : Db) (entry : LedgerAppend) {row : StoredEntry} {db' : Db}
      → append_entry rt db entry ≡ ok (row, db')
      → Extends rt entry.chain_id db (row ∷ []) db' × (row.kind ≡ entry.kind)
  append_entry-Extends db entry e =
      let (rows, mandates, done) = append_entry_rows db entry e in
      (
        record {
          rows = rows;
          mandates = mandates;
          well_formed = λ h. (append-HasChain rt db.ledger entry done h).0;
          chain = λ h. (append-HasChain rt db.ledger entry done h).1;
          others = append-read_chain_other rt db.ledger entry done;
        },
        (append_row rt db.ledger entry done).kind,
      )

  pub Extends-trans :
      {id : String} {db db' db'' : Db} {es fs : List StoredEntry}
      → Extends rt id db es db'
      → Extends rt id db' fs db''
      → Extends rt id db (es ++ fs) db''
  Extends-trans {id} {db} {db'} {db''} {es} {fs} a b = record {
    rows = ground (arith, a.rows, b.rows);
    mandates = b.mandates ∙ a.mandates;
    well_formed = λ h. b.well_formed (a.well_formed h);
    chain = λ h.
        b.chain (a.well_formed h)
        ∙ ap (λ es'. es' ++ fs) (a.chain h)
        ∙ append_assoc (read_chain db.ledger id) es fs;
    others = λ other ne. b.others other ne ∙ a.others other ne;
  }

abbrev pub kinds : List StoredEntry → List LedgerKind
kinds = map (λ (e : StoredEntry). e.kind)

-- The kinds of the entries of a run, in order.
abbrev pub expected_kinds : Option String → List LedgerKind
expected_kinds none = LedgerKind.intent ∷ LedgerKind.decision ∷ []
expected_kinds (some _) = LedgerKind.intent ∷ LedgerKind.decision ∷ LedgerKind.reservation ∷ []

module _ (rt : Runtime) (ttl : ℕ) (request : AuthorizationRequest) (failure : Option ReasonCode)
    (verifier : VerifierOutcome) (now : Date) (ids : FreshIds) where
  pub record_decision-Extends :
      (mandate : LockedMandate) (outcome : PolicyOutcome) (reservation_id : Option String) (db : Db)
      {decided head : StoredEntry} {db' : Db}
      → record_decision rt ttl request failure verifier now ids mandate outcome reservation_id db
        ≡ ok (decided, head, db')
      → (es : List StoredEntry) × Extends rt mandate.mandate_id db es db'
        × (kinds es ≡ expected_kinds reservation_id)
  unfolding record_decision
  record_decision-Extends mandate outcome none db {db' = db'} e =
      let opens = intent_entry rt ttl request failure verifier now ids mandate in
      let decides = decision_entry rt ttl request failure verifier now ids mandate outcome in
      let (opened, eo, e₁) = >>=-eq-ok (append_entry rt db opens) _ e in
      let (decided, ed, e₂) = >>=-eq-ok (append_entry rt opened.1 decides) _ e₁ in
      let (xo, ko) = append_entry-Extends rt db opens eo in
      let (xd, kd) = append_entry-Extends rt opened.1 decides ed in
      let last : decided.1 ≡ db' = ground arith in
      (
        opened.0 ∷ decided.0 ∷ [],
        subst (Extends rt mandate.mandate_id db (opened.0 ∷ decided.0 ∷ [])) last
            (Extends-trans rt xo xd),
        cc,
      )
  record_decision-Extends mandate outcome (some id) db {db' = db'} e =
      let opens = intent_entry rt ttl request failure verifier now ids mandate in
      let decides = decision_entry rt ttl request failure verifier now ids mandate outcome in
      let holds =
        reservation_entry rt ttl request failure verifier now ids mandate id outcome.verdict in
      let (opened, eo, e₁) = >>=-eq-ok (append_entry rt db opens) _ e in
      let (decided, ed, e₂) = >>=-eq-ok (append_entry rt opened.1 decides) _ e₁ in
      let (held, eh, e₃) = >>=-eq-ok (append_entry rt decided.1 holds) _ e₂ in
      let (xo, ko) = append_entry-Extends rt db opens eo in
      let (xd, kd) = append_entry-Extends rt opened.1 decides ed in
      let (xh, kh) = append_entry-Extends rt decided.1 holds eh in
      let last : held.1 ≡ db' = ground arith in
      (
        opened.0 ∷ decided.0 ∷ held.0 ∷ [],
        subst (Extends rt mandate.mandate_id db (opened.0 ∷ decided.0 ∷ held.0 ∷ [])) last
            (Extends-trans rt xo (Extends-trans rt xd xh)),
        cc,
      )
