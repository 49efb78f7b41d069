-- ===== src/Grant/Refs.antt =====
-- What each transaction of the consent flow keeps of a request.
use mathlib.Core.Path.{subst}
use razorpay_hackathon.Base.{
  ℕ, ◌+◌, ◌≤◌, String, ◌≡◌, refl, sym, ap, ◌∙◌, inl, inr, Bool, true, false, not, ◌&&◌, ◌||◌, some,
  List, arith, any, find, ◌==◌, if◌then◌else◌, Bool-cases, Option-cases, leb, leb_iff,
}
use razorpay_hackathon.Shared.Text.{Bytes}
use razorpay_hackathon.Shared.Crypto.{Runtime, Date}
use razorpay_hackathon.Ledger.Entry.{bytes_eq}
use razorpay_hackathon.Store.Writes.{update_where}
use razorpay_hackathon.Store.Updated.{find-update_related}
use razorpay_hackathon.Grant.Consent.{
  ConsentRow, ConsentDb, ConsentOptions, find_request, is_request, is_open, is_bindable,
  is_otp_sent, otp_hash_of, send_otp, check_code, check_row, finish_request, bind_consent_refs,
  expire_request, count_attempt,
}

-- One row after another: what was asked for is as before, and a shopper once bound stays.
pub record Keeps (row later : ConsentRow) : Type 0 where
  pub request_ref : later.request_ref ≡ row.request_ref
  pub agent_id : later.agent_id ≡ row.agent_id
  pub contact : later.contact ≡ row.contact
  pub scope : later.scope ≡ row.scope
  pub limits : later.limits ≡ row.limits
  pub customer : (c : String) → row.customer_ref ≡ some c → later.customer_ref ≡ some c
  pub fulfilment :
      (c : String) → row.customer_ref ≡ some c → later.fulfilment_ref ≡ row.fulfilment_ref
  pub attempts : row.otp_attempts ≤ 5 → later.otp_attempts ≤ 5

pub Keeps-refl : (row : ConsentRow) → Keeps row row
Keeps-refl row = record {
  request_ref = refl;
  agent_id = refl;
  contact = refl;
  scope = refl;
  limits = refl;
  customer = λ c e. e;
  fulfilment = λ c e. refl;
  attempts = λ h. h;
}

pub Keeps-trans :
    {row next later : ConsentRow} → Keeps row next → Keeps next later → Keeps row later
Keeps-trans a b = record {
  request_ref = b.request_ref ∙ a.request_ref;
  agent_id = b.agent_id ∙ a.agent_id;
  contact = b.contact ∙ a.contact;
  scope = b.scope ∙ a.scope;
  limits = b.limits ∙ a.limits;
  customer = λ c e. b.customer c (a.customer c e);
  fulfilment = λ c e. b.fulfilment c (a.customer c e) ∙ a.fulfilment c e;
  attempts = λ h. b.attempts (a.attempts h);
}

-- An update of rows each of which it keeps.
find-update_Keeps :
    (request_ref : String) (p : ConsentRow → Bool) (f : ConsentRow → ConsentRow)
    (rows : List ConsentRow) {row : ConsentRow}
    → ((r : ConsentRow) → p r ≡ true → Keeps r (f r))
    → find (is_request request_ref) rows ≡ some row
    → (later : ConsentRow) × (find (is_request request_ref) (update_where p f rows) ≡ some later)
      × Keeps row later
find-update_Keeps request_ref p f rows keeps e =
    find-update_related Keeps (is_request request_ref) p f rows Keeps-refl
      (λ r h. let kept = keeps r h in (ap (λ n. n == request_ref) kept.request_ref, kept)) e

-- A request that a store holds, in a later store.
abbrev pub KeepsIn : String → ConsentRow → ConsentDb → Type 0
KeepsIn request_ref row db =
    (later : ConsentRow) × (find_request db request_ref ≡ some later) × Keeps row later

bind_unbound :
    (request_ref customer_ref fulfilment_ref : String) (db : ConsentDb)
    → any (is_bindable request_ref) db.requests ≡ false
    → (bind_consent_refs request_ref customer_ref fulfilment_ref db).1 ≡ db
unfolding bind_consent_refs
bind_unbound request_ref customer_ref fulfilment_ref db none_there =
    elim (Option-cases (find_request db request_ref)) [
      | inl missing ↦ rw (none_there, missing, if◌then◌else◌) refl
      | inr (r, found) ↦ rw (none_there, found, if◌then◌else◌) (ground arith)
    ]

-- What checking a code does to the requests.
data CheckEnds (db after : ConsentDb) : Type 0 where
  unchanged : after ≡ db → CheckEnds db after
  expires : (request_ref : String) → after ≡ expire_request request_ref db → CheckEnds db after
  counts :
      (request_ref : String) (attempts : ℕ)
      → attempts ≤ 5
      → after ≡ count_attempt request_ref attempts db
      → CheckEnds db after

module _ (rt : Runtime) (options : ConsentOptions) (clock : Date) where
  check_row-CheckEnds :
      (r : ConsentRow) (hash : Bytes) (expires_at : Date) (code : String) (db : ConsentDb)
      → CheckEnds db (check_row rt options clock r hash expires_at code db).1
  unfolding check_row
  check_row-CheckEnds r hash expires_at code db =
      elim (Bool-cases
        (not (is_otp_sent r.state) || (leb expires_at clock || leb 5 r.otp_attempts))) [
          | inl over ↦ rw over (expires r.request_ref refl)
          | inr open_still ↦
              elim (Bool-cases (bytes_eq (otp_hash_of rt options clock r.request_ref code) hash)) [
                | inl right ↦ rw (open_still, right) (unchanged refl)
                | inr wrong ↦
                    rw (open_still, wrong)
                      (counts r.request_ref (r.otp_attempts + 1)
                        (ground (arith, leb_iff 5 r.otp_attempts)) refl)
              ]
        ]

  check_code-CheckEnds :
      (request_ref code : String) (db : ConsentDb)
      → CheckEnds db (check_code rt options clock request_ref code db).1
  unfolding check_code
  check_code-CheckEnds request_ref code db = elim (Option-cases (find_request db request_ref)) [
    | inl missing ↦ rw (missing, check_code) (unchanged refl)
    | inr (r, found) ↦ elim (Option-cases r.otp_hash) [
      | inl missing ↦ rw (found, missing, check_code) (unchanged refl)
      | inr (hash, eh) ↦ elim (Option-cases r.otp_expires_at) [
        | inl missing ↦ rw (found, eh, missing, check_code) (unchanged refl)
        | inr (expires_at, ee) ↦
            rw (found, eh, ee, check_code) (check_row-CheckEnds r hash expires_at code db)
      ]
    ]
  ]

module _ (rt : Runtime) (options : ConsentOptions) (request_ref : String) (row : ConsentRow) where
  pub send_otp-Keeps :
      (clock : Date) (other code : String) (db : ConsentDb)
      → find_request db request_ref ≡ some row
      → KeepsIn request_ref row (send_otp rt options clock other code db).1
  unfolding send_otp
  send_otp-Keeps clock other code db e =
      find-update_Keeps request_ref (λ r. is_request other r && is_open r.state) _ db.requests
        (λ r h. record {
          request_ref = refl;
          agent_id = refl;
          contact = refl;
          scope = refl;
          limits = refl;
          customer = λ c e. e;
          fulfilment = λ c e. refl;
          attempts = λ h. omega arith;
        })
        e

  pub finish_request-Keeps :
      (other mandate_id : String) (db : ConsentDb)
      → find_request db request_ref ≡ some row
      → KeepsIn request_ref row (finish_request other mandate_id db)
  finish_request-Keeps other mandate_id db e =
      find-update_Keeps request_ref (is_request other) _ db.requests
        (λ r h. record {
          request_ref = refl;
          agent_id = refl;
          contact = refl;
          scope = refl;
          limits = refl;
          customer = λ c e. e;
          fulfilment = λ c e. refl;
          attempts = λ h. h;
        })
        e

  pub bind_consent_refs-Keeps :
      (other customer_ref fulfilment_ref : String) (db : ConsentDb)
      → find_request db request_ref ≡ some row
      → KeepsIn request_ref row (bind_consent_refs other customer_ref fulfilment_ref db).1
  unfolding bind_consent_refs
  bind_consent_refs-Keeps other customer_ref fulfilment_ref db e =
      elim (Bool-cases (any (is_bindable other) db.requests)) [
        | inl there ↦ rw there (
            find-update_Keeps request_ref (is_bindable other) _ db.requests
              (λ r h. record {
                request_ref = refl;
                agent_id = refl;
                contact = refl;
                scope = refl;
                limits = refl;
                customer = λ c e. ground (arith, h);
                fulfilment = λ c e. ground (arith, h);
                attempts = λ h. h;
              })
              e)
        | inr none_there ↦
            subst (KeepsIn request_ref row)
              (sym (bind_unbound other customer_ref fulfilment_ref db none_there))
              (row, e, Keeps-refl row)
      ]

  pub check_code-Keeps :
      (clock : Date) (other code : String) (db : ConsentDb)
      → find_request db request_ref ≡ some row
      → KeepsIn request_ref row (check_code rt options clock other code db).1
  check_code-Keeps clock other code db e =
      elim (check_code-CheckEnds rt options clock other code db) [
        | unchanged same ↦ subst (KeepsIn request_ref row) (sym same) (row, e, Keeps-refl row)
        | expires ref same ↦ subst (KeepsIn request_ref row) (sym same) (
            find-update_Keeps request_ref (is_request ref) _ db.requests
              (λ r h. record {
                request_ref = refl;
                agent_id = refl;
                contact = refl;
                scope = refl;
                limits = refl;
                customer = λ c e. e;
                fulfilment = λ c e. refl;
                attempts = λ h. h;
              })
              e)
        | counts ref attempts few same ↦ subst (KeepsIn request_ref row) (sym same) (
            find-update_Keeps request_ref (is_request ref) _ db.requests
              (λ r h. record {
                request_ref = refl;
                agent_id = refl;
                contact = refl;
                scope = refl;
                limits = refl;
                customer = λ c e. e;
                fulfilment = λ c e. refl;
                attempts = λ h. few;
              })
              e)
      ]
