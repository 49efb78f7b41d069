-- ===== src/Grant/Consent.antt =====
-- consent.service.ts: a request for a mandate, the one-time code that is sent for it, and the grant. The
-- table is that of migrations/009_consent.sql and 014_fulfilment.sql.
use Prim.Native.String
use razorpay_hackathon.Base.{
  ℕ, ◌+◌, ◌-◌, String, Bool, true, false, not, ◌&&◌, ◌||◌, Option, none, some, List, [], ◌∷◌, ◌++◌,
  any, find, leb, is_none, ◌==◌, if◌then◌else◌,
}
use razorpay_hackathon.Shared.Text.{Bytes, utf8}
use razorpay_hackathon.Shared.Crypto.{Runtime, Date}
use razorpay_hackathon.Shared.Fault.{Fault, Result, ok, err, unique_violation, other}
use razorpay_hackathon.Ledger.Entry.{bytes_eq}
use razorpay_hackathon.Store.Rows.{Db}
use razorpay_hackathon.Store.Reads.{is_agent_registered}
use razorpay_hackathon.Store.Writes.{update_where}
use razorpay_hackathon.Grant.Identity.{RecordAuthEventInput, record_auth_event}
use razorpay_hackathon.Grant.Mandate.{MandateScope, IssueMandateInput, issue}

pub data ConsentState : Type 0 where
  pending otp_sent granted rejected expired : ConsentState

-- The limits that a request asks for; its window is always 30 days.
pub record RequestedLimits : Type 0 where
  pub per_transaction_paise : ℕ
  pub cumulative_paise : ℕ
  pub silent_threshold_paise : ℕ
  pub velocity_per_hour : ℕ

pub record RequestConsentInput : Type 0 where
  pub agent_id : String
  pub customer_ref : Option String
  pub fulfilment_ref : Option String
  pub contact : String
  pub requested_scope : MandateScope
  pub limits : RequestedLimits

pub record ConsentRow : Type 0 where
  pub request_ref : String
  pub merchant_id : String
  pub agent_id : String
  pub scope : MandateScope
  pub limits : RequestedLimits
  pub contact : String
  pub state : ConsentState
  pub customer_ref : Option String
  pub fulfilment_ref : Option String
  pub otp_hash : Option Bytes
  pub otp_expires_at : Option Date
  pub otp_attempts : ℕ
  pub mandate_id : Option String
  pub resolved_at : Option Date

-- The store with the tables that consent alone uses.
pub record ConsentDb : Type 0 where
  pub store : Db
  pub requests : List ConsentRow
  -- subject_pseudonym and person_ref
  pub pseudonym_map : List (String × String)

pub record ConsentOptions : Type 0 where
  pub merchant_id : String
  pub otp_ttl_ms : ℕ
  pub demo_mode : Bool

abbrev pub is_request : String → ConsentRow → Bool
is_request request_ref r = r.request_ref == request_ref

abbrev pub find_request : ConsentDb → String → Option ConsentRow
find_request db request_ref = find (is_request request_ref) db.requests

abbrev pub request_row : ConsentOptions → String → RequestConsentInput → ConsentRow
request_row options request_ref input = record {
  request_ref = request_ref;
  merchant_id = options.merchant_id;
  agent_id = input.agent_id;
  scope = input.requested_scope;
  limits = input.limits;
  contact = input.contact;
  state = ConsentState.pending;
  customer_ref = input.customer_ref;
  fulfilment_ref = input.fulfilment_ref;
  otp_hash = none;
  otp_expires_at = none;
  otp_attempts = 0;
  mandate_id = none;
  resolved_at = none;
}

-- `request_ref` is fresh.
unfoldable pub request_consent :
    ConsentOptions → String → RequestConsentInput → ConsentDb → Result (String × ConsentDb)
request_consent options request_ref input db =
    if not (is_agent_registered db.store input.agent_id)
    then err other
    else if any (is_request request_ref) db.requests
    then err (unique_violation "consent_requests")
    else ok (
      request_ref,
      record db { requests = db.requests ++ request_row options request_ref input ∷ [] },
    )

-- state IN ('pending', 'otp_sent')
abbrev pub is_open : ConsentState → Bool
is_open ConsentState.pending = true
is_open ConsentState.otp_sent = true
is_open _ = false

abbrev pub is_otp_sent : ConsentState → Bool
is_otp_sent ConsentState.otp_sent = true
is_otp_sent _ = false

abbrev pub update_request : (ConsentRow → Bool) → (ConsentRow → ConsentRow) → ConsentDb → ConsentDb
update_request p f db = record db { requests = update_where p f db.requests }

pub data GrantOutcome : Type 0 where
  granted : String → GrantOutcome
  wrong_code : ℕ → GrantOutcome
  expired not_found : GrantOutcome

-- What the transaction that checks a code finds: an answer, or the request that is to be granted.
pub data Checked : Type 0 where
  answered : GrantOutcome → Checked
  verified : ConsentRow → Checked

-- `randomUUID` in one grant.
pub record FreshGrant : Type 0 where
  pub subject_pseudonym : String
  pub auth_event_id : String
  pub mandate_id : String

abbrev pub thirty_days : ℕ
thirty_days = 2592000000

abbrev pub expire_request : String → ConsentDb → ConsentDb
expire_request request_ref db =
    update_request (is_request request_ref)
      (λ r. record r { state = ConsentState.expired; resolved_at = some db.store.now }) db

abbrev pub count_attempt : String → ℕ → ConsentDb → ConsentDb
count_attempt request_ref attempts db =
    update_request (is_request request_ref) (λ r. record r { otp_attempts = attempts }) db

unfoldable pub insert_pseudonym : String → String → ConsentDb → Result ConsentDb
insert_pseudonym pseudonym contact db =
    if any (λ (p : String × String). p.0 == pseudonym) db.pseudonym_map
    then err (unique_violation "pseudonym_map")
    else ok (record db { pseudonym_map = db.pseudonym_map ++ (pseudonym, contact) ∷ [] })

-- The last transaction of `verifyAndGrant`.
abbrev pub finish_request : String → String → ConsentDb → ConsentDb
finish_request request_ref mandate_id db =
    update_request (is_request request_ref)
      (λ r. record r {
        state = ConsentState.granted;
        mandate_id = some mandate_id;
        resolved_at = some db.store.now;
      })
      db

abbrev pub consent_event : FreshGrant → RecordAuthEventInput
consent_event fresh = record {
  subject_pseudonym = fresh.subject_pseudonym;
  method = "sms_otp";
  max_age_seconds = 300;
}

-- `new Date()` is `clock`; `now()` of a statement is that of the store.
module _ (rt : Runtime) (options : ConsentOptions) (clock : Date) where
  abbrev pub otp_hash_of : String → String → Bytes
  otp_hash_of request_ref code = rt.sha256 (utf8 (String.◌++◌ request_ref (String.◌++◌ ":" code)))

  -- `code` is what `randomInt` answered, in six digits; it is answered in demo mode only.
  unfoldable pub send_otp : String → String → ConsentDb → Option String × ConsentDb
  send_otp request_ref code db = (
    if options.demo_mode then some code else none,
    update_request (λ r. is_request request_ref r && is_open r.state)
        (λ r. record r {
          state = ConsentState.otp_sent;
          otp_hash = some (otp_hash_of request_ref code);
          otp_expires_at = some (clock + options.otp_ttl_ms);
          otp_attempts = 0;
        })
        db,
  )

  unfoldable pub check_row : ConsentRow → Bytes → Date → String → ConsentDb → Checked × ConsentDb
  check_row row hash expires_at code db =
      if not (is_otp_sent row.state) || (leb expires_at clock || leb 5 row.otp_attempts)
      then (answered GrantOutcome.expired, expire_request row.request_ref db)
      else if bytes_eq (otp_hash_of row.request_ref code) hash
      then (verified row, db)
      else (
        answered (GrantOutcome.wrong_code (5 - (row.otp_attempts + 1))),
        count_attempt row.request_ref (row.otp_attempts + 1) db,
      )

  -- The first transaction of `verifyAndGrant`.
  unfoldable pub check_code : String → String → ConsentDb → Checked × ConsentDb
  unfolding check_row
  check_code request_ref code db = elim (find_request db request_ref) [
    | none ↦ (answered GrantOutcome.not_found, db)
    | some row ↦ elim row.otp_hash [
      | none ↦ (answered GrantOutcome.not_found, db)
      | some hash ↦ elim row.otp_expires_at [
        | none ↦ (answered GrantOutcome.not_found, db)
        | some expires_at ↦ check_row row hash expires_at code db
      ]
    ]
  ]

  abbrev pub mandate_input : FreshGrant → ConsentRow → IssueMandateInput
  mandate_input fresh row = record {
    merchant_id = options.merchant_id;
    subject_pseudonym = fresh.subject_pseudonym;
    agent_id = row.agent_id;
    auth_event_id = fresh.auth_event_id;
    scope = row.scope;
    limits = record {
      per_transaction_paise = row.limits.per_transaction_paise;
      cumulative_paise = row.limits.cumulative_paise;
      cumulative_window = "30 days";
      velocity_per_hour = row.limits.velocity_per_hour;
      silent_threshold_paise = row.limits.silent_threshold_paise;
    };
    not_before = rt.iso_string clock;
    not_after = rt.iso_string (clock + thirty_days);
    customer_ref = row.customer_ref;
    fulfilment_ref = row.fulfilment_ref;
  }

  -- Once the authentication event is recorded, the mandate binds it.
  unfoldable pub grant_mandate :
      (ℕ → Option Fault) → FreshGrant → ConsentRow → ConsentDb → Result GrantOutcome × ConsentDb
  grant_mandate contention fresh row db =
      let issued = issue rt 3 contention fresh.mandate_id (mandate_input fresh row) db.store in
      let stored = record db { store = issued.1 } in
      elim issued.0 [
        | err fault ↦ (err fault, stored)
        | ok seq ↦ (
          ok (GrantOutcome.granted fresh.mandate_id),
          finish_request row.request_ref fresh.mandate_id stored,
        )
      ]

  -- What follows the first transaction; each statement commits on its own, and what was written before
  -- an error stays.
  unfoldable pub grant :
      (ℕ → Option Fault) → FreshGrant → ConsentRow → ConsentDb → Result GrantOutcome × ConsentDb
  unfolding grant_mandate insert_pseudonym
  grant contention fresh row db = elim (insert_pseudonym fresh.subject_pseudonym row.contact db) [
    | err fault ↦ (err fault, db)
    | ok mapped ↦ elim (record_auth_event fresh.auth_event_id (consent_event fresh) mapped.store) [
      | err fault ↦ (err fault, mapped)
      | ok recorded ↦ grant_mandate contention fresh row (record mapped { store = recorded.1 })
    ]
  ]

  unfoldable pub verify_and_grant :
      (ℕ → Option Fault)
      → FreshGrant
      → String
      → String
      → ConsentDb
      → Result GrantOutcome × ConsentDb
  unfolding check_code grant
  verify_and_grant contention fresh request_ref code db =
      let (checked, db') = check_code request_ref code db in
      elim checked [
        | answered outcome ↦ (ok outcome, db')
        | verified row ↦ grant contention fresh row db'
      ]

pub record ConsentStatus : Type 0 where
  pub state : ConsentState
  pub mandate_id : Option String

unfoldable pub consent_status : ConsentDb → String → Option ConsentStatus
consent_status db request_ref = elim (find_request db request_ref) [
  | none ↦ none
  | some row ↦ some (record { state = row.state; mandate_id = row.mandate_id })
]

pub data BindOutcome : Type 0 where
  bound not_pending already_bound unknown : BindOutcome

abbrev pub is_bindable : String → ConsentRow → Bool
is_bindable request_ref r = is_request request_ref r && (is_open r.state && is_none r.customer_ref)

unfoldable pub bind_consent_refs : String → String → String → ConsentDb → BindOutcome × ConsentDb
bind_consent_refs request_ref customer_ref fulfilment_ref db =
    if any (is_bindable request_ref) db.requests
    then (
      bound,
      update_request (is_bindable request_ref)
          (λ r. record r { customer_ref = some customer_ref; fulfilment_ref = some fulfilment_ref })
          db,
    )
    else elim (find_request db request_ref) [
      | none ↦ (unknown, db)
      | some row ↦ if not (is_none row.customer_ref) then (already_bound, db) else (not_pending, db)
    ]
