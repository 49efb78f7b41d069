-- ===== src/Tests/Consented.antt =====
-- A consent request that is granted, and what concurrent and later submissions of its code do.
use razorpay_hackathon.Base.{
  ℕ, ◌≤◌, String, ◌≡◌, refl, false, Option, none, some, [], ◌∷◌, ◌++◌, leb, length, ◌==◌,
  if◌then◌else◌,
}
use razorpay_hackathon.Shared.Text.{
  Bytes, bool_text, digit_text, join, text_le, to_decimal, to_hex, units_le, utf16, utf8,
}
use razorpay_hackathon.Shared.Money.{paise_to_canonical}
use razorpay_hackathon.Shared.Json.{
  canonical_bytes, nullable, texts, canonicalise, canonicalise_number, canonicalise_string,
  insert_key, member_text, sort_keys,
}
use razorpay_hackathon.Shared.Crypto.{Runtime, chain_hash, sign_payload, sign_bytes}
use razorpay_hackathon.Shared.Fault.{Fault, Result, ok}
use razorpay_hackathon.Ledger.Entry.{
  StoredEntry, kind_text, read_chain, append, read_head, insert_seq, sort_seq, insert_entry,
  chain_payload,
}
use razorpay_hackathon.Ledger.Chain.{HasChain}
use razorpay_hackathon.Store.Rows.{LockedMandate, AuthEvent, Db}
use razorpay_hackathon.Store.Reads.{lock_mandate}
use razorpay_hackathon.Store.Writes.{append_entry}
use razorpay_hackathon.Store.Transaction.{with_authorization_transaction, attempts_from}
use razorpay_hackathon.Authorization.Request.{sort_texts, insert_text}
use razorpay_hackathon.Grant.Identity.{record_auth_event}
use razorpay_hackathon.Grant.Mandate.{
  IssueMandateInput, mandate_signing_payload, insert_mandate, issue_body, sign_mandate, issue,
}
use razorpay_hackathon.Grant.Opened.{IsIssued, issue-HasChain}
use razorpay_hackathon.Grant.Consent.{
  ConsentState, ConsentRow, ConsentDb, ConsentOptions, GrantOutcome, verified, FreshGrant,
  find_request, otp_hash_of, send_otp, check_row, check_code, insert_pseudonym, grant_mandate,
  grant, verify_and_grant, mandate_input,
}
use razorpay_hackathon.Grant.Refs.{Keeps}
use razorpay_hackathon.Grant.Unmoved.{sends, checks, stay, after, Steps-Keeps}
use razorpay_hackathon.Grant.Guesses.{wrong_codes, wrong_codes-le, left_of}
use razorpay_hackathon.Grant.Granted.{IsVerified, IsGrantOf, verify_and_grant-IsGrantOf}
use razorpay_hackathon.Tests.Purchase.{platform, store}

-- A platform whose dates have two texts.
abbrev dated : Runtime
dated = record platform {
  iso_string = λ date. if leb 1000 date then "later" else "now";
  parse_date = λ text. if text == "later" then 1000 else 10;
}

abbrev options : ConsentOptions
options = record { merchant_id = "shop"; otp_ttl_ms = 300; demo_mode = false }

abbrev row : ConsentRow
row = record {
  request_ref = "creq";
  merchant_id = "shop";
  agent_id = "agent";
  scope = record { merchants = "shop" ∷ []; categories = "food" ∷ []; currency = "INR" };
  limits = record {
    per_transaction_paise = 6;
    cumulative_paise = 9;
    silent_threshold_paise = 5;
    velocity_per_hour = 3;
  };
  contact = "9999999999";
  state = ConsentState.otp_sent;
  customer_ref = some "cust";
  fulfilment_ref = some "home";
  otp_hash = some (otp_hash_of dated options 10 "creq" "123456");
  otp_expires_at = some 300;
  otp_attempts = 0;
  mandate_id = none;
  resolved_at = none;
}

abbrev consents : ConsentDb
consents = record { store = store; requests = row ∷ []; pseudonym_map = [] }

abbrev ids : FreshGrant
ids = record { subject_pseudonym = "psu1"; auth_event_id = "aev1"; mandate_id = "mnd1" }

abbrev other_ids : FreshGrant
other_ids = record { subject_pseudonym = "psu2"; auth_event_id = "aev2"; mandate_id = "mnd2" }

abbrev calm : ℕ → Option Fault
calm attempt = none

abbrev granting : Result GrantOutcome × ConsentDb
granting = verify_and_grant dated options 10 calm ids "creq" "123456" consents

granting_succeeds : granting ≡ (ok (GrantOutcome.granted "mnd1"), granting.1)
unfolding verify_and_grant check_code check_row grant insert_pseudonym record_auth_event
    grant_mandate issue sign_mandate issue_body insert_mandate mandate_signing_payload sort_texts
    insert_text with_authorization_transaction attempts_from sign_payload sign_bytes append_entry
    append read_head read_chain insert_seq sort_seq insert_entry chain_payload chain_hash kind_text
    paise_to_canonical canonical_bytes nullable texts canonicalise canonicalise_number
    canonicalise_string insert_key member_text sort_keys bool_text digit_text join text_le
    to_decimal to_hex units_le utf16 utf8
granting_succeeds = refl

verify_and_grant-IsGrantOf_example :
    (r : ConsentRow) × (find_request consents "creq" ≡ some r)
    × IsVerified dated options 10 "123456" r
    × (m : LockedMandate) × (lock_mandate granting.1.store "mnd1" ≡ some m)
    × IsGrantOf dated options 10 ids r m
verify_and_grant-IsGrantOf_example =
    verify_and_grant-IsGrantOf dated options 10 calm ids "creq" "123456" consents granting_succeeds

-- The consent request at another time, and a run of the flow.
abbrev resent : ConsentDb
resent = (send_otp dated options 20 "creq" "654321" consents).1

Steps-Keeps_example :
    (later : ConsentRow) × (find_request
        (check_code dated options 30 "creq" "000000" resent).1
        "creq"
      ≡ some later)
    × Keeps row later
Steps-Keeps_example =
    Steps-Keeps dated options "creq" row
      (after (sends 20 "creq" "654321" consents)
        (after (checks 30 "creq" "000000" resent) (stay _)))
      refl

wrong_codes-le_example :
    wrong_codes dated options "creq" ((20, "000000") ∷ (21, "111111") ∷ []) consents
    ≤ left_of (find_request consents "creq")
wrong_codes-le_example =
    wrong_codes-le dated options "creq" ((20, "000000") ∷ (21, "111111") ∷ []) consents

-- Issuing on its own, on a store that holds the event.
abbrev event : AuthEvent
event = record {
  auth_event_id = "aev1";
  subject_pseudonym = "psu1";
  method = "sms_otp";
  occurred_at = 10;
  max_age_seconds = 300;
}

abbrev with_event : Db
with_event = record store { auth_events = event ∷ [] }

abbrev asked : IssueMandateInput
asked = mandate_input dated options 10 ids row

abbrev issuing : Result ℕ × Db
issuing = issue dated 3 calm "mnd1" asked with_event

issuing_succeeds : issuing ≡ (ok 0, issuing.1)
unfolding issue sign_mandate issue_body insert_mandate mandate_signing_payload sort_texts
    insert_text with_authorization_transaction attempts_from sign_payload sign_bytes append_entry
    append read_head read_chain insert_seq sort_seq insert_entry chain_payload chain_hash kind_text
    paise_to_canonical canonical_bytes nullable texts canonicalise canonicalise_number
    canonicalise_string insert_key member_text sort_keys bool_text digit_text join text_le
    to_decimal to_hex units_le utf16 utf8
issuing_succeeds = refl

no_chain : HasChain dated with_event.ledger "mnd1"
unfolding read_chain sort_seq
no_chain = tt

issue-HasChain_example :
    (entry : StoredEntry) × (kid : String) × (signature : Bytes) × (m : LockedMandate)
    × (sign_mandate dated "mnd1" asked with_event ≡ ok (kid, signature))
    × HasChain dated issuing.1.ledger "mnd1"
    × (read_chain issuing.1.ledger "mnd1" ≡ read_chain with_event.ledger "mnd1" ++ entry ∷ [])
    × (0 ≡ length (read_chain with_event.ledger "mnd1"))
    × (lock_mandate issuing.1 "mnd1" ≡ some m)
    × IsIssued dated asked kid signature m
    × (m.chain_head_seq ≡ some 0)
    × (m.chain_head_hash ≡ some entry.hash)
issue-HasChain_example =
    issue-HasChain dated "mnd1" asked 3 calm with_event no_chain issuing_succeeds

-- Two submissions of one code that are both checked before either grants: two mandates.
abbrev twice : Result GrantOutcome × ConsentDb
twice =
    grant dated options 10 calm other_ids row
      (grant dated options 10 calm ids row
        (check_code dated options 10 "creq" "123456" consents).1).1

granted_twice :
    ((check_code dated options 10 "creq" "123456" consents).0 ≡ verified row)
    × (twice.0 ≡ ok (GrantOutcome.granted "mnd2"))
    × (length twice.1.store.mandates ≡ 3)
unfolding check_code check_row grant insert_pseudonym record_auth_event grant_mandate issue
    sign_mandate issue_body insert_mandate mandate_signing_payload sort_texts insert_text
    with_authorization_transaction attempts_from sign_payload sign_bytes append_entry append
    read_head read_chain insert_seq sort_seq insert_entry chain_payload chain_hash kind_text
    paise_to_canonical canonical_bytes nullable texts canonicalise canonicalise_number
    canonicalise_string insert_key member_text sort_keys bool_text digit_text join text_le
    to_decimal to_hex units_le utf16 utf8
granted_twice = (refl, refl, refl)

-- A code that is submitted after the grant: the request is expired, while its mandate stays.
abbrev state_of : Option ConsentRow → ConsentState
state_of none = ConsentState.rejected
state_of (some r) = r.state

submitted_again :
    state_of (
      find_request
        (check_code dated options 11 "creq" "123456"
          (record consents { requests = record row { state = ConsentState.granted } ∷ [] })).1
        "creq")
    ≡ ConsentState.expired
unfolding check_code check_row
submitted_again = refl
