-- ===== src/Tests/Parts.antt =====
-- The policy engine, the ledger, the transaction and the stateless checks at concrete inputs.
use razorpay_hackathon.Base.{
  ℕ, zero, String, ◌≡◌, refl, ◌≢◌, ◌↔◌, ◌⊎◌, inl, inr, Bool, true, false, Option, none, some, List,
  [], ◌∷◌, ◌++◌, length, All,
}
use razorpay_hackathon.Shared.Reason.{
  Verdict, ReasonCode, ok_000, sec_001, sec_002, verdict_for_reason,
}
use razorpay_hackathon.Shared.Crypto.{chain_hash, genesis_prev_hash, Date}
use razorpay_hackathon.Shared.Json.{
  JsonValue, object, member, text, end, canonical_bytes, nullable, canonicalise,
  canonicalise_number, canonicalise_string, insert_key, member_text, sort_keys,
}
use razorpay_hackathon.Shared.Text.{
  bool_text, digit_text, join, text_le, to_decimal, units_le, utf16, utf8,
}
use razorpay_hackathon.Shared.Fault.{Fault, Result, ok, err, deadlock_detected}
use razorpay_hackathon.Policy.Facts.{PolicyFacts, VerifierOutcome, MandateState}
use razorpay_hackathon.Policy.Engine.{Check, evaluate, checks, fold, evaluated_rule}
use razorpay_hackathon.Policy.Trace.{
  HasPassed, outcome_of_pass, FirstFailure, outcome_of_failure, fold-FirstFailure,
}
use razorpay_hackathon.Policy.Permission.{
  IsAdmissible, IsSilent, evaluate-verdict_iff, evaluate-verifier_subtracts,
}
use razorpay_hackathon.Ledger.Entry.{
  StoredEntry, LedgerAppend, LedgerKind, append, read_head, read_chain, insert_seq, sort_seq,
  insert_entry, chain_payload, verify_chain,
}
use razorpay_hackathon.Ledger.Chain.{
  IsChain, HasChain, last_hash, append-read_chain_other, append-HasChain,
}
use razorpay_hackathon.Ledger.Verify.{verify_chain-valid_iff, valid_report}
use razorpay_hackathon.Ledger.Tamper.{Collision, canonical_payloads, IsChain-tamper_evident}
use razorpay_hackathon.Store.Rows.{Db}
use razorpay_hackathon.Store.Transaction.{
  Ends, with_authorization_transaction, with_authorization_transaction-Ends,
  with_authorization_transaction-commits,
}
use razorpay_hackathon.Store.Writes.{burn_nonce}
use razorpay_hackathon.Authorization.Stateless.{run_stateless_checks}
use razorpay_hackathon.Authorization.Authentic.{
  IsAuthentic, run_stateless_checks-none_iff, run_stateless_checks_denies,
}
use razorpay_hackathon.Tests.Purchase.{platform, store, request, keys}

abbrev two_checks : List Check
two_checks =
    record { rule = "first"; passed = true; observed = none; bound = none; reason_code = ok_000 }
    ∷ record {
      rule = "second";
      passed = false;
      observed = none;
      bound = none;
      reason_code = sec_001;
    }
    ∷ []

fold-FirstFailure_example :
    (All HasPassed two_checks × (fold two_checks ≡ outcome_of_pass two_checks))
    ⊎ ((f : FirstFailure two_checks) × (fold two_checks ≡ outcome_of_failure f.before f.check))
fold-FirstFailure_example = fold-FirstFailure two_checks

abbrev iso : Date → String
iso date = "1970"

-- A small purchase at a known merchant, while the verifier is away.
abbrev facts : PolicyFacts
facts = record {
  now = 10;
  stateless_failure = none;
  verifier = VerifierOutcome.unavailable "timeout";
  mandate = record {
    mandate_id = "m";
    merchant_id = "shop";
    agent_id = "agent";
    state = MandateState.live;
    not_before = 1;
    not_after = 100;
    per_transaction_paise = 6;
    cumulative_paise = 9;
    velocity_per_hour = 3;
    silent_threshold_paise = 5;
    allowed_merchants = "shop" ∷ [];
    allowed_categories = "food" ∷ [];
    has_auth_event = true;
  };
  intent = record {
    intent_id = "i";
    merchant_id = "shop";
    amount_paise = 4;
    agent_id = "agent";
    taint_reached_decision_field = false;
  };
  quote = record {
    quote_id = "q";
    mandate_id = "m";
    amount_paise = 4;
    categories = "food" ∷ [];
    expires_at = 50;
  };
  nonce_already_spent = false;
  quote_already_consumed = false;
  reserved_and_captured_paise = 2;
  reservations_last_hour = 1;
  seen_this_merchant_before = true;
  agent_registered = true;
}

facts_have_no_failure :
    (code : ReasonCode)
    → facts.stateless_failure ≡ some code
    → verdict_for_reason code ≡ Verdict.deny
facts_have_no_failure code e = cc

evaluate-verdict_iff_example :
    (((evaluate iso facts).verdict ≡ Verdict.allow) ↔ (IsAdmissible facts × IsSilent facts))
    × (((evaluate iso facts).verdict ≡ Verdict.step_up) ↔ (IsAdmissible facts × ¬ IsSilent facts))
    × (((evaluate iso facts).verdict ≡ Verdict.deny) ↔ ¬ IsAdmissible facts)
evaluate-verdict_iff_example = evaluate-verdict_iff iso facts facts_have_no_failure

facts_not_denied : (evaluate iso facts).verdict ≢ Verdict.deny
unfolding evaluate checks fold evaluated_rule
facts_not_denied = cc

evaluate-verifier_subtracts_example :
    (evaluate iso (record facts { verifier = VerifierOutcome.proceed })).verdict
    ≡ (evaluate iso facts).verdict
evaluate-verifier_subtracts_example =
    evaluate-verifier_subtracts iso facts facts_have_no_failure facts_not_denied

abbrev entry : LedgerAppend
entry = record {
  chain_id = "m";
  kind = LedgerKind.intent;
  merchant_id = "shop";
  ref = none;
  payload_redacted = object (member "a" (text "x") end);
}

abbrev written : Result (StoredEntry × List StoredEntry)
written = append platform [] entry

abbrev written_row : Result (StoredEntry × List StoredEntry) → List StoredEntry
written_row (ok done) = done.0 ∷ []
written_row (err _) = []

-- The row that stands first, or any row.
abbrev row_of : List StoredEntry → StoredEntry
row_of (row ∷ rows) = row
row_of [] = record {
  chain_id = "";
  seq = 0;
  prev_hash = [];
  hash = [];
  kind = LedgerKind.anchor;
  merchant_id = "";
  ref = none;
  payload_redacted = JsonValue.null;
}

abbrev row : StoredEntry
row = row_of (written_row written)

append_succeeds : written ≡ ok (row, row ∷ [])
unfolding append read_head read_chain insert_seq sort_seq insert_entry chain_payload chain_hash
    canonical_bytes nullable canonicalise canonicalise_number canonicalise_string insert_key
    member_text sort_keys bool_text digit_text join text_le to_decimal units_le utf16 utf8
append_succeeds = refl

append-read_chain_other_example : read_chain (row ∷ []) "other" ≡ read_chain [] "other"
append-read_chain_other_example =
    append-read_chain_other platform [] entry append_succeeds "other" (cc)

append-HasChain_example :
    HasChain platform (row ∷ []) "m"
    × (read_chain (row ∷ []) "m" ≡ read_chain [] "m" ++ row ∷ [])
    × (row.seq ≡ length (read_chain [] "m"))
append-HasChain_example =
    append-HasChain platform [] entry append_succeeds (unfold read_chain in tt)

verify_chain-valid_iff_example :
    (verify_chain platform (row ∷ []) "m" ≡ ok (valid_report (row ∷ []) "m"))
    ↔ HasChain platform (row ∷ []) "m"
verify_chain-valid_iff_example = verify_chain-valid_iff platform (row ∷ []) "m"

-- The same members in two orders.
abbrev sealed : JsonValue → StoredEntry
sealed payload = record {
  chain_id = "m";
  seq = 0;
  prev_hash = genesis_prev_hash;
  hash = elim (chain_hash platform genesis_prev_hash payload) [ ok hash ↦ hash | err _ ↦ [] ];
  kind = LedgerKind.intent;
  merchant_id = "shop";
  ref = none;
  payload_redacted = payload;
}

abbrev one_order : StoredEntry
one_order = sealed (object (member "a" (text "x") (member "b" (text "y") end)))

abbrev other_order : StoredEntry
other_order = sealed (object (member "b" (text "y") (member "a" (text "x") end)))

one_order-IsChain : IsChain platform 0 genesis_prev_hash (one_order ∷ [])
unfolding append read_head read_chain insert_seq sort_seq insert_entry chain_payload chain_hash
    canonical_bytes nullable canonicalise canonicalise_number canonicalise_string insert_key
    member_text sort_keys bool_text digit_text join text_le to_decimal units_le utf16 utf8
one_order-IsChain = (refl, refl, refl, tt)

other_order-IsChain : IsChain platform 0 genesis_prev_hash (other_order ∷ [])
unfolding append read_head read_chain insert_seq sort_seq insert_entry chain_payload chain_hash
    canonical_bytes nullable canonicalise canonicalise_number canonicalise_string insert_key
    member_text sort_keys bool_text digit_text join text_le to_decimal units_le utf16 utf8
other_order-IsChain = (refl, refl, refl, tt)

same_head :
    last_hash genesis_prev_hash (one_order ∷ []) ≡ last_hash genesis_prev_hash (other_order ∷ [])
unfolding append read_head read_chain insert_seq sort_seq insert_entry chain_payload chain_hash
    canonical_bytes nullable canonicalise canonicalise_number canonicalise_string insert_key
    member_text sort_keys bool_text digit_text join text_le to_decimal units_le utf16 utf8
same_head = refl

IsChain-tamper_evident_example :
    (canonical_payloads (one_order ∷ []) ≡ canonical_payloads (other_order ∷ []))
    ⊎ Collision platform
IsChain-tamper_evident_example =
    IsChain-tamper_evident platform (one_order ∷ []) (other_order ∷ []) genesis_prev_hash
      one_order-IsChain other_order-IsChain refl same_head

-- Contention at the first attempt only.
abbrev contended_once : ℕ → Option Fault
contended_once zero = some deadlock_detected
contended_once _ = none

abbrev spend : Db → Result (Bool × Db)
spend db = ok (burn_nonce db (record { nonce = "n"; mandate_id = "m"; intent_id = "i" }))

with_authorization_transaction-Ends_example :
    Ends contended_once spend store 0 3
      (with_authorization_transaction 3 contended_once spend store)
with_authorization_transaction-Ends_example =
    with_authorization_transaction-Ends 3 contended_once spend store

with_authorization_transaction-commits_example :
    with_authorization_transaction 3 contended_once spend store ≡ (
      ok true,
      record store { nonces = record { nonce = "n"; mandate_id = "m"; intent_id = "i" } ∷ [] },
    )
with_authorization_transaction-commits_example =
    with_authorization_transaction-commits 3 contended_once spend store
      (inr (record { fault = deadlock_detected; raised = refl; retryable = refl }, inl refl)) refl

run_stateless_checks-none_iff_example :
    (run_stateless_checks platform request keys 10 ≡ ok none) ↔ IsAuthentic platform request keys 10
run_stateless_checks-none_iff_example = run_stateless_checks-none_iff platform request keys 10

unknown_agent_fails :
    run_stateless_checks platform request (record keys { agent_public_key = none }) 10
    ≡ ok (some sec_002)
unfolding run_stateless_checks
unknown_agent_fails = refl

run_stateless_checks_denies_example : verdict_for_reason sec_002 ≡ Verdict.deny
run_stateless_checks_denies_example =
    run_stateless_checks_denies platform request (record keys { agent_public_key = none }) 10
      sec_002 unknown_agent_fails
