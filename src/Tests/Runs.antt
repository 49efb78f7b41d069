-- ===== src/Tests/Runs.antt =====
-- Authorisations at concrete inputs: a purchase that is allowed, and the same request again.
use razorpay_hackathon.Base.{
  ℕ, ◌+◌, ◌≤◌, arith, String, ◌≡◌, refl, ◌≢◌, inl, true, none, some, List, [], ◌++◌, any, ◌==◌,
}
use razorpay_hackathon.Shared.Reason.{
  Verdict, ReasonCode, verdict_for_reason, code_text, verdict_text,
}
use razorpay_hackathon.Shared.Money.{paise_to_canonical}
use razorpay_hackathon.Shared.Crypto.{chain_hash, idempotency_key}
use razorpay_hackathon.Shared.Json.{
  canonical_bytes, nullable, canonicalise, canonicalise_number, canonicalise_string, insert_key,
  member_text, sort_keys,
}
use razorpay_hackathon.Shared.Text.{
  bool_text, digit_text, join, text_le, to_decimal, to_hex, units_le, utf16, utf8,
}
use razorpay_hackathon.Policy.Engine.{evaluate, checks, fold, evaluated_rule, kind_text, state_text}
use razorpay_hackathon.Store.Writes.{append_entry}
use razorpay_hackathon.Shared.Fault.{Result, ok}
use razorpay_hackathon.Policy.Facts.{VerifierOutcome}
use razorpay_hackathon.Ledger.Entry.{
  StoredEntry, read_chain, append, read_head, insert_seq, sort_seq, insert_entry, chain_payload,
}
use razorpay_hackathon.Ledger.Chain.{HasChain}
use razorpay_hackathon.Store.Rows.{LockedMandate, NonceRow, Db}
use razorpay_hackathon.Store.Reads.{
  lock_mandate, sum_reserved_and_captured, count_reservations_last_hour,
}
use razorpay_hackathon.Authorization.Request.{Decision}
use razorpay_hackathon.Authorization.Locked.{
  run_locked, reserve, challenge, locked_facts, run_with_mandate,
}
use razorpay_hackathon.Authorization.Entries.{record_decision, evaluated_json}
use razorpay_hackathon.Authorization.Recorded.{kinds, expected_kinds}
use razorpay_hackathon.Authorization.Safety.{run_locked_within_limits}
use razorpay_hackathon.Authorization.Chained.{run_locked_entries, run_locked_denied}
use razorpay_hackathon.Authorization.Replay.{run_locked_single_use}
use razorpay_hackathon.Authorization.Budget.{Move, HasLimits, capture_reservation-sum}
use razorpay_hackathon.Settlement.Spending.{run_locked-spends}
use razorpay_hackathon.Store.Writes.{capture_reservation}
use razorpay_hackathon.Settlement.Steps.{runs, captures, elapses, stay, after}
use razorpay_hackathon.Settlement.Reached.{Step-Move, Steps-within_limit}
use razorpay_hackathon.Tests.Purchase.{
  platform, mandate, request, store, first_ids, second_ids, store_of, answer_of,
}

-- The first run allows, the second finds the nonce spent.
abbrev first : Result (Decision × Db)
first = run_locked platform 100 request none VerifierOutcome.proceed 10 first_ids store

abbrev after_first : Db
after_first = store_of store first

first_succeeds : first ≡ ok (answer_of first, after_first)
unfolding run_locked code_text verdict_text paise_to_canonical chain_hash idempotency_key
    canonical_bytes nullable canonicalise canonicalise_number canonicalise_string insert_key
    member_text sort_keys bool_text digit_text join text_le to_decimal to_hex units_le utf16 utf8
    evaluate checks fold evaluated_rule kind_text state_text append read_head read_chain insert_seq
    sort_seq insert_entry chain_payload append_entry reserve challenge record_decision
    evaluated_json locked_facts run_with_mandate
first_succeeds = refl

no_failure : (code : ReasonCode) → none ≡ some code → verdict_for_reason code ≡ Verdict.deny
no_failure code e = cc

first_allows : (answer_of first).verdict ≢ Verdict.deny
unfolding run_locked code_text verdict_text paise_to_canonical chain_hash idempotency_key
    canonical_bytes nullable canonicalise canonicalise_number canonicalise_string insert_key
    member_text sort_keys bool_text digit_text join text_le to_decimal to_hex units_le utf16 utf8
    evaluate checks fold evaluated_rule kind_text state_text append read_head read_chain insert_seq
    sort_seq insert_entry chain_payload append_entry reserve challenge record_decision
    evaluated_json locked_facts run_with_mandate
first_allows = cc

run_locked_within_limits_example :
    (sum_reserved_and_captured after_first "m" 1000 ≤ 9)
    × (4 ≤ 6)
    × (count_reservations_last_hour after_first "m" ≤ 3)
run_locked_within_limits_example =
    run_locked_within_limits platform 100 request none VerifierOutcome.proceed 10 first_ids store
      no_failure refl first_succeeds first_allows

run_locked_entries_example :
    (es : List StoredEntry) × (read_chain after_first.ledger "m" ≡ read_chain [] "m" ++ es)
    × (kinds es ≡ expected_kinds (answer_of first).reservation_id)
    × HasChain platform after_first.ledger "m"
    × ((other : String) → "m" ≢ other → read_chain after_first.ledger other ≡ read_chain [] other)
run_locked_entries_example =
    run_locked_entries platform 100 request none VerifierOutcome.proceed 10 first_ids store
      no_failure refl first_succeeds (unfold read_chain in tt)

-- The same request again, with other identifiers.
abbrev second : Result (Decision × Db)
second = run_locked platform 100 request none VerifierOutcome.proceed 11 second_ids after_first

abbrev after_second : Db
after_second = store_of after_first second

second_succeeds : second ≡ ok (answer_of second, after_second)
unfolding run_locked code_text verdict_text paise_to_canonical chain_hash idempotency_key
    canonical_bytes nullable canonicalise canonicalise_number canonicalise_string insert_key
    member_text sort_keys bool_text digit_text join text_le to_decimal to_hex units_le utf16 utf8
    evaluate checks fold evaluated_rule kind_text state_text append read_head read_chain insert_seq
    sort_seq insert_entry chain_payload append_entry reserve challenge record_decision
    evaluated_json locked_facts run_with_mandate
second_succeeds = refl

-- The mandate's row after the first run.
abbrev headed : LockedMandate
headed = record mandate {
  chain_head_seq = elim (lock_mandate after_first "m") [ none ↦ none | some m ↦ m.chain_head_seq ];
  chain_head_hash = elim (lock_mandate after_first "m") [
    | none ↦ none
    | some m ↦ m.chain_head_hash
  ];
}

second_mandate : lock_mandate after_first "m" ≡ some headed
unfolding run_locked code_text verdict_text paise_to_canonical chain_hash idempotency_key
    canonical_bytes nullable canonicalise canonicalise_number canonicalise_string insert_key
    member_text sort_keys bool_text digit_text join text_le to_decimal to_hex units_le utf16 utf8
    evaluate checks fold evaluated_rule kind_text state_text append read_head read_chain insert_seq
    sort_seq insert_entry chain_payload append_entry reserve challenge record_decision
    evaluated_json locked_facts run_with_mandate
second_mandate = refl

run_locked_single_use_example : (answer_of second).verdict ≡ Verdict.deny
run_locked_single_use_example =
    run_locked_single_use platform 100 request none VerifierOutcome.proceed 10 first_ids store
      no_failure refl first_succeeds 100 request none VerifierOutcome.proceed 11 second_ids
      no_failure second_mandate second_succeeds (inl refl)

second_denies : (answer_of second).verdict ≡ Verdict.deny
unfolding run_locked code_text verdict_text paise_to_canonical chain_hash idempotency_key
    canonical_bytes nullable canonicalise canonicalise_number canonicalise_string insert_key
    member_text sort_keys bool_text digit_text join text_le to_decimal to_hex units_le utf16 utf8
    evaluate checks fold evaluated_rule kind_text state_text append read_head read_chain insert_seq
    sort_seq insert_entry chain_payload append_entry reserve challenge record_decision
    evaluated_json locked_facts run_with_mandate
second_denies = refl

run_locked_denied_example :
    (after_second.reservations ≡ after_first.reservations)
    × (after_second.quotes ≡ after_first.quotes)
    × ((answer_of second).reservation_id ≡ none)
    × (any (λ (n : NonceRow). n.nonce == "n") after_second.nonces ≡ true)
run_locked_denied_example =
    run_locked_denied platform 100 request none VerifierOutcome.proceed 11 second_ids after_first
      no_failure second_mandate second_succeeds second_denies

-- The limits of the mandate.
limited : HasLimits "m" 1000 9 store.mandates
limited = record { mandate = mandate; known = refl; window_is = refl; limit_is = refl }

abbrev captured : Db
captured = capture_reservation after_first "i"

abbrev later : Db
later = record captured { now = 500 }

Step-Move_example :
    Move 9
      (sum_reserved_and_captured store "m" 1000)
      (sum_reserved_and_captured after_first "m" 1000)
    × HasLimits "m" 1000 9 after_first.mandates
Step-Move_example =
    Step-Move platform "m" 1000 9
      (runs 100 request none VerifierOutcome.proceed 10 first_ids store no_failure refl
        first_succeeds)
      limited

now_after_first : after_first.now ≡ 10
unfolding run_locked code_text verdict_text paise_to_canonical chain_hash idempotency_key
    canonical_bytes nullable canonicalise canonicalise_number canonicalise_string insert_key
    member_text sort_keys bool_text digit_text join text_le to_decimal to_hex units_le utf16 utf8
    evaluate checks fold evaluated_rule kind_text state_text append read_head read_chain insert_seq
    sort_seq insert_entry chain_payload append_entry reserve challenge record_decision
    evaluated_json locked_facts run_with_mandate
now_after_first = refl

-- The purchase, its capture, and time that passes.
Steps-within_limit_example : sum_reserved_and_captured later "m" 1000 ≤ 9
Steps-within_limit_example =
    Steps-within_limit platform "m" 1000 9
      (after
        (runs 100 request none VerifierOutcome.proceed 10 first_ids store no_failure refl
          first_succeeds)
        (after (captures "i" after_first)
          (after (elapses 500 captured (rw now_after_first (omega arith))) (stay later))))
      limited (omega arith)

capture_reservation-sum_example :
    sum_reserved_and_captured captured "m" 1000 ≡ sum_reserved_and_captured after_first "m" 1000
capture_reservation-sum_example = capture_reservation-sum "m" 1000 after_first "i"

run_locked-spends_example :
    (sum_reserved_and_captured after_first "m" 1000
      ≡ sum_reserved_and_captured store "m" 1000 + request.signed_intent.intent.amount_paise)
    × ((id : String) (window : ℕ)
        → "m" ≢ id
        → sum_reserved_and_captured after_first id window
          ≡ sum_reserved_and_captured store id window)
run_locked-spends_example =
    run_locked-spends platform 100 request none VerifierOutcome.proceed 10 first_ids store
      no_failure refl first_succeeds first_allows (omega arith)
