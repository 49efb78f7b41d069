-- ===== src/Tests/Decisions.antt =====
-- A step-up that is approved, and approved again.
use razorpay_hackathon.Base.{◌≡◌, refl, ◌≢◌, ◌⊎◌, true, false, [], ◌∷◌, any}
use razorpay_hackathon.Shared.Reason.{Verdict, code_text, verdict_text}
use razorpay_hackathon.Shared.Crypto.{chain_hash, idempotency_key}
use razorpay_hackathon.Shared.Json.{
  canonical_bytes, nullable, canonicalise, canonicalise_number, canonicalise_string, insert_key,
  member_text, sort_keys,
}
use razorpay_hackathon.Shared.Text.{
  bool_text, digit_text, join, text_le, to_decimal, to_hex, units_le, utf16, utf8,
}
use razorpay_hackathon.Shared.Fault.{Result, ok}
use razorpay_hackathon.Ledger.Entry.{
  append, read_head, read_chain, insert_seq, sort_seq, insert_entry, chain_payload,
}
use razorpay_hackathon.Store.Rows.{Challenge, ChallengeState, ReservationState, Db}
use razorpay_hackathon.Store.Writes.{append_entry}
use razorpay_hackathon.Authorization.Request.{Decision}
use razorpay_hackathon.Authorization.StepUp.{approve_locked, resolve, check_approval}
use razorpay_hackathon.Authorization.Decided.{
  approve_locked-once, approve_locked-reservations, held_by,
}
use razorpay_hackathon.Tests.Purchase.{platform, settled, store, store_of, answer_of}

abbrev waiting : Challenge
waiting = record {
  challenge_id = "c";
  intent_id = "i";
  mandate_id = "m";
  merchant_id = "shop";
  amount_paise = 4;
  state = ChallengeState.pending;
  expires_at = 40;
}

abbrev pledged : Db
pledged = record store {
  challenges = waiting ∷ [];
  reservations =
      record settled { reservation_id = "r"; intent_id = "i"; state = ReservationState.held } ∷ [];
}

abbrev approval : Result (Decision × Db)
approval = approve_locked platform "c" true 10 "d1" pledged pledged

abbrev approved : Db
approved = store_of pledged approval

approval_succeeds : approval ≡ ok (answer_of approval, approved)
unfolding approve_locked resolve check_approval append read_head read_chain insert_seq sort_seq
    insert_entry chain_payload append_entry chain_hash canonical_bytes nullable canonicalise
    canonicalise_number canonicalise_string insert_key member_text sort_keys bool_text digit_text
    join text_le to_decimal to_hex units_le utf16 utf8 idempotency_key code_text verdict_text
approval_succeeds = refl

abbrev repetition : Result (Decision × Db)
repetition = approve_locked platform "c" true 11 "d2" approved approved

repetition_succeeds : repetition ≡ ok (answer_of repetition, store_of approved repetition)
unfolding approve_locked resolve check_approval append read_head read_chain insert_seq sort_seq
    insert_entry chain_payload append_entry chain_hash canonical_bytes nullable canonicalise
    canonicalise_number canonicalise_string insert_key member_text sort_keys bool_text digit_text
    join text_le to_decimal to_hex units_le utf16 utf8 idempotency_key code_text verdict_text
repetition_succeeds = refl

approve_locked-once_example : (answer_of repetition).verdict ≡ Verdict.deny
approve_locked-once_example =
    approve_locked-once platform "c" true 10 "d1" pledged pledged {row = waiting} refl
      approval_succeeds true 11 "d2" approved approved refl repetition_succeeds

-- An approval that read the challenge before the first one committed: both allow.
abbrev raced : Result (Decision × Db)
raced = approve_locked platform "c" true 11 "d2" pledged approved

raced_allows :
    ((answer_of approval).verdict ≡ Verdict.allow) × ((answer_of raced).verdict ≡ Verdict.allow)
unfolding approve_locked resolve check_approval append read_head read_chain insert_seq sort_seq
    insert_entry chain_payload append_entry chain_hash canonical_bytes nullable canonicalise
    canonicalise_number canonicalise_string insert_key member_text sort_keys bool_text digit_text
    join text_le to_decimal to_hex units_le utf16 utf8 idempotency_key code_text verdict_text
raced_allows = (refl, refl)

-- The challenge as the first approval left it.
abbrev closed : Challenge
closed = record waiting { state = ChallengeState.approved }

-- The repetition gives up the hold of the purchase that was allowed.
approve_locked-reservations_example :
    (((answer_of repetition).verdict ≡ Verdict.allow)
      × ((store_of approved repetition).reservations ≡ approved.reservations))
    ⊎ (((answer_of repetition).verdict ≢ Verdict.allow)
        × (any (held_by "i") (store_of approved repetition).reservations ≡ false))
unfolding approve_locked resolve check_approval append read_head read_chain insert_seq sort_seq
    insert_entry chain_payload append_entry chain_hash canonical_bytes nullable canonicalise
    canonicalise_number canonicalise_string insert_key member_text sort_keys bool_text digit_text
    join text_le to_decimal to_hex units_le utf16 utf8 idempotency_key code_text verdict_text
approve_locked-reservations_example =
    approve_locked-reservations platform "c" true 11 "d2" approved approved closed refl
      repetition_succeeds
