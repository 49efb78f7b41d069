-- ===== src/Authorization/Request.antt =====
-- authorization.validation.ts and quote.validation.ts: signed intents and signed quotes, and the
-- exact values that are signed.
use razorpay_hackathon.Base.{ℕ, String, Option, List, [], ◌∷◌, if◌then◌else◌}
use razorpay_hackathon.Shared.Reason.{Verdict, ReasonCode}
use razorpay_hackathon.Shared.Text.{text_le}
use razorpay_hackathon.Shared.Money.{Paise, paise_to_canonical}
use razorpay_hackathon.Shared.Json.{JsonValue, text, array, object, end, member, texts}
use razorpay_hackathon.Policy.Facts.{EvaluatedRule}

-- `expires_at` is an ISO text; `basket_hash` is 64 hexadecimal digits.
pub record Intent : Type 0 where
  pub intent_id : String
  pub kind : String
  pub mandate_id : String
  pub quote_id : String
  pub merchant_id : String
  pub amount_paise : Paise
  pub basket_hash : String
  pub rationale : String
  pub nonce : String
  pub expires_at : String

pub record SignedIntent : Type 0 where
  pub intent : Intent
  pub agent_id : String
  pub signature : String

pub record Quote : Type 0 where
  pub quote_id : String
  pub mandate_id : String
  pub merchant_id : String
  pub basket_hash : String
  pub amount_paise : Paise
  pub categories : List String
  pub nonce : String
  pub issued_at : String
  pub expires_at : String

pub record SignedQuote : Type 0 where
  pub quote : Quote
  pub kid : String
  pub signature : String

pub record AuthorizationRequest : Type 0 where
  pub signed_intent : SignedIntent
  pub signed_quote : SignedQuote

pub record Decision : Type 0 where
  pub decision_id : String
  pub intent_id : String
  pub mandate_id : String
  pub verdict : Verdict
  pub reason_code : ReasonCode
  pub evaluated : List EvaluatedRule
  pub reservation_id : Option String
  pub idempotency_key : Option String
  pub challenge_id : Option String
  pub ledger_seq : Option ℕ
  pub decided_at : String

-- What `randomUUID` answers in one call.
pub record FreshIds : Type 0 where
  pub decision_id : String
  pub reservation_id : String
  pub challenge_id : String

-- `[...names].sort()`.
unfoldable pub insert_text : String → List String → List String
insert_text s [] = s ∷ []
insert_text s (t ∷ ts) = if text_le s t then s ∷ t ∷ ts else t ∷ insert_text s ts

unfoldable pub sort_texts : List String → List String
unfolding insert_text text_le
sort_texts [] = []
sort_texts (s ∷ ss) = insert_text s (sort_texts ss)

unfoldable pub intent_signing_payload : Intent → JsonValue
intent_signing_payload intent = object (
    member "amount_paise" (text (paise_to_canonical intent.amount_paise)) (
      member "basket_hash" (text intent.basket_hash) (
        member "expires_at" (text intent.expires_at) (
          member "intent_id" (text intent.intent_id) (
            member "mandate_id" (text intent.mandate_id) (
              member "merchant_id" (text intent.merchant_id) (
                member "nonce" (text intent.nonce) (
                  member "quote_id" (text intent.quote_id) (
                    member "rationale" (text intent.rationale)
                      (member "type" (text intent.kind) end))))))))))

unfoldable pub quote_signing_payload : Quote → JsonValue
unfolding sort_texts
quote_signing_payload quote = object (
    member "amount_paise" (text (paise_to_canonical quote.amount_paise)) (
      member "basket_hash" (text quote.basket_hash) (
        member "categories" (array (texts (sort_texts quote.categories))) (
          member "expires_at" (text quote.expires_at) (
            member "issued_at" (text quote.issued_at) (
              member "mandate_id" (text quote.mandate_id) (
                member "merchant_id" (text quote.merchant_id) (
                  member "nonce" (text quote.nonce)
                    (member "quote_id" (text quote.quote_id) end)))))))))
