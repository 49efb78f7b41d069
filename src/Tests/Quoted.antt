-- ===== src/Tests/Quoted.antt =====
-- A basket that is priced, and the keys that sign for it.
use razorpay_hackathon.Base.{◌+◌, ◌≡◌, refl, true, none, some, [], ◌∷◌, All, arith}
use razorpay_hackathon.Shared.Text.{
  bool_text, digit_text, join, text_le, to_decimal, to_hex, from_hex, hex_value, units_le, utf16,
  utf8,
}
use razorpay_hackathon.Shared.Money.{paise_to_canonical}
use razorpay_hackathon.Shared.Json.{
  canonical_bytes, nullable, texts, canonicalise, canonicalise_number, canonicalise_string,
  insert_key, member_text, sort_keys, nat,
}
use razorpay_hackathon.Shared.Crypto.{
  genesis_prev_hash, sign_payload, sign_bytes, verify_payload, verify_bytes,
}
use razorpay_hackathon.Shared.Fault.{Result, ok, err}
use razorpay_hackathon.Store.Rows.{
  VerificationKey, KeyState, QuoteRow, AgentIdentity, LockedMandate, Db,
}
use razorpay_hackathon.Store.Reads.{lock_mandate, find_quote, find_agent, find_verification_key}
use razorpay_hackathon.Authorization.Request.{
  SignedIntent, SignedQuote, quote_signing_payload, intent_signing_payload, sort_texts, insert_text,
}
use razorpay_hackathon.Authorization.Stateless.{run_stateless_checks}
use razorpay_hackathon.Authorization.Service.{public_key_of, quote_key_of}
use razorpay_hackathon.Pricing.Amount.{◌+ℤ◌, line_amount, charged, deducted}
use razorpay_hackathon.Pricing.Quote.{
  PriceBasketInput, QuoteServiceOptions, FreshQuote, lines_of, priced_lines, total_of,
  categories_of, insert_quote, stored_amount, basket_hash, quote_of, issue_quote, price_basket,
  verify_signature,
}
use razorpay_hackathon.Pricing.Lines.{amount_by, IsSold}
use razorpay_hackathon.Pricing.Promised.{
  HasQuoteKey, price_basket-amount, price_basket-find_quote, verify_signature-price_basket,
  run_stateless_checks-price_basket,
}
use razorpay_hackathon.Tests.Purchase.{platform, store, store_of, request}

abbrev basket : PriceBasketInput
basket = record {
  mandate_id = "m";
  items =
      record { sku = "bread"; quantity = nat 2 } ∷ record { sku = "milk"; quantity = nat 1 } ∷ [];
}

abbrev pub shop : QuoteServiceOptions
shop = record { merchant_id = "shop"; quote_ttl_ms = 100 }

abbrev pub fresh : FreshQuote
fresh = record { quote_id = "q9"; nonce = "n9" }

abbrev quoting : Result (SignedQuote × Db)
quoting = price_basket platform shop basket fresh 10 store

-- The quote of a run, or another.
abbrev pub quote_in : Result (SignedQuote × Db) → SignedQuote
quote_in (ok done) = done.0
quote_in (err _) = request.signed_quote

abbrev offer : SignedQuote
offer = quote_in quoting

quoting_succeeds : quoting ≡ ok (offer, store_of store quoting)
unfolding price_basket issue_quote priced_lines lines_of total_of categories_of insert_quote
    stored_amount basket_hash quote_of sign_payload sign_bytes quote_signing_payload sort_texts
    insert_text paise_to_canonical canonical_bytes nullable texts canonicalise canonicalise_number
    canonicalise_string insert_key member_text sort_keys bool_text digit_text join text_le
    to_decimal to_hex units_le utf16 utf8 ◌+ℤ◌ line_amount
quoting_succeeds = refl

price_basket-amount_example :
    (m : LockedMandate) × (lock_mandate store "m" ≡ some m)
    × All (IsSold store "shop" m.allowed_categories) basket.items
    × (offer.quote.amount_paise + amount_by deducted store "shop" basket.items
        ≡ amount_by charged store "shop" basket.items)
price_basket-amount_example =
    price_basket-amount platform shop basket fresh 10 store quoting_succeeds

price_basket-find_quote_example :
    (row : QuoteRow) × (find_quote (store_of store quoting) offer.quote.quote_id ≡ some row)
    × (row.consumed_at ≡ none)
    × (offer.quote.mandate_id ≡ "m")
    × (row.mandate_id ≡ "m")
    × (row.amount_paise ≡ offer.quote.amount_paise)
    × (row.categories ≡ offer.quote.categories)
    × (to_hex row.basket_hash ≡ offer.quote.basket_hash)
    × (platform.iso_string row.expires_at ≡ offer.quote.expires_at)
price_basket-find_quote_example =
    price_basket-find_quote platform shop basket fresh 10 store quoting_succeeds

abbrev quote_key : VerificationKey
quote_key = record {
  kid = "k";
  purpose = "quote";
  state = KeyState.active;
  public_key = genesis_prev_hash;
  private_key = some genesis_prev_hash;
}

store-HasQuoteKey : HasQuoteKey platform store
store-HasQuoteKey = record {
  key = quote_key;
  private_key = genesis_prev_hash;
  active = refl;
  named = refl;
  private = refl;
  pair = record { raw = refl; verifies = λ m. refl; bytes = λ m. (omega arith, tt) };
}

verify_signature-price_basket_example :
    verify_signature platform offer (store_of store quoting) ≡ ok true
verify_signature-price_basket_example =
    verify_signature-price_basket platform shop basket fresh 10 store store-HasQuoteKey
      quoting_succeeds

-- An intent for the offer, from the registered agent.
abbrev intent : SignedIntent
intent = record {
  intent = record {
    intent_id = "i9";
    kind = "purchase";
    mandate_id = offer.quote.mandate_id;
    quote_id = offer.quote.quote_id;
    merchant_id = "shop";
    amount_paise = offer.quote.amount_paise;
    basket_hash = offer.quote.basket_hash;
    rationale = "";
    nonce = "n";
    expires_at = "soon";
  };
  agent_id = "agent";
  signature = "01";
}

abbrev agent_row : AgentIdentity
agent_row = record {
  agent_id = "agent";
  name = "A";
  public_key = genesis_prev_hash;
  attestation = "";
}

intent_verifies :
    verify_payload platform genesis_prev_hash
      (intent_signing_payload intent.intent)
      (from_hex intent.signature)
    ≡ ok true
unfolding price_basket issue_quote priced_lines lines_of total_of categories_of insert_quote
    stored_amount basket_hash quote_of sign_payload sign_bytes quote_signing_payload sort_texts
    insert_text paise_to_canonical canonical_bytes nullable texts canonicalise canonicalise_number
    canonicalise_string insert_key member_text sort_keys bool_text digit_text join text_le
    to_decimal to_hex units_le utf16 utf8 ◌+ℤ◌ line_amount verify_payload verify_bytes from_hex
    hex_value intent_signing_payload
intent_verifies = refl

agent_known : find_agent (store_of store quoting) "agent" ≡ some agent_row
unfolding price_basket issue_quote priced_lines lines_of total_of categories_of insert_quote
    stored_amount basket_hash quote_of sign_payload sign_bytes quote_signing_payload sort_texts
    insert_text paise_to_canonical canonical_bytes nullable texts canonicalise canonicalise_number
    canonicalise_string insert_key member_text sort_keys bool_text digit_text join text_le
    to_decimal to_hex units_le utf16 utf8 ◌+ℤ◌ line_amount
agent_known = refl

run_stateless_checks-price_basket_example :
    run_stateless_checks platform
      (record { signed_intent = intent; signed_quote = offer })
      (record {
        agent_public_key = public_key_of (find_agent (store_of store quoting) "agent");
        quote_public_key = quote_key_of (find_verification_key (store_of store quoting) offer.kid);
      })
      20
    ≡ ok none
run_stateless_checks-price_basket_example =
    run_stateless_checks-price_basket platform shop basket fresh 10 store store-HasQuoteKey
      quoting_succeeds intent agent_row 20 agent_known intent_verifies
      (record {
        intent_current = omega arith;
        quote_current = omega arith;
        same_mandate = refl;
        same_amount = refl;
        same_basket = refl;
        same_quote = refl;
      })
