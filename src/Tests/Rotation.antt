-- ===== src/Tests/Rotation.antt =====
-- Keys that are rotated, baskets in another order, and buffers in hexadecimal.
use mathlib.Core.List.{Permᴰ}
use razorpay_hackathon.Base.{String, ◌≡◌, refl, ◌≢◌, true, Option, some, [], ◌∷◌, All, arith}
use razorpay_hackathon.Shared.Text.{
  bool_text, digit_text, join, text_le, to_decimal, to_hex, from_hex, hex_value, units_le, utf16,
  utf8,
}
use razorpay_hackathon.Shared.Money.{paise_to_canonical}
use razorpay_hackathon.Shared.Json.{
  canonical_bytes, texts, canonicalise, canonicalise_number, canonicalise_string, insert_key,
  member_text, sort_keys, nat, neg,
}
use razorpay_hackathon.Shared.Crypto.{
  genesis_prev_hash, verify_payload, verify_bytes, sign_payload, sign_bytes,
}
use razorpay_hackathon.Shared.Fault.{Result, ok}
use razorpay_hackathon.Store.Rows.{VerificationKey, KeyState, QuoteLine, Db}
use razorpay_hackathon.Authorization.Request.{quote_signing_payload, sort_texts, insert_text}
use razorpay_hackathon.Grant.Identity.{
  RawKeyPair, is_active_for, find_active_key, rotate_signing_key, insert_key_row,
}
use razorpay_hackathon.Pricing.Amount.{◌+ℤ◌, line_amount}
use razorpay_hackathon.Pricing.Quote.{
  PriceBasketInput, lines_of, priced_lines, total_of, categories_of, insert_quote, stored_amount,
  basket_hash, quote_of, issue_quote, price_basket, verify_signature,
}
use razorpay_hackathon.Pricing.Basket.{basket_hash-perm}
use razorpay_hackathon.Pricing.Rotated.{
  rotate_signing_key-active, rotate_signing_key-verify_signature,
}
use razorpay_hackathon.Tests.Purchase.{platform, store, store_of, request}
use razorpay_hackathon.Tests.Quoted.{shop, fresh, quote_in}

abbrev pair : RawKeyPair
pair = record { public_key = genesis_prev_hash; private_key = genesis_prev_hash }

abbrev rotation : Result (Option String × Db)
rotation = rotate_signing_key "k2" pair "quote" store

rotation_succeeds : rotation ≡ ok (some "k", store_of store rotation)
unfolding rotate_signing_key insert_key_row
rotation_succeeds = refl

abbrev second_key : VerificationKey
second_key = record {
  kid = "k2";
  purpose = "quote";
  state = KeyState.active;
  public_key = genesis_prev_hash;
  private_key = some genesis_prev_hash;
}

rotate_signing_key-active_example :
    (find_active_key (store_of store rotation) "quote" ≡ some second_key)
    × All
        (λ (k : VerificationKey). is_active_for "quote" k ≡ true → k.kid ≡ "k2")
        (store_of store rotation).keys
rotate_signing_key-active_example =
    rotate_signing_key-active "k2" pair "quote" store rotation_succeeds

quote_verifies : verify_signature platform request.signed_quote store ≡ ok true
unfolding verify_signature verify_payload verify_bytes quote_signing_payload sort_texts insert_text
    paise_to_canonical canonical_bytes texts canonicalise canonicalise_number canonicalise_string
    insert_key member_text sort_keys bool_text digit_text join text_le to_decimal to_hex units_le
    utf16 utf8 from_hex hex_value
quote_verifies = refl

rotate_signing_key-verify_signature_example :
    verify_signature platform request.signed_quote (store_of store rotation) ≡ ok true
rotate_signing_key-verify_signature_example =
    rotate_signing_key-verify_signature "k2" pair "quote" store platform request.signed_quote
      rotation_succeeds quote_verifies

abbrev one_bread : QuoteLine
one_bread = record { sku = "bread"; quantity = nat 1; price_paise = 2 }

abbrev two_milk : QuoteLine
two_milk = record { sku = "milk"; quantity = nat 2; price_paise = 1 }

bread_is_not_milk : utf16 "bread" ≢ utf16 "milk"
unfolding utf16
bread_is_not_milk = λ e. ground (arith, e)

basket_hash-perm_example :
    basket_hash platform (one_bread ∷ two_milk ∷ [])
    ≡ basket_hash platform (two_milk ∷ one_bread ∷ [])
basket_hash-perm_example =
    basket_hash-perm platform (one_bread ∷ two_milk ∷ []) (two_milk ∷ one_bread ∷ [])
      (Permᴰ.swap refl refl) ((bread_is_not_milk, tt), (tt, tt))

-- A quantity below zero takes its price off the amount.
abbrev discounted : PriceBasketInput
discounted = record {
  mandate_id = "m";
  items =
      record { sku = "bread"; quantity = nat 1 } ∷ record { sku = "milk"; quantity = neg 0 } ∷ [];
}

discount : (quote_in (price_basket platform shop discounted fresh 10 store)).quote.amount_paise ≡ 1
unfolding price_basket issue_quote priced_lines lines_of total_of categories_of insert_quote
    stored_amount basket_hash quote_of sign_payload sign_bytes quote_signing_payload sort_texts
    insert_text paise_to_canonical canonical_bytes texts canonicalise canonicalise_number
    canonicalise_string insert_key member_text sort_keys bool_text digit_text join text_le
    to_decimal to_hex units_le utf16 utf8 ◌+ℤ◌ line_amount
discount = refl
