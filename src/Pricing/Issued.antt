-- ===== src/Pricing/Issued.antt =====
-- How a basket that was priced became a signed quote.
use razorpay_hackathon.Base.{
  ◌+◌, String, ◌≡◌, refl, ap, ◌∙◌, not, Option, none, some, List, [], ◌∷◌, map, arith, select,
  includes,
}
use razorpay_hackathon.Shared.Money.{Paise}
use razorpay_hackathon.Shared.Crypto.{Runtime, Date, sign_payload}
use razorpay_hackathon.Shared.Fault.{
  Fault, Result, out_of_scope, ok, >>=-Given, given, or_throw, other,
}
use razorpay_hackathon.Store.Rows.{QuoteRow, LockedMandate, VerificationKey, Db}
use razorpay_hackathon.Store.Reads.{lock_mandate}
use razorpay_hackathon.Authorization.Request.{SignedQuote, quote_signing_payload}
use razorpay_hackathon.Grant.Identity.{find_active_key, private_key_for}
use razorpay_hackathon.Shared.Text.{Bytes, to_hex}
use razorpay_hackathon.Pricing.Amount.{ℤ}
use razorpay_hackathon.Pricing.Quote.{
  PriceBasketInput, QuoteServiceOptions, PricedLine, FreshQuote, quoted, if_empty, priced_lines,
  total_of, categories_of, insert_quote, stored_amount, basket_hash, quote_of, issue_quote,
  price_basket,
}

pub or_throw-ok {ℓ} : {A : Type ℓ} (o : Option A) {a : A} → or_throw o other ≡ ok a → o ≡ some a
or_throw-ok none e = cc
or_throw-ok (some b) e = cc

-- The row of a quote.
abbrev pub row_of :
    QuoteServiceOptions
    → PriceBasketInput
    → FreshQuote
    → Date
    → List PricedLine
    → Paise
    → Bytes
    → String
    → Bytes
    → QuoteRow
row_of options input fresh now lines amount hash kid signature = record {
  quote_id = fresh.quote_id;
  mandate_id = input.mandate_id;
  merchant_id = options.merchant_id;
  amount_paise = amount;
  categories = categories_of lines;
  basket_hash = hash;
  expires_at = now + options.quote_ttl_ms;
  consumed_at = none;
  consumed_by = none;
  nonce = fresh.nonce;
  issued_at = now;
  kid = kid;
  signature = signature;
  basket = map quoted lines;
}

pub if_empty-ok {ℓ} :
    {A : Type ℓ} (error : List String → Fault) (ss : List String) (result : Result A) {a : A}
    → if_empty error ss result ≡ ok a
    → (ss ≡ []) × (result ≡ ok a)
if_empty-ok error [] result e = (refl, e)
if_empty-ok error (s ∷ ss) result e = cc

module _ (rt : Runtime) (options : QuoteServiceOptions) (input : PriceBasketInput)
    (fresh : FreshQuote) (now : Date) (db : Db) (signed : SignedQuote) (db' : Db) where
  -- How priced lines became a signed quote and its row.
  pub record Signs (key : VerificationKey) (private_key : Bytes) (lines : List PricedLine)
      (total : ℤ) : Type 0 where
    pub hash : Bytes
    pub digest : basket_hash rt (map quoted lines) ≡ ok hash
    pub amount : Paise
    pub stored : stored_amount total ≡ ok amount
    pub signature : Bytes
    pub signs :
        sign_payload rt private_key (
          quote_signing_payload
            (quote_of rt options input.mandate_id fresh now hash amount (categories_of lines)))
        ≡ ok signature
    pub inserted :
        insert_quote db (row_of options input fresh now lines amount hash key.kid signature)
        ≡ ok db'
    pub answered : signed ≡ record {
      quote = quote_of rt options input.mandate_id fresh now hash amount (categories_of lines);
      kid = key.kid;
      signature = to_hex signature;
    }

  issue_quote-Signs :
      (key : VerificationKey) (private_key : Bytes) (lines : List PricedLine) (total : ℤ)
      → issue_quote rt options input.mandate_id key private_key fresh now lines total db
        ≡ ok (signed, db')
      → Signs key private_key lines total
  unfolding issue_quote
  issue_quote-Signs key private_key lines total e =
      elim (>>=-Given (basket_hash rt (map quoted lines)) _ e) [
        | given hash digest e1 ↦ elim (>>=-Given (stored_amount total) _ e1) [
          | given amount stored e2 ↦ elim (>>=-Given (sign_payload rt private_key _) _ e2) [
            | given signature signs e3 ↦
                elim (>>=-Given
                  (insert_quote db
                    (row_of options input fresh now lines amount hash key.kid signature))
                  _ e3) [
                    | given store inserted e4 ↦
                        let same : store ≡ db' = ground (arith, e4) in
                        record {
                          hash = hash;
                          digest = digest;
                          amount = amount;
                          stored = stored;
                          signature = signature;
                          signs = signs;
                          inserted = inserted ∙ ap ok same;
                          answered = ground (arith, e4);
                        }
                  ]
          ]
        ]
      ]

  -- What a basket that was priced went through.
  pub record Issued : Type 0 where
    pub key : VerificationKey
    pub active : find_active_key db "quote" ≡ some key
    pub private_key : Bytes
    pub private : private_key_for db key.kid ≡ ok private_key
    pub mandate : LockedMandate
    pub known : lock_mandate db input.mandate_id ≡ some mandate
    pub lines : List PricedLine
    pub priced : priced_lines db options.merchant_id input.items ≡ ok lines
    pub total : ℤ
    pub summed : total_of lines ≡ some total
    pub in_scope :
        select (λ c. not (includes c mandate.allowed_categories)) (categories_of lines) ≡ []
    pub quote : Signs key private_key lines total

  pub price_basket-Issued : price_basket rt options input fresh now db ≡ ok (signed, db') → Issued
  unfolding price_basket
  price_basket-Issued e = elim (>>=-Given (or_throw (find_active_key db "quote") other) _ e) [
    | given key active e1 ↦ elim (>>=-Given (private_key_for db key.kid) _ e1) [
      | given private_key private e2 ↦
          elim (>>=-Given (or_throw (lock_mandate db input.mandate_id) other) _ e2) [
            | given mandate known e3 ↦
                elim (>>=-Given (priced_lines db options.merchant_id input.items) _ e3) [
                  | given lines priced e4 ↦
                      elim (>>=-Given (or_throw (total_of lines) other) _ e4) [
                        | given total summed e5 ↦
                            let (inside, issued) = if_empty-ok out_of_scope _ _ e5 in
                            record {
                              key = key;
                              active = or_throw-ok _ active;
                              private_key = private_key;
                              private = private;
                              mandate = mandate;
                              known = or_throw-ok _ known;
                              lines = lines;
                              priced = priced;
                              total = total;
                              summed = or_throw-ok _ summed;
                              in_scope = inside;
                              quote = issue_quote-Signs key private_key lines total issued;
                            }
                      ]
                ]
          ]
    ]
  ]
