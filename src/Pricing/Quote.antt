-- ===== src/Pricing/Quote.antt =====
-- quote.service.ts and quote.repository.ts: a basket is priced from the catalog and quoted to a mandate.
use razorpay_hackathon.Base.{
  ℕ, ◌+◌, String, Bool, false, not, ◌&&◌, ◌||◌, Option, none, some, List, [], ◌∷◌, ◌++◌, map, ltb,
  nat_eq, length, any, find, select, includes, ◌==◌, if◌then◌else◌,
}
use razorpay_hackathon.Shared.Text.{Bytes, to_hex, from_hex, text_le}
use razorpay_hackathon.Shared.Order.{sort_by}
use razorpay_hackathon.Shared.Money.{Paise, paise_to_canonical}
use razorpay_hackathon.Shared.Json.{
  JsNumber, JsonValue, JsonItems, nil, cons, array, object, member, end, text, number,
  canonical_bytes,
}
use razorpay_hackathon.Shared.Crypto.{Runtime, Date, sign_payload, verify_payload}
use razorpay_hackathon.Shared.Fault.{
  Fault, Result, ok, err, ◌>>=◌, or_throw, canonicalisation, unique_violation, check_violation,
  unknown_skus, out_of_scope, other,
}
use razorpay_hackathon.Store.Rows.{CatalogItem, QuoteLine, QuoteRow, VerificationKey, Db}
use razorpay_hackathon.Store.Reads.{lock_mandate, find_verification_key}
use razorpay_hackathon.Authorization.Request.{Quote, SignedQuote, quote_signing_payload, sort_texts}
use razorpay_hackathon.Grant.Identity.{find_active_key, private_key_for}
use razorpay_hackathon.Pricing.Amount.{ℤ, pos, negsuc, ◌+ℤ◌, line_amount}

pub record BasketItem : Type 0 where
  pub sku : String
  pub quantity : JsNumber

pub record PriceBasketInput : Type 0 where
  pub mandate_id : String
  pub items : List BasketItem

pub record QuoteServiceOptions : Type 0 where
  pub merchant_id : String
  pub quote_ttl_ms : ℕ

pub record PricedLine : Type 0 where
  pub sku : String
  pub quantity : JsNumber
  pub price_paise : Paise
  pub category : String

-- What `randomUUID` and `randomBytes` answer in one call.
pub record FreshQuote : Type 0 where
  pub quote_id : String
  pub nonce : String

abbrev pub price_lines : Db → String → List String → List CatalogItem
price_lines db merchant_id skus =
    select (λ c. c.merchant_id == merchant_id && (includes c.sku skus && c.active)) db.catalog

abbrev pub find_sku : List CatalogItem → String → Option CatalogItem
find_sku catalog sku = find (λ c. c.sku == sku) catalog

unfoldable pub lines_of : List CatalogItem → List BasketItem → Option (List PricedLine)
lines_of catalog [] = some []
lines_of catalog (item ∷ items) =
    let rest = lines_of catalog items in
    elim (find_sku catalog item.sku) [
      | none ↦ none
      | some entry ↦ elim rest [
        | none ↦ none
        | some lines ↦ some (
            record {
              sku = item.sku;
              quantity = item.quantity;
              price_paise = entry.price_paise;
              category = entry.category;
            }
            ∷ lines)
      ]
    ]

-- `if (refused.length > 0) throw …`
abbrev pub if_empty {ℓ} : {A : Type ℓ} → (List String → Fault) → List String → Result A → Result A
if_empty error [] result = result
if_empty error (s ∷ ss) result = err (error (s ∷ ss))

-- Where an item has no active entry, all that have none are named.
unfoldable pub priced_lines : Db → String → List BasketItem → Result (List PricedLine)
unfolding lines_of
priced_lines db merchant_id items =
    let skus = map (λ (item : BasketItem). item.sku) items in
    let catalog = price_lines db merchant_id skus in
    if_empty unknown_skus
      (select (λ sku. not (any (λ (c : CatalogItem). c.sku == sku) catalog)) skus)
      (or_throw (lines_of catalog items) other)

unfoldable pub total_of : List PricedLine → Option ℤ
unfolding line_amount ◌+ℤ◌
total_of [] = some (pos 0)
total_of (line ∷ lines) =
    let rest = total_of lines in
    elim (line_amount line.price_paise line.quantity) [
      | none ↦ none
      | some amount ↦ elim rest [ none ↦ none | some total ↦ some (amount +ℤ total) ]
    ]

-- `[...new Set(names)]`
abbrev pub distinct : List String → List String
distinct [] = []
distinct (s ∷ ss) = s ∷ select (λ t. not (t == s)) (distinct ss)

unfoldable pub categories_of : List PricedLine → List String
unfolding sort_texts
categories_of lines = sort_texts (distinct (map (λ (line : PricedLine). line.category) lines))

abbrev pub line_json : QuoteLine → JsonValue
line_json line = object (
    member "price_paise" (text (paise_to_canonical line.price_paise))
      (member "quantity" (number line.quantity) (member "sku" (text line.sku) end)))

abbrev pub items_json : List QuoteLine → JsonItems
items_json [] = nil
items_json (line ∷ lines) = cons (line_json line) (items_json lines)

abbrev pub sku_le : QuoteLine → QuoteLine → Bool
sku_le a b = text_le a.sku b.sku

abbrev pub quoted : PricedLine → QuoteLine
quoted line = record { sku = line.sku; quantity = line.quantity; price_paise = line.price_paise }

-- With the table's constraints; the mandate and the key that are named exist.
unfoldable pub insert_quote : Db → QuoteRow → Result Db
insert_quote db row =
    if not (nat_eq (length row.basket_hash) 32) || not (ltb row.issued_at row.expires_at)
    then err (check_violation "quotes")
    else if any (λ (q : QuoteRow). q.quote_id == row.quote_id || q.nonce == row.nonce) db.quotes
    then err (unique_violation "quotes")
    else ok (record db { quotes = db.quotes ++ row ∷ [] })

-- The table refuses a negative amount.
unfoldable pub stored_amount : ℤ → Result Paise
stored_amount (pos n) = ok n
stored_amount (negsuc n) = err (check_violation "quotes")

module _ (rt : Runtime) where
  unfoldable pub basket_hash : List QuoteLine → Result Bytes
  basket_hash lines = do
    bytes ← or_throw (canonical_bytes (array (items_json (sort_by sku_le lines)))) canonicalisation
    ok (rt.sha256 bytes)

  unfoldable pub quote_of :
      QuoteServiceOptions → String → FreshQuote → Date → Bytes → Paise → List String → Quote
  quote_of options mandate_id fresh now hash amount categories = record {
    quote_id = fresh.quote_id;
    mandate_id = mandate_id;
    merchant_id = options.merchant_id;
    basket_hash = to_hex hash;
    amount_paise = amount;
    categories = categories;
    nonce = fresh.nonce;
    issued_at = rt.iso_string now;
    expires_at = rt.iso_string (now + options.quote_ttl_ms);
  }

  -- The body from the total on.
  unfoldable pub issue_quote :
      QuoteServiceOptions
      → String
      → VerificationKey
      → Bytes
      → FreshQuote
      → Date
      → List PricedLine
      → ℤ
      → Db
      → Result (SignedQuote × Db)
  unfolding basket_hash quote_of insert_quote stored_amount categories_of
  issue_quote options mandate_id key private_key fresh now lines total db = do
    hash ← basket_hash (map quoted lines)
    amount ← stored_amount total
    let quote = quote_of options mandate_id fresh now hash amount (categories_of lines)
    signature ← sign_payload rt private_key (quote_signing_payload quote)
    db' ← insert_quote db (record {
      quote_id = fresh.quote_id;
      mandate_id = mandate_id;
      merchant_id = options.merchant_id;
      amount_paise = amount;
      categories = categories_of lines;
      basket_hash = hash;
      expires_at = now + options.quote_ttl_ms;
      consumed_at = none;
      consumed_by = none;
      nonce = fresh.nonce;
      issued_at = now;
      kid = key.kid;
      signature = signature;
      basket = map quoted lines;
    })
    ok (record { quote = quote; kid = key.kid; signature = to_hex signature }, db')

  -- `now` is `new Date()`, the time of the application.
  unfoldable pub price_basket :
      QuoteServiceOptions → PriceBasketInput → FreshQuote → Date → Db → Result (SignedQuote × Db)
  unfolding priced_lines total_of issue_quote categories_of
  price_basket options input fresh now db = do
    key ← or_throw (find_active_key db "quote") other
    private_key ← private_key_for db key.kid
    mandate ← or_throw (lock_mandate db input.mandate_id) other
    lines ← priced_lines db options.merchant_id input.items
    total ← or_throw (total_of lines) other
    if_empty out_of_scope
        (select (λ c. not (includes c mandate.allowed_categories)) (categories_of lines))
        (issue_quote options input.mandate_id key private_key fresh now lines total db)

  unfoldable pub verify_signature : SignedQuote → Db → Result Bool
  verify_signature signed db = elim (find_verification_key db signed.kid) [
    | none ↦ ok false
    | some key ↦
        if not (key.purpose == "quote")
        then ok false
        else verify_payload rt key.public_key (quote_signing_payload signed.quote)
            (from_hex signed.signature)
  ]

-- `basketFor` of quote.repository.ts, what a past quote priced; a reorder prices the same items.
unfoldable pub basket_for : Db → String → List BasketItem
basket_for db intent_id =
    elim (find (λ (q : QuoteRow). elim q.consumed_by [ none ↦ false | some id ↦ id == intent_id ])
      db.quotes) [
        | none ↦ []
        | some q ↦
            map (λ (line : QuoteLine). record { sku = line.sku; quantity = line.quantity }) q.basket
      ]
