-- ===== src/Pricing/Promised.antt =====
-- What a quote promises: the catalog's prices, the mandate's scope and name, and a signature that holds.
use mathlib.Core.Path.{subst}
use razorpay_hackathon.Base.{
  ℕ, ◌+◌, String, ◌≡◌, refl, sym, ap, ◌∙◌, find, find_holds, Bool, true, inl, inr, ◌||◌, none, some,
  List, [], ◌∷◌, ◌++◌, map, arith, any, includes, ◌==◌, ==_iff, ==_refl, Bool-cases, All, length,
  ◌<◌,
}
use razorpay_hackathon.Shared.Text.{Bytes, to_hex, from_hex}
use razorpay_hackathon.Shared.Hex.{from_hex-to_hex}
use razorpay_hackathon.Shared.Crypto.{
  Runtime, Date, sign_payload, sign_bytes, verify_payload, verify_bytes,
}
use razorpay_hackathon.Shared.Json.{JsonValue, canonical_bytes}
use razorpay_hackathon.Shared.Fault.{ok, unknown_skus, >>=-Given, given, canonicalisation, or_throw}
use razorpay_hackathon.Store.Rows.{AgentIdentity, QuoteRow, LockedMandate, VerificationKey, Db}
use razorpay_hackathon.Store.Reads.{lock_mandate, find_agent, find_quote, find_verification_key}
use razorpay_hackathon.Store.Updated.{find-append_new, any-narrower}
use razorpay_hackathon.Authorization.Request.{
  SignedIntent, SignedQuote, quote_signing_payload, intent_signing_payload,
}
use razorpay_hackathon.Authorization.Stateless.{run_stateless_checks}
use razorpay_hackathon.Authorization.Authentic.{IsBound, run_stateless_checks-none_iff}
use razorpay_hackathon.Authorization.Service.{public_key_of, quote_key_of}
use razorpay_hackathon.Grant.Identity.{is_active_for, find_active_key, private_key_for}
use razorpay_hackathon.Pricing.Amount.{ℤ, pos, negsuc, charged, deducted, IsDifference}
use razorpay_hackathon.Pricing.Quote.{
  BasketItem, PriceBasketInput, QuoteServiceOptions, FreshQuote, price_lines, priced_lines,
  insert_quote, stored_amount, price_basket, verify_signature, quote_of,
}
use razorpay_hackathon.Pricing.Lines.{
  amount_by, IsSold, categories-allowed, find_sku-price_lines, IsListed, lines_of-LinesFor,
}
use razorpay_hackathon.Pricing.Issued.{price_basket-Issued, row_of, if_empty-ok, or_throw-ok}

-- Each item of a basket is among the skus that are looked up.
All-IsListed :
    (db : Db) (merchant_id : String) (skus : List String) (items : List BasketItem)
    → ((sku : String)
        → includes sku (map (λ (item : BasketItem). item.sku) items) ≡ true
        → includes sku skus ≡ true)
    → All (IsListed db merchant_id (price_lines db merchant_id skus)) items
All-IsListed db merchant_id skus [] covered = tt
All-IsListed db merchant_id skus (item ∷ items) covered = (
  find_sku-price_lines db.catalog merchant_id item.sku skus
      (covered item.sku (rw (==_refl item.sku) refl)),
  All-IsListed db merchant_id skus items (λ sku i. covered sku (rw i (ground arith))),
)

stored_amount-IsDifference :
    (total : ℤ) (plus less : ℕ) {amount : ℕ}
    → IsDifference total plus less
    → stored_amount total ≡ ok amount
    → amount + less ≡ plus
unfolding stored_amount
stored_amount-IsDifference (pos n) plus less d e = ground arith
stored_amount-IsDifference (negsuc n) plus less d e = cc

find_active_key-purpose :
    (db : Db) (purpose : String) {k : VerificationKey}
    → find_active_key db purpose ≡ some k
    → k.purpose ≡ purpose
find_active_key-purpose db purpose {k = k} e =
    let holds = find_holds (is_active_for purpose) db.keys k e in
    ground (arith, holds, ==_iff k.purpose purpose)

insert_quote-find :
    (db : Db) (row : QuoteRow) {db' : Db}
    → insert_quote db row ≡ ok db'
    → find_quote db' row.quote_id ≡ some row
unfolding insert_quote
insert_quote-find db row {db' = db'} e =
    let taken : QuoteRow → Bool = λ q. q.quote_id == row.quote_id || q.nonce == row.nonce in
    let named : QuoteRow → Bool = λ q. q.quote_id == row.quote_id in
    elim (Bool-cases (any taken db.quotes)) [
      | inl twice ↦ ground (arith, twice)
      | inr new ↦
          let stored : db' ≡ record db { quotes = db.quotes ++ row ∷ [] } = ground (arith, new) in
          let free = any-narrower named taken db.quotes (λ y h. rw h refl) new in
          rw stored (find-append_new named db.quotes row free (==_refl row.quote_id))
    ]

insert_quote-keys :
    (db : Db) (row : QuoteRow) {db' : Db} → insert_quote db row ≡ ok db' → db'.keys ≡ db.keys
unfolding insert_quote
insert_quote-keys db row e = ground arith

-- The law of Ed25519 for a pair of raw keys: what the private key signs, the public key verifies.
pub record IsKeyPair (rt : Runtime) (public_key private_key : Bytes) : Type 0 where
  pub raw : length public_key ≡ 32
  pub verifies : (m : Bytes) → rt.ed25519_verify public_key m (rt.ed25519_sign private_key m) ≡ true
  pub bytes : (m : Bytes) → All (λ b. b < 256) (rt.ed25519_sign private_key m)

-- The active quote key of the store is a pair, and its `kid` names it alone, as the primary key has it.
pub record HasQuoteKey (rt : Runtime) (db : Db) : Type 0 where
  pub key : VerificationKey
  pub private_key : Bytes
  pub active : find_active_key db "quote" ≡ some key
  pub named : find_verification_key db key.kid ≡ some key
  pub private : private_key_for db key.kid ≡ ok private_key
  pub pair : IsKeyPair rt key.public_key private_key

verify_payload-sign_payload :
    (rt : Runtime) (public_key private_key : Bytes) (payload : JsonValue) {signature : Bytes}
    → IsKeyPair rt public_key private_key
    → sign_payload rt private_key payload ≡ ok signature
    → verify_payload rt public_key payload (from_hex (to_hex signature)) ≡ ok true
unfolding sign_payload verify_payload sign_bytes verify_bytes
verify_payload-sign_payload rt public_key private_key payload {signature = signature} pair e =
    elim (>>=-Given (or_throw (canonical_bytes payload) canonicalisation) _ e) [
      | given bytes canonical signs ↦
          let same : rt.ed25519_sign private_key bytes ≡ signature = ground (arith, signs) in
          let back : from_hex (to_hex signature) ≡ signature =
            from_hex-to_hex signature (subst (All (λ b. b < 256)) same (pair.bytes bytes)) in
          let holds : rt.ed25519_verify public_key bytes signature ≡ true =
            ap (rt.ed25519_verify public_key bytes) (sym same) ∙ pair.verifies bytes in
          rw (canonical, back) (ground (arith, pair.raw, holds))
    ]

module _ (rt : Runtime) (options : QuoteServiceOptions) (input : PriceBasketInput)
    (fresh : FreshQuote) (now : Date) (db : Db) where
  -- A basket that was priced is the catalog's price for it: its mandate exists, every item is an
  -- active one of the merchant in a category that the mandate allows, and the quoted amount is the
  -- sum of the catalog's prices times the quantities, of which quantities below zero take off.
  pub price_basket-amount :
      {signed : SignedQuote} {db' : Db}
      → price_basket rt options input fresh now db ≡ ok (signed, db')
      → (m : LockedMandate) × (lock_mandate db input.mandate_id ≡ some m)
        × All (IsSold db options.merchant_id m.allowed_categories) input.items
        × (signed.quote.amount_paise + amount_by deducted db options.merchant_id input.items
            ≡ amount_by charged db options.merchant_id input.items)
  unfolding priced_lines quote_of
  price_basket-amount {signed = signed} {db' = db'} e =
      let i = price_basket-Issued rt options input fresh now db signed db' e in
      let q = i.quote in
      let skus = map (λ (item : BasketItem). item.sku) input.items in
      let listed = All-IsListed db options.merchant_id skus input.items (λ sku h. h) in
      let (none_missing, all_lines) = if_empty-ok unknown_skus _ _ i.priced in
      let lines =
        lines_of-LinesFor db options.merchant_id (price_lines db options.merchant_id skus)
          input.items {lines = i.lines} listed (or_throw-ok _ all_lines) in
      let amounts = lines.amounts i.total i.summed in
      (
        i.mandate,
        i.known,
        lines.sold i.mandate.allowed_categories
            (categories-allowed i.mandate.allowed_categories i.lines i.in_scope),
        rw (ap (λ (s : SignedQuote). s.quote.amount_paise) q.answered)
            (stored_amount-IsDifference i.total _ _ amounts q.stored),
      )

  -- The quote of a basket that was priced names the mandate that it was asked for, and is in the
  -- store under its own id, not yet consumed, with the mandate, amount, categories, basket and
  -- end of its signed form.
  pub price_basket-find_quote :
      {signed : SignedQuote} {db' : Db}
      → price_basket rt options input fresh now db ≡ ok (signed, db')
      → (row : QuoteRow) × (find_quote db' signed.quote.quote_id ≡ some row)
        × (row.consumed_at ≡ none)
        × (signed.quote.mandate_id ≡ input.mandate_id)
        × (row.mandate_id ≡ input.mandate_id)
        × (row.amount_paise ≡ signed.quote.amount_paise)
        × (row.categories ≡ signed.quote.categories)
        × (to_hex row.basket_hash ≡ signed.quote.basket_hash)
        × (rt.iso_string row.expires_at ≡ signed.quote.expires_at)
  unfolding quote_of
  price_basket-find_quote {signed = signed} {db' = db'} e =
      let i = price_basket-Issued rt options input fresh now db signed db' e in
      let q = i.quote in
      let row = row_of options input fresh now i.lines q.amount q.hash i.key.kid q.signature in
      rw q.answered
        (row, insert_quote-find db row q.inserted, refl, refl, refl, refl, refl, refl, refl)

  module _ (own : HasQuoteKey rt db) where
    price_basket-verify_payload :
        {signed : SignedQuote} {db' : Db}
        → price_basket rt options input fresh now db ≡ ok (signed, db')
        → (k : VerificationKey) × (find_verification_key db' signed.kid ≡ some k)
          × (k.purpose ≡ "quote")
          × (verify_payload rt k.public_key
                (quote_signing_payload signed.quote)
                (from_hex signed.signature)
              ≡ ok true)
    price_basket-verify_payload {signed = signed} {db' = db'} e =
        let i = price_basket-Issued rt options input fresh now db signed db' e in
        let q = i.quote in
        let same : own.key ≡ i.key = ground (arith, own.active, i.active) in
        let named : find_verification_key db i.key.kid ≡ some i.key =
          subst (λ (k : VerificationKey). find_verification_key db k.kid ≡ some k) same own.named in
        let secret : private_key_for db i.key.kid ≡ ok own.private_key =
          subst (λ (k : VerificationKey). private_key_for db k.kid ≡ ok own.private_key) same
            own.private in
        let same_secret : own.private_key ≡ i.private_key = ground (arith, secret, i.private) in
        let pair : IsKeyPair rt i.key.public_key i.private_key =
          subst (IsKeyPair rt i.key.public_key) same_secret (
            subst (λ (k : VerificationKey). IsKeyPair rt k.public_key own.private_key) same
              own.pair) in
        let keys = insert_quote-keys db _ q.inserted in
        rw q.answered (
          i.key,
          ap (find (λ (k : VerificationKey). k.kid == i.key.kid)) keys ∙ named,
          find_active_key-purpose db "quote" i.active,
          verify_payload-sign_payload rt i.key.public_key i.private_key _ pair q.signs,
        )

    -- A quote that was priced verifies on the store that pricing left, if the active quote
    -- key of the store is a pair of Ed25519 keys and its `kid` names it alone.
    pub verify_signature-price_basket :
        {signed : SignedQuote} {db' : Db}
        → price_basket rt options input fresh now db ≡ ok (signed, db')
        → verify_signature rt signed db' ≡ ok true
    unfolding verify_signature
    verify_signature-price_basket {signed = signed} {db' = db'} e =
        let (k, found, purpose, verifies) = price_basket-verify_payload e in
        rw (found, verify_signature) (ground (arith, purpose, verifies, ==_iff k.purpose "quote"))

    -- A quote that was priced passes the stateless checks, on the store that pricing left, in every
    -- request that carries it with an intent that a known agent signed and that is bound to it:
    -- neither of the two expired, and the mandate, amount, basket and id the quote's. The active
    -- quote key of the store is a pair of Ed25519 keys, and its `kid` names it alone.
    pub run_stateless_checks-price_basket :
        {signed : SignedQuote} {db' : Db}
        → price_basket rt options input fresh now db ≡ ok (signed, db')
        → (intent : SignedIntent) (agent : AgentIdentity) (later : Date)
        → find_agent db' intent.agent_id ≡ some agent
        → verify_payload rt agent.public_key
            (intent_signing_payload intent.intent)
            (from_hex intent.signature)
          ≡ ok true
        → IsBound rt intent.intent signed.quote later
        → run_stateless_checks rt
            (record { signed_intent = intent; signed_quote = signed })
            (record {
              agent_public_key = public_key_of (find_agent db' intent.agent_id);
              quote_public_key = quote_key_of (find_verification_key db' signed.kid);
            })
            later
          ≡ ok none
    run_stateless_checks-price_basket {signed = signed} {db' = db'} e intent agent later known signs
          bound =
        let (k, found, purpose, verifies) = price_basket-verify_payload e in
        (run_stateless_checks-none_iff rt _ _ later).1 (record {
          agent_key = agent.public_key;
          quote_key = k.public_key;
          agent_known = ap public_key_of known;
          quote_known = ap quote_key_of found;
          intent_signed = signs;
          quote_signed = verifies;
          bound = bound;
        })
