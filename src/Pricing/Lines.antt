-- ===== src/Pricing/Lines.antt =====
-- What the lines of a basket say of the catalog and of the scope.
use razorpay_hackathon.Base.{
  ◌+◌, String, ◌≡◌, refl, sym, ap, ◌∙◌, ◌≢◌, inl, inr, Bool, true, false, not, ◌&&◌, ◌||◌, Option,
  none, some, List, [], ◌∷◌, map, arith, find, select, includes, ◌==◌, ==_iff, ==_refl, Bool-cases,
  Option-cases, All,
}
use razorpay_hackathon.Shared.Money.{Paise}
use razorpay_hackathon.Shared.Json.{JsNumber}
use razorpay_hackathon.Store.Rows.{CatalogItem, Db}
use razorpay_hackathon.Authorization.Request.{sort_texts, insert_text}
use razorpay_hackathon.Pricing.Amount.{
  ℤ, ◌+ℤ◌, line_amount, charged, deducted, IsDifference, +ℤ-IsDifference, line_amount-IsDifference,
}
use razorpay_hackathon.Pricing.Quote.{
  BasketItem, PricedLine, find_sku, lines_of, total_of, distinct, categories_of,
}

-- The merchant's active item of a sku.
abbrev pub active_item : Db → String → String → Option CatalogItem
active_item db merchant_id sku =
    find (λ c. c.merchant_id == merchant_id && (c.sku == sku && c.active)) db.catalog

-- What the items of a basket cost by the catalog, and what is taken off for quantities below zero.
abbrev pub amount_by : (Paise → JsNumber → Paise) → Db → String → List BasketItem → Paise
amount_by f db merchant_id [] = 0
amount_by f db merchant_id (item ∷ items) =
    (elim (active_item db merchant_id item.sku) [
      | none ↦ 0
      | some c ↦ f c.price_paise item.quantity
    ])
    + amount_by f db merchant_id items

-- An item that the merchant sells in a category that the mandate allows.
abbrev pub IsSold : Db → String → List String → BasketItem → Type 0
IsSold db merchant_id allowed item =
    (c : CatalogItem) × (active_item db merchant_id item.sku ≡ some c)
    × (includes c.category allowed ≡ true)

includes-insert_text :
    (c s : String) (ts : List String) → includes c (insert_text s ts) ≡ (s == c || includes c ts)
unfolding insert_text
includes-insert_text c s [] = refl
includes-insert_text c s (t ∷ ts) = ground (arith, includes-insert_text c s ts)

includes-sort_texts : (c : String) (ts : List String) → includes c (sort_texts ts) ≡ includes c ts
unfolding sort_texts
includes-sort_texts c [] = refl
includes-sort_texts c (t ∷ ts) =
    includes-insert_text c t (sort_texts ts) ∙ ap (λ b. t == c || b) (includes-sort_texts c ts)

includes-select_other :
    (c s : String) (ts : List String)
    → s ≢ c
    → includes c (select (λ t. not (t == s)) ts) ≡ includes c ts
includes-select_other c s [] ne = refl
includes-select_other c s (t ∷ ts) ne =
    ground (arith, includes-select_other c s ts ne, ==_iff t s, ==_iff t c)

includes-distinct : (c : String) (ts : List String) → includes c (distinct ts) ≡ includes c ts
includes-distinct c [] = refl
includes-distinct c (t ∷ ts) = elim (Bool-cases (t == c)) [
  | inl same ↦ rw same refl
  | inr else' ↦ rw else' (
      includes-select_other c t (distinct ts) (λ e. ground (arith, ==_iff t c))
      ∙ includes-distinct c ts)
]

select-none :
    (p : String → Bool) (c : String) (ts : List String)
    → select p ts ≡ []
    → includes c ts ≡ true
    → p c ≡ false
select-none p c [] e i = cc
select-none p c (t ∷ ts) e i = ground (arith, select-none p c ts, ==_iff t c)

pub categories-allowed :
    (allowed : List String) (lines : List PricedLine)
    → select (λ c. not (includes c allowed)) (categories_of lines) ≡ []
    → (c : String) → includes c (map (λ (line : PricedLine). line.category) lines) ≡ true
    → includes c allowed ≡ true
unfolding categories_of
categories-allowed allowed lines e c i =
    let cs = map (λ (line : PricedLine). line.category) lines in
    let listed = includes-sort_texts c (distinct cs) ∙ includes-distinct c cs ∙ i in
    let kept = select-none (λ n. not (includes n allowed)) c (categories_of lines) e listed in
    ground arith

-- The lookup among the items of a query is the lookup in the table.
pub find_sku-price_lines :
    (rows : List CatalogItem) (merchant_id sku : String) (skus : List String)
    → includes sku skus ≡ true
    → find_sku
        (select (λ c. c.merchant_id == merchant_id && (includes c.sku skus && c.active)) rows)
        sku
      ≡ find (λ c. c.merchant_id == merchant_id && (c.sku == sku && c.active)) rows
find_sku-price_lines [] merchant_id sku skus i = refl
find_sku-price_lines (c ∷ rows) merchant_id sku skus i =
    let rest = find_sku-price_lines rows merchant_id sku skus i in
    elim (Bool-cases (c.sku == sku)) [
      | inl same ↦
          let listed : includes c.sku skus ≡ true = rw ((==_iff c.sku sku).0 same) i in
          rw (same, listed) (ground (arith, rest, same))
      | inr apart ↦ ground (arith, rest, apart)
    ]

module _ (db : Db) (merchant_id : String) (catalog : List CatalogItem) where
  abbrev pub IsListed : BasketItem → Type 0
  IsListed item = find_sku catalog item.sku ≡ active_item db merchant_id item.sku

  pub record LinesFor (items : List BasketItem) (lines : List PricedLine) : Type 0 where
    pub amounts :
        (total : ℤ)
        → total_of lines ≡ some total
        → IsDifference total
            (amount_by charged db merchant_id items)
            (amount_by deducted db merchant_id items)
    pub sold :
        (allowed : List String)
        → ((c : String)
            → includes c (map (λ (line : PricedLine). line.category) lines) ≡ true
            → includes c allowed ≡ true)
        → All (IsSold db merchant_id allowed) items

  amounts-cons :
      (item : BasketItem) (items : List BasketItem) (entry : CatalogItem) (rest : List PricedLine)
      → active_item db merchant_id item.sku ≡ some entry
      → (total : ℤ) → LinesFor items rest
      → total_of (
          record {
            sku = item.sku;
            quantity = item.quantity;
            price_paise = entry.price_paise;
            category = entry.category;
          }
          ∷ rest)
        ≡ some total
      → IsDifference total
          (amount_by charged db merchant_id (item ∷ items))
          (amount_by deducted db merchant_id (item ∷ items))
  unfolding total_of
  amounts-cons item items entry rest sells total ih e =
      elim (Option-cases (line_amount entry.price_paise item.quantity)) [
        | inl none' ↦ ground arith
        | inr (amount, ea) ↦ elim (Option-cases (total_of rest)) [
          | inl none' ↦ ground arith
          | inr (more, em) ↦
              let own = line_amount-IsDifference entry.price_paise item.quantity ea in
              let rest' = ih.amounts more em in
              let same : total ≡ amount +ℤ more = ground arith in
              rw (same, sells) (+ℤ-IsDifference amount more _ _ _ _ own rest')
        ]
      ]

  pub lines_of-LinesFor :
      (items : List BasketItem) {lines : List PricedLine}
      → All IsListed items
      → lines_of catalog items ≡ some lines
      → LinesFor items lines
  unfolding lines_of total_of
  lines_of-LinesFor [] {lines = lines} listed e =
      let same : lines ≡ [] = ground arith in
      rw same (record { amounts = λ total e. ground arith; sold = λ allowed a. tt })
  lines_of-LinesFor (item ∷ items) {lines = lines} (here, listed) e =
      elim (Option-cases (find_sku catalog item.sku)) [
        | inl missing ↦ ground arith
        | inr (entry, found) ↦ elim (Option-cases (lines_of catalog items)) [
          | inl none' ↦ ground arith
          | inr (rest, er) ↦
              let ih = lines_of-LinesFor items {lines = rest} listed er in
              let line : PricedLine = record {
                sku = item.sku;
                quantity = item.quantity;
                price_paise = entry.price_paise;
                category = entry.category;
              } in
              let same : lines ≡ line ∷ rest = ground arith in
              let sells : active_item db merchant_id item.sku ≡ some entry = sym here ∙ found in
              rw same (record {
                amounts = λ total et. amounts-cons item items entry rest sells total ih et;
                sold = λ allowed inside. (
                  (entry, sells, inside entry.category (rw (==_refl entry.category) refl)),
                  ih.sold allowed (λ c i. inside c (rw i (ground arith))),
                );
              })
        ]
      ]
