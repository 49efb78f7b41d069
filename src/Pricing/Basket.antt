-- ===== src/Pricing/Basket.antt =====
-- The hash of a basket does not depend on the order in which its items are listed.
use mathlib.Core.List.{Permᴰ}
use razorpay_hackathon.Base.{◌≡◌, refl, ◌≢◌, List, [], ◌∷◌, All}
use razorpay_hackathon.Shared.Text.{utf16}
use razorpay_hackathon.Shared.Order.{
  IsApart, IsDistinct, sort_by-perm, text_le-apart, text_le-IsLinear,
}
use razorpay_hackathon.Shared.Crypto.{Runtime}
use razorpay_hackathon.Store.Rows.{QuoteLine}
use razorpay_hackathon.Pricing.Quote.{basket_hash, sku_le}

-- No two lines have the same sku, as texts of code units.
abbrev HasDistinctSkus : List QuoteLine → Type 0
HasDistinctSkus [] = Unit
HasDistinctSkus (line ∷ lines) =
    All (λ (other : QuoteLine). utf16 line.sku ≢ utf16 other.sku) lines × HasDistinctSkus lines

All-IsApart :
    (line : QuoteLine) (lines : List QuoteLine)
    → All (λ (other : QuoteLine). utf16 line.sku ≢ utf16 other.sku) lines
    → All (IsApart sku_le line) lines
All-IsApart line [] differ = tt
All-IsApart line (other ∷ lines) (here, differ) =
    (text_le-apart line.sku other.sku here, All-IsApart line lines differ)

HasDistinctSkus-IsDistinct :
    (lines : List QuoteLine) → HasDistinctSkus lines → IsDistinct sku_le lines
HasDistinctSkus-IsDistinct [] differ = tt
HasDistinctSkus-IsDistinct (line ∷ lines) (here, differ) =
    (All-IsApart line lines here, HasDistinctSkus-IsDistinct lines differ)

-- Two lists of the same lines, in whatever order, have the same basket hash, or fail with the same
-- error, if no two lines have the same sku.
pub basket_hash-perm :
    (rt : Runtime) (lines others : List QuoteLine)
    → Permᴰ lines others
    → HasDistinctSkus lines
    → basket_hash rt lines ≡ basket_hash rt others
unfolding basket_hash
basket_hash-perm rt lines others reordered differ =
    rw
      (sort_by-perm sku_le (text_le-IsLinear (λ (line : QuoteLine). line.sku)) reordered
        (HasDistinctSkus-IsDistinct lines differ))
      refl
