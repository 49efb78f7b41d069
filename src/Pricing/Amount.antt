-- ===== src/Pricing/Amount.antt =====
-- The `bigint` amounts of quote.service.ts: a basket's total may be negative before it is stored.
use razorpay_hackathon.Base.{
  ℕ, ◌+◌, ◌-◌, ◌*◌, ◌≡◌, Option, none, some, leb, leb_iff, arith, if◌then◌else◌,
}
use razorpay_hackathon.Shared.Json.{JsNumber, nat, neg, fractional, non_finite}
use razorpay_hackathon.Shared.Money.{Paise}

-- `negsuc n` is -(n + 1).
pub data ℤ : Type 0 where
  pos negsuc : ℕ → ℤ

infixl 60 ◌+ℤ◌
unfoldable pub ◌+ℤ◌ : ℤ → ℤ → ℤ
pos a +ℤ pos b = pos (a + b)
pos a +ℤ negsuc b = if leb (b + 1) a then pos (a - (b + 1)) else negsuc (b - a)
negsuc a +ℤ pos b = if leb (a + 1) b then pos (b - (a + 1)) else negsuc (a - b)
negsuc a +ℤ negsuc b = negsuc (a + b + 1)

-- -n
abbrev minus : ℕ → ℤ
minus n = pos 0 +ℤ (if leb 1 n then negsuc (n - 1) else pos 0)

-- `pricePaise * BigInt(quantity)`; `BigInt` throws a RangeError at a number that is no integer.
unfoldable pub line_amount : Paise → JsNumber → Option ℤ
unfolding ◌+ℤ◌
line_amount price (nat n) = some (pos (price * n))
line_amount price (neg n) = some (minus (price * (n + 1)))
line_amount price fractional = none
line_amount price non_finite = none

-- What a quantity adds to an amount, and what it takes off.
abbrev pub charged : Paise → JsNumber → Paise
charged price (nat n) = price * n
charged price _ = 0

abbrev pub deducted : Paise → JsNumber → Paise
deducted price (neg n) = price * (n + 1)
deducted price _ = 0

-- An amount is the difference of two sums.
abbrev pub IsDifference : ℤ → Paise → Paise → Type 0
IsDifference (pos n) plus less = n + less ≡ plus
IsDifference (negsuc n) plus less = plus + n + 1 ≡ less

pub +ℤ-IsDifference :
    (a b : ℤ) (plus less plus' less' : Paise)
    → IsDifference a plus less
    → IsDifference b plus' less'
    → IsDifference (a +ℤ b) (plus + plus') (less + less')
unfolding ◌+ℤ◌
+ℤ-IsDifference (pos a) (pos b) plus less plus' less' e f = omega (arith, e, f)
+ℤ-IsDifference (pos a) (negsuc b) plus less plus' less' e f = ground (arith, leb_iff (b + 1) a)
+ℤ-IsDifference (negsuc a) (pos b) plus less plus' less' e f = ground (arith, leb_iff (a + 1) b)
+ℤ-IsDifference (negsuc a) (negsuc b) plus less plus' less' e f = omega (arith, e, f)

minus-IsDifference : (n : ℕ) → IsDifference (minus n) 0 n
unfolding ◌+ℤ◌
minus-IsDifference n = ground (arith, leb_iff 1 n)

pub line_amount-IsDifference :
    (price : Paise) (quantity : JsNumber) {amount : ℤ}
    → line_amount price quantity ≡ some amount
    → IsDifference amount (charged price quantity) (deducted price quantity)
unfolding line_amount
line_amount-IsDifference price (nat n) e = ground arith
line_amount-IsDifference price (neg n) e =
    let d = minus-IsDifference (price * (n + 1)) in ground arith
line_amount-IsDifference price fractional e = cc
line_amount-IsDifference price non_finite e = cc
