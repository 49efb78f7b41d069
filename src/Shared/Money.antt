-- ===== src/Shared/Money.antt =====
-- shared/money.ts: amounts are whole paise, carried in signed payloads as decimal text.
use razorpay_hackathon.Base.{ℕ, ◌*◌, String}
use razorpay_hackathon.Shared.Text.{to_decimal}

-- `PaiseSchema` refuses a negative amount, and the tables check it again.
abbrev pub Paise : Type 0
Paise = ℕ

abbrev pub rupee : Paise
rupee = 100

unfoldable pub paise_to_canonical : Paise → String
paise_to_canonical value = to_decimal value

-- On a whole number of rupees; any other number is refused with an error.
unfoldable pub rupees : ℕ → Paise
rupees amount = amount * rupee
