-- ===== src/Authorization/Cap.antt =====
-- The spending cap of a mandate: sums over reservations, and what one run under the lock does to them.
use razorpay_hackathon.Base.{
  ℕ, ◌+◌, ◌≤◌, String, ◌≡◌, Bool, ◌&&◌, List, [], ◌∷◌, ◌++◌, arith, length, leb, All, select,
  if◌then◌else◌, ==_iff,
}
use razorpay_hackathon.Shared.Crypto.{Date}
use razorpay_hackathon.Store.Rows.{Reservation}
use razorpay_hackathon.Store.Reads.{counts, sum_of}

-- Reservations of the mandate that count at a time `t`: held or captured, created up to `t` and less
-- than `window` before it.
abbrev pub spent_at : String → ℕ → Date → Reservation → Bool
spent_at mandate_id window t r = counts mandate_id window t r && leb r.created_at t

abbrev pub CreatedBy : Date → List Reservation → Type 0
CreatedBy now rs = All (λ r. r.created_at ≤ now) rs

pub sum_of-append :
    (p : Reservation → Bool) (rs : List Reservation) (r : Reservation)
    → sum_of p (rs ++ r ∷ []) ≡ sum_of p rs + (if p r then r.amount_paise else 0)
sum_of-append p [] r = omega arith
sum_of-append p (x ∷ rs) r = omega (arith, sum_of-append p rs r)

pub length-select-append :
    (p : Reservation → Bool) (rs : List Reservation) (r : Reservation)
    → length (select p (rs ++ r ∷ [])) ≤ length (select p rs) + 1
length-select-append p [] r = ground arith
length-select-append p (x ∷ rs) r = ground (arith, length-select-append p rs r)

-- What counts at a later time, of reservations made by now, counts now.
sum_at-le_sum_now :
    (id : String) (window now t : ℕ) (rs : List Reservation)
    → now ≤ t
    → sum_of (spent_at id window t) rs ≤ sum_of (counts id window now) rs
sum_at-le_sum_now id window now t [] h = omega arith
sum_at-le_sum_now id window now t (r ∷ rs) h =
    ground (arith, sum_at-le_sum_now id window now t rs h)

-- Adding a reservation that was admitted now keeps the sum of every window within the cap.
pub sum_at-append :
    (id : String) (window limit now t : ℕ) (rs : List Reservation) (r : Reservation)
    → r.created_at ≡ now
    → (r.mandate_id ≡ id → sum_of (counts id window now) rs + r.amount_paise ≤ limit)
    → sum_of (spent_at id window t) rs ≤ limit
    → sum_of (spent_at id window t) (rs ++ r ∷ []) ≤ limit
sum_at-append id window limit now t rs r at_now admitted before = ground (
  arith,
  sum_of-append (spent_at id window t) rs r,
  sum_at-le_sum_now id window now t rs,
  ==_iff r.mandate_id id,
)
