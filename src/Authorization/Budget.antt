-- ===== src/Authorization/Budget.antt =====
-- The budget of a mandate: what a purchase or its settlement may do to what is held or captured.
use razorpay_hackathon.Base.{
  ℕ, ◌+◌, ◌≤◌, String, ◌≡◌, refl, ap, ◌∙◌, inl, inr, Bool, true, ◌&&◌, some, List, [], ◌∷◌, arith,
  find, ◌==◌, if◌then◌else◌, Bool-cases,
}
use razorpay_hackathon.Shared.Text.{Bytes}
use razorpay_hackathon.Shared.Money.{Paise}
use razorpay_hackathon.Store.Rows.{LockedMandate, Reservation, ReservationState, ReleaseReason, Db}
use razorpay_hackathon.Store.Reads.{sum_reserved_and_captured, counts, sum_of, is_held}
use razorpay_hackathon.Store.Writes.{
  update_where, headed_by, mark_revoked, release_where, capture_reservation,
}
use razorpay_hackathon.Store.Updated.{find-update_related}

-- The abstract budget: a move reserves an amount that the limit has room for, or adds nothing.
pub data Move (limit : Paise) : Paise → Paise → Type 0 where
  reserve : (before amount : Paise) → before + amount ≤ limit → Move limit before (before + amount)
  relax : (before after : Paise) → after ≤ before → Move limit before after

pub Move-le :
    {limit before after : Paise} → Move limit before after → before ≤ limit → after ≤ limit
Move-le (reserve before amount room) h = room
Move-le (relax before after less) h = omega (arith, less, h)

-- The store holds the mandate, with these limits.
pub record HasLimits (id : String) (window : ℕ) (limit : Paise) (mandates : List LockedMandate)
    : Type 0 where
  pub mandate : LockedMandate
  pub known : find (λ (m : LockedMandate). m.mandate_id == id) mandates ≡ some mandate
  pub window_is : mandate.cumulative_window ≡ window
  pub limit_is : mandate.cumulative_paise ≡ limit

abbrev SameLimits : LockedMandate → LockedMandate → Type 0
SameLimits m later =
    (later.cumulative_window ≡ m.cumulative_window) × (later.cumulative_paise ≡ m.cumulative_paise)

-- An update that leaves the identifiers and the limits keeps the limits.
HasLimits-update :
    (id : String) (q : LockedMandate → Bool) (f : LockedMandate → LockedMandate) (window : ℕ)
    (limit : Paise) (mandates : List LockedMandate)
    → ((m : LockedMandate) → ((f m).mandate_id ≡ m.mandate_id) × SameLimits m (f m))
    → HasLimits id window limit mandates
    → HasLimits id window limit (update_where q f mandates)
HasLimits-update id q f window limit mandates keeps h =
    let (later, found, same) =
      find-update_related SameLimits (λ (m : LockedMandate). m.mandate_id == id) q f mandates
        {x = h.mandate} (λ m. (refl, refl))
        (λ m e. (ap (λ (key : String). key == id) (keeps m).0, (keeps m).1)) h.known in
    record {
      mandate = later;
      known = found;
      window_is = same.0 ∙ h.window_is;
      limit_is = same.1 ∙ h.limit_is;
    }

pub HasLimits-headed :
    (id other : String) (seq : ℕ) (hash : Bytes) (window : ℕ) (limit : Paise)
    (mandates : List LockedMandate)
    → HasLimits id window limit mandates
    → HasLimits id window limit
        (update_where (λ m. m.mandate_id == other) (headed_by seq hash) mandates)
HasLimits-headed id other seq hash window limit mandates =
    HasLimits-update id (λ m. m.mandate_id == other) (headed_by seq hash) window limit mandates
      (λ m. (refl, (refl, refl)))

pub HasLimits-revoked :
    (id : String) (window : ℕ) (limit : Paise) (db : Db) (other : String)
    → HasLimits id window limit db.mandates
    → HasLimits id window limit (mark_revoked db other).mandates
HasLimits-revoked id window limit db other =
    HasLimits-update id (λ m. m.mandate_id == other) _ window limit db.mandates
      (λ m. (refl, (refl, refl)))

-- An update adds nothing to a sum where no updated row counts for more.
sum_of-update_le :
    (p q : Reservation → Bool) (f : Reservation → Reservation) (rs : List Reservation)
    → ((r : Reservation)
        → q r ≡ true
        → (if p (f r) then (f r).amount_paise else 0) ≤ (if p r then r.amount_paise else 0))
    → sum_of p (update_where q f rs) ≤ sum_of p rs
sum_of-update_le p q f [] less = omega arith
sum_of-update_le p q f (r ∷ rs) less =
    let rest = sum_of-update_le p q f rs less in
    elim (Bool-cases (q r)) [
      | inl updated ↦
          let here = less r updated in rw (updated, if◌then◌else◌) (omega (arith, here, rest))
      | inr left ↦ rw (left, if◌then◌else◌) (omega (arith, rest))
    ]

-- Time that passes adds nothing.
pub sum_of-later :
    (id : String) (window now later : ℕ) (rs : List Reservation)
    → now ≤ later
    → sum_of (counts id window later) rs ≤ sum_of (counts id window now) rs
sum_of-later id window now later [] h = omega arith
sum_of-later id window now later (r ∷ rs) h = ground (arith, sum_of-later id window now later rs h)

pub sum_of-release :
    (id : String) (window : ℕ) (db : Db) (p : ReservationState → Bool) (intent_id : String)
    (reason : ReleaseReason)
    → sum_of (counts id window db.now) (release_where db p intent_id reason).reservations
      ≤ sum_of (counts id window db.now) db.reservations
sum_of-release id window db p intent_id reason =
    sum_of-update_le (counts id window db.now) (λ r. r.intent_id == intent_id && p r.state) _
      db.reservations (λ r h. ground arith)

-- An update changes no sum where every updated row counts for what it did.
sum_of-update_same :
    (p q : Reservation → Bool) (f : Reservation → Reservation) (rs : List Reservation)
    → ((r : Reservation)
        → q r ≡ true
        → (if p (f r) then (f r).amount_paise else 0) ≡ (if p r then r.amount_paise else 0))
    → sum_of p (update_where q f rs) ≡ sum_of p rs
sum_of-update_same p q f [] same = refl
sum_of-update_same p q f (r ∷ rs) same =
    let rest = sum_of-update_same p q f rs same in
    elim (Bool-cases (q r)) [
      | inl updated ↦
          let here = same r updated in rw (updated, if◌then◌else◌) (omega (arith, here, rest))
      | inr left ↦ rw (left, if◌then◌else◌) (omega (arith, rest))
    ]

-- A capture changes nothing of what is held or captured, of whichever mandate and in whatever window:
-- the captured amount stays counted.
pub capture_reservation-sum :
    (id : String) (window : ℕ) (db : Db) (intent_id : String)
    → sum_reserved_and_captured (capture_reservation db intent_id) id window
      ≡ sum_reserved_and_captured db id window
capture_reservation-sum id window db intent_id =
    sum_of-update_same (counts id window db.now) (λ r. r.intent_id == intent_id && is_held r.state)
      _ db.reservations (λ r h. ground (arith, h))

pub sum_of-capture :
    (id : String) (window : ℕ) (db : Db) (intent_id : String)
    → sum_of (counts id window db.now) (capture_reservation db intent_id).reservations
      ≤ sum_of (counts id window db.now) db.reservations
sum_of-capture id window db intent_id =
    let same = capture_reservation-sum id window db intent_id in omega (arith, same)
