-- ===== src/Settlement/Settled.antt =====
-- What a transaction after an authorisation may do to the reservations: capture, release, or leave
-- them; it leaves the clock and the mandates.
use razorpay_hackathon.Base.{String, Bool, ◌≡◌, refl, sym, ap, ◌∙◌}
use razorpay_hackathon.Shared.Crypto.{Runtime}
use razorpay_hackathon.Shared.Fault.{ok}
use razorpay_hackathon.Ledger.Entry.{StoredEntry, LedgerAppend}
use razorpay_hackathon.Store.Rows.{ReservationState, ReleaseReason, Db}
use razorpay_hackathon.Store.Writes.{append_entry, release_where, capture_reservation}
use razorpay_hackathon.Authorization.Recorded.{append_entry_rows}

pub data Rows (before after : Db) : Type 0 where
  left : after.reservations ≡ before.reservations → Rows before after
  released :
      (p : ReservationState → Bool) (intent_id : String) (reason : ReleaseReason)
      → after.reservations ≡ (release_where before p intent_id reason).reservations
      → Rows before after
  captured :
      (intent_id : String)
      → after.reservations ≡ (capture_reservation before intent_id).reservations
      → Rows before after

pub record Settled (before after : Db) : Type 0 where
  pub now : after.now ≡ before.now
  pub mandates : after.mandates ≡ before.mandates
  pub rows : Rows before after

Rows-same :
    (before after last : Db)
    → Rows before after
    → last.reservations ≡ after.reservations
    → Rows before last
Rows-same before after last (left e) same = left (same ∙ e)
Rows-same before after last (released p intent_id reason e) same =
    released p intent_id reason (same ∙ e)
Rows-same before after last (captured intent_id e) same = captured intent_id (same ∙ e)

pub Settled-refl : (db db' : Db) → db ≡ db' → Settled db db'
Settled-refl db db' same = record {
  now = ap (λ (s : Db). s.now) (sym same);
  mandates = ap (λ (s : Db). s.mandates) (sym same);
  rows = left (ap (λ (s : Db). s.reservations) (sym same));
}

-- A change of the rest of the store before it adds nothing.
pub Settled-before :
    (db first last : Db)
    → first.now ≡ db.now
    → first.mandates ≡ db.mandates
    → first.reservations ≡ db.reservations
    → Settled first last
    → Settled db last
Settled-before db first last time mandates rows s = record {
  now = s.now ∙ time;
  mandates = s.mandates ∙ mandates;
  rows = elim s.rows [
    | left e ↦ left (e ∙ rows)
    | released p intent_id reason e ↦ released p intent_id reason (e ∙ rw (time, rows) refl)
    | captured intent_id e ↦ captured intent_id (e ∙ rw (time, rows) refl)
  ];
}

module _ (rt : Runtime) where
  -- An entry on the ledger adds nothing to that.
  pub Settled-append :
      (before after : Db) (entry : LedgerAppend) {row : StoredEntry} {last : Db}
      → Settled before after
      → append_entry rt after entry ≡ ok (row, last)
      → Settled before last
  Settled-append before after entry {last = last} s appended =
      let (own, kept, _) = append_entry_rows rt after entry appended in
      record {
        now = own.now ∙ s.now;
        mandates = kept ∙ s.mandates;
        rows = Rows-same before after last s.rows own.reservations;
      }
