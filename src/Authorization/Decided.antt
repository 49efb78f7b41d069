-- ===== src/Authorization/Decided.antt =====
-- A step-up is decided once.
use razorpay_hackathon.Base.{
  String, ◌≡◌, refl, ◌∙◌, ◌⊎◌, inl, inr, Bool, false, ◌&&◌, some, List, [], ◌∷◌, ◌≢◌, any, arith,
  find, ◌==◌, Bool-cases, if◌then◌else◌,
}
use razorpay_hackathon.Shared.Reason.{Verdict}
use razorpay_hackathon.Shared.Crypto.{Runtime, Date}
use razorpay_hackathon.Shared.Fault.{ok, >>=-eq-ok, or_throw, unknown_challenge, unknown_mandate}
use razorpay_hackathon.Ledger.Entry.{StoredEntry, LedgerAppend}
use razorpay_hackathon.Store.Rows.{LockedMandate, Challenge, ChallengeState, Reservation, Db}
use razorpay_hackathon.Store.Reads.{find_challenge, lock_mandate, is_held}
use razorpay_hackathon.Store.Writes.{update_where, is_pending, append_entry}
use razorpay_hackathon.Authorization.Request.{Decision}
use razorpay_hackathon.Authorization.StepUp.{
  check_approval, verdict_of_approval, is_allow, resolve, approve_locked,
}

-- The challenge is stored, and is no longer open to a decision.
record IsDecided (challenge_id : String) (rows : List Challenge) : Type 0 where
  challenge : Challenge
  stored : find (λ c. c.challenge_id == challenge_id) rows ≡ some challenge
  closed : is_pending challenge.state ≡ false

resolved-IsDecided :
    (id : String) (state : ChallengeState) (rows : List Challenge) {c : Challenge}
    → is_pending state ≡ false
    → find (λ r. r.challenge_id == id) rows ≡ some c
    → IsDecided id (
        update_where
          (λ r. r.challenge_id == id && is_pending r.state)
          (λ r. record r { state = state })
          rows)
resolved-IsDecided id state [] closed e = cc
resolved-IsDecided id state (r ∷ rows) {c = c} closed e = elim (Bool-cases (r.challenge_id == id)) [
  | inr other ↦
      let later = resolved-IsDecided id state rows {c = c} closed (rw other at e) in
      record {
        challenge = later.challenge;
        stored = (let s = later.stored in ground (arith, other, s));
        closed = later.closed;
      }
  | inl own ↦ elim (Bool-cases (is_pending r.state)) [
    | inl open_one ↦ record {
      challenge = record r { state = state };
      stored = ground (arith, own, open_one);
      closed = closed;
    }
    | inr decided ↦ record {
      challenge = r;
      stored = ground (arith, own, decided);
      closed = decided;
    }
  ]
]

decided_denies :
    (db : Db) (challenge : Challenge) (mandate : LockedMandate) (now : Date) (approve : Bool)
    → is_pending challenge.state ≡ false
    → verdict_of_approval (check_approval db challenge mandate now approve) ≡ Verdict.deny
unfolding check_approval
decided_denies db challenge mandate now approve closed = ground arith

module _ (rt : Runtime) (challenge_id : String) where
  append_entry-challenges :
      (db : Db) (entry : LedgerAppend) {row : StoredEntry} {db' : Db}
      → append_entry rt db entry ≡ ok (row, db')
      → db'.challenges ≡ db.challenges
  unfolding append_entry
  append_entry-challenges db entry e = ground arith

  resolve-IsDecided :
      (approve : Bool) (now : Date) (decision_id : String) (challenge : Challenge)
      (verdict : Verdict) (db : Db) {c : Challenge}
      → find_challenge db challenge_id ≡ some c
      → IsDecided challenge_id
          (resolve rt challenge_id approve now decision_id challenge verdict db).challenges
  unfolding resolve
  resolve-IsDecided approve now decision_id challenge verdict db found =
      elim (Bool-cases (is_allow verdict)) [
        | inl allowed ↦
            rw (allowed, if◌then◌else◌)
              (resolved-IsDecided challenge_id ChallengeState.approved db.challenges refl found)
        | inr refused ↦
            rw (refused, if◌then◌else◌)
              (resolved-IsDecided challenge_id ChallengeState.rejected db.challenges refl found)
      ]

  approve_locked-IsDecided :
      (approve : Bool) (now : Date) (decision_id : String) (seen db : Db) {row : Challenge}
      {d : Decision} {db' : Db}
      → find_challenge db challenge_id ≡ some row
      → approve_locked rt challenge_id approve now decision_id seen db ≡ ok (d, db')
      → IsDecided challenge_id db'.challenges
  unfolding approve_locked
  approve_locked-IsDecided approve now decision_id seen db {row = row} {db' = db'} found e =
      let (c, ec, e₁) =
        >>=-eq-ok (or_throw (find_challenge seen challenge_id) (unknown_challenge challenge_id)) _
          e in
      let (m, em, e₂) =
        >>=-eq-ok (or_throw (lock_mandate db c.mandate_id) (unknown_mandate c.mandate_id)) _ e₁ in
      let (written, ew, rest) = >>=-eq-ok (append_entry rt _ _) _ e₂ in
      let same = append_entry-challenges _ _ ew in
      let decided =
        resolve-IsDecided approve now decision_id c
          (verdict_of_approval (check_approval db c m now approve)) db {c = row} found in
      let kept : db'.challenges ≡ written.1.challenges = ground (arith, rest) in
      rw (kept, same) decided

  -- Once an approval of a stored challenge was processed, whatever the human said and whatever was
  -- decided, every approval of the same challenge that reads the challenge after that commit is
  -- denied, whatever else was committed before it holds the lock.
  pub approve_locked-once :
      (approve : Bool) (now : Date) (decision_id : String) (seen db : Db) {row : Challenge}
      {d : Decision} {db' : Db}
      → find_challenge db challenge_id ≡ some row
      → approve_locked rt challenge_id approve now decision_id seen db ≡ ok (d, db')
      → (approve' : Bool) (now' : Date) (decision_id' : String) (seen' later : Db) {d' : Decision}
        {db'' : Db}
      → find_challenge seen' challenge_id ≡ find_challenge db' challenge_id
      → approve_locked rt challenge_id approve' now' decision_id' seen' later ≡ ok (d', db'')
      → d'.verdict ≡ Verdict.deny
  unfolding approve_locked
  approve_locked-once approve now decision_id seen db {row = row} {db' = db'} found e approve' now'
        decision_id' seen' later {d' = d'} read again =
      let decided = approve_locked-IsDecided approve now decision_id seen db {row = row} found e in
      let c : Challenge = decided.challenge in
      let stored = read ∙ decided.stored in
      let (m, em, e₂) =
        >>=-eq-ok (or_throw (lock_mandate later c.mandate_id) (unknown_mandate c.mandate_id)) _
          (rw (stored, approve_locked) at again) in
      let (written, ew, rest) = >>=-eq-ok (append_entry rt _ _) _ e₂ in
      let verdict : d'.verdict ≡ verdict_of_approval (check_approval later c m now' approve') =
        ground (arith, rest) in
      verdict ∙ decided_denies later c m now' approve' decided.closed

any-update_where {ℓ} :
    {A : Type ℓ} (q : A → Bool) (f : A → A) (xs : List A)
    → ((y : A) → q (f y) ≡ false)
    → any q (update_where q f xs) ≡ false
any-update_where q f [] gone = refl
any-update_where q f (y ∷ xs) gone =
    let after = gone y in
    let rest = any-update_where q f xs gone in
    elim (Bool-cases (q y)) [
      | inl updated ↦ rw (updated, if◌then◌else◌) (ground (arith, after, rest))
      | inr left ↦ rw (left, if◌then◌else◌) (ground (arith, left, rest))
    ]

abbrev pub held_by : String → Reservation → Bool
held_by intent_id r = r.intent_id == intent_id && is_held r.state

module _ (rt : Runtime) (challenge_id : String) where
  append_entry-reservations :
      (db : Db) (entry : LedgerAppend) {row : StoredEntry} {db' : Db}
      → append_entry rt db entry ≡ ok (row, db')
      → db'.reservations ≡ db.reservations
  unfolding append_entry
  append_entry-reservations db entry e = ground arith

  resolve-reservations :
      (approve : Bool) (now : Date) (decision_id : String) (challenge : Challenge)
      (verdict : Verdict) (db : Db)
      → ((verdict ≡ Verdict.allow)
          × ((resolve rt challenge_id approve now decision_id challenge verdict db).reservations
              ≡ db.reservations))
        ⊎ ((verdict ≢ Verdict.allow)
            × (any
                  (held_by challenge.intent_id)
                  (resolve rt challenge_id approve now decision_id challenge verdict
                    db).reservations
                ≡ false))
  unfolding resolve
  resolve-reservations approve now decision_id challenge Verdict.allow db = inl (refl, refl)
  resolve-reservations approve now decision_id challenge Verdict.deny db =
      inr (cc, any-update_where (held_by challenge.intent_id) _ db.reservations (λ y. ground arith))
  resolve-reservations approve now decision_id challenge Verdict.step_up db =
      inr (cc, any-update_where (held_by challenge.intent_id) _ db.reservations (λ y. ground arith))

  -- An approval that is processed and allowed, of a challenge that it read, leaves every reservation
  -- as it was; one that is processed and not allowed leaves no held reservation of the
  -- challenge's intent.
  pub approve_locked-reservations :
      (approve : Bool) (now : Date) (decision_id : String) (seen db : Db) (c : Challenge)
      {d : Decision} {db' : Db}
      → find_challenge seen challenge_id ≡ some c
      → approve_locked rt challenge_id approve now decision_id seen db ≡ ok (d, db')
      → ((d.verdict ≡ Verdict.allow) × (db'.reservations ≡ db.reservations))
        ⊎ ((d.verdict ≢ Verdict.allow) × (any (held_by c.intent_id) db'.reservations ≡ false))
  unfolding approve_locked
  approve_locked-reservations approve now decision_id seen db c {d = d} {db' = db'} found e =
      let (m, em, e₂) =
        >>=-eq-ok (or_throw (lock_mandate db c.mandate_id) (unknown_mandate c.mandate_id)) _
          (rw (found, approve_locked) at e) in
      let (written, ew, rest) = >>=-eq-ok (append_entry rt _ _) _ e₂ in
      let same = append_entry-reservations _ _ ew in
      let answer : Verdict = verdict_of_approval (check_approval db c m now approve) in
      let verdict : d.verdict ≡ answer = ground (arith, rest) in
      let kept : db'.reservations ≡ written.1.reservations = ground (arith, rest) in
      rw (verdict, kept, same) (resolve-reservations approve now decision_id c answer db)
