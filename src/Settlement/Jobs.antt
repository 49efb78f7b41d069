-- ===== src/Settlement/Jobs.antt =====
-- modules/jobs: expire.job.ts and release-stale.job.ts. A job scans in one transaction and then runs
-- one transaction for each row that it found.
use razorpay_hackathon.Base.{
  ℕ, ◌+◌, String, Bool, true, false, not, ◌&&◌, some, List, [], ◌∷◌, ◌++◌, map, ltb, leb, length,
  select, ◌==◌, if◌then◌else◌, is_some, is_none,
}
use razorpay_hackathon.Shared.Json.{object, member, end, text}
use razorpay_hackathon.Shared.Crypto.{Runtime, Date}
use razorpay_hackathon.Shared.Fault.{Result, ok, err, ◌>>=◌}
use razorpay_hackathon.Policy.Facts.{MandateState}
use razorpay_hackathon.Policy.Engine.{is_live}
use razorpay_hackathon.Ledger.Entry.{LedgerKind}
use razorpay_hackathon.Store.Rows.{
  LockedMandate, Challenge, ChallengeState, Reservation, ReleaseReason, Db,
}
use razorpay_hackathon.Store.Reads.{find_by_intent, is_held}
use razorpay_hackathon.Store.Writes.{update_where, is_pending, release_reservation, append_entry}

pub record JobResult : Type 0 where
  pub job : String
  pub examined : ℕ
  pub changed : ℕ
  pub details : List String

abbrev pub is_overdue : Date → LockedMandate → Bool
is_overdue now m = is_live m.state && leb m.not_after now

-- The body of `expireMandates`.
unfoldable pub expire_mandates : Date → Db → Result (JobResult × Db)
expire_mandates now db =
    let rows : List LockedMandate = select (is_overdue now) db.mandates in
    ok (
      record {
        job = "expire-mandates";
        examined = length rows;
        changed = length rows;
        details = map (λ (m : LockedMandate). m.mandate_id) rows;
      },
      record db {
        mandates =
            update_where (is_overdue now) (λ m. record m { state = MandateState.expired })
              db.mandates;
      },
    )

-- The scan of `expireChallenges`.
unfoldable pub stale_challenges : Date → Db → List Challenge
stale_challenges now db = select (λ c. is_pending c.state && leb c.expires_at now) db.challenges

reservation_ttl_ms : ℕ
reservation_ttl_ms = 900000

-- The scan of the reaper: held, older than the cutoff, and with no order.
unfoldable pub stale_reservations : Date → Db → List Reservation
unfolding reservation_ttl_ms
stale_reservations now db =
    select
      (λ r.
        is_held r.state
        && (ltb (r.created_at + reservation_ttl_ms) now && is_none (find_by_intent db r.intent_id)))
      db.reservations

module _ (rt : Runtime) (merchant_id : String) where
  -- The transaction for one stale challenge: by the time it runs the row may have changed.
  unfoldable pub expire_challenge : Challenge → Db → Result (Unit {0} × Db)
  expire_challenge challenge db = do
    let marked : Db = record db {
      challenges =
          update_where (λ c. c.challenge_id == challenge.challenge_id)
            (λ c. record c { state = ChallengeState.expired }) db.challenges;
    }
    let released : Bool × Db =
        release_reservation marked challenge.intent_id ReleaseReason.step_up_abandoned
    written ← append_entry rt released.1 (record {
      chain_id = challenge.mandate_id;
      kind = LedgerKind.release;
      merchant_id = merchant_id;
      ref = some challenge.intent_id;
      payload_redacted = object (
          member "reason" (text "step_up_abandoned")
            (member "challenge_id" (text challenge.challenge_id) end));
    })
    ok (tt, written.1)

  -- The transaction for one stale reservation: was it released?
  unfoldable pub reap : Reservation → Db → Result (Bool × Db)
  reap candidate db =
      if is_some (find_by_intent db candidate.intent_id) then ok (false, db) else (do
        let released : Bool × Db = release_reservation db candidate.intent_id ReleaseReason.reaped
        if not released.0 then ok (false, db) else (do
          written ← append_entry rt released.1 (record {
            chain_id = candidate.mandate_id;
            kind = LedgerKind.release;
            merchant_id = merchant_id;
            ref = some candidate.intent_id;
            payload_redacted = object (
                member "reservation_id" (text candidate.reservation_id) (
                  member "reason" (text "reaped")
                    (member "note" (text "no execution was ever attempted") end)));
          })
          ok (true, written.1)))

-- The loop of a job, with nothing running between its transactions: an error ends it, and what was
-- committed before stays. The answer has the rows for which `body` reported a change.
unfoldable pub each_row {ℓ} :
    {R : Type ℓ} → (R → Db → Result (Bool × Db)) → List R → List R → Db → Result (List R) × Db
each_row {R = R} body [] changed db = (ok changed, db)
each_row {R = R} body (row ∷ rows) changed db =
    let next : List R × Db = elim (body row db) [
      | ok done ↦ ((if done.0 then changed ++ row ∷ [] else changed), done.1)
      | err _ ↦ (changed, db)
    ] in
    let rest = each_row body rows next.0 next.1 in
    elim (body row db) [ ok _ ↦ rest | err fault ↦ (err fault, db) ]

-- The answer of a job whose loop ended, from what the scan found and what the loop changed.
abbrev job_result {ℓ} : {R : Type ℓ} → String → (R → String) → List R → List R → JobResult
job_result job name_of examined changed = record {
  job = job;
  examined = length examined;
  changed = length changed;
  details = map name_of changed;
}

module _ (rt : Runtime) (merchant_id : String) (now : Date) where
  unfoldable pub expire_challenges : Db → Result JobResult × Db
  unfolding each_row expire_challenge stale_challenges
  expire_challenges db =
      let stale : List Challenge = stale_challenges now db in
      let (changed, db') =
        each_row
          (λ c s.
            expire_challenge rt merchant_id c s >>= λ (done : Unit {0} × Db). ok (true, done.1))
          stale [] db in
      (
        changed >>= λ rows.
            ok (job_result "expire-challenges" (λ (c : Challenge). c.challenge_id) stale rows),
        db',
      )

  unfoldable pub release_stale_reservations : Db → Result JobResult × Db
  unfolding each_row reap stale_reservations
  release_stale_reservations db =
      let candidates : List Reservation = stale_reservations now db in
      let (changed, db') = each_row (reap rt merchant_id) candidates [] db in
      (
        changed >>= λ rows. ok (
            job_result "release-stale-reservations" (λ (r : Reservation). r.reservation_id)
              candidates rows),
        db',
      )
