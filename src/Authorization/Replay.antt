-- ===== src/Authorization/Replay.antt =====
-- A nonce and a quote are spent once.
use razorpay_hackathon.Base.{
  ℕ, String, ◌≡◌, refl, ◌≢◌, ◌⊎◌, inl, inr, true, Option, some, List, [], ◌∷◌, arith, any, find,
  ◌==◌, is_some, Bool-cases, Option-cases,
}
use razorpay_hackathon.Shared.Reason.{Verdict, ReasonCode, verdict_for_reason}
use razorpay_hackathon.Shared.Crypto.{Runtime, Date}
use razorpay_hackathon.Shared.Fault.{ok}
use razorpay_hackathon.Policy.Facts.{VerifierOutcome}
use razorpay_hackathon.Policy.Permission.{IsAdmissible, is_deny-cases}
use razorpay_hackathon.Store.Rows.{LockedMandate, NonceRow, QuoteRow, Db}
use razorpay_hackathon.Store.Reads.{lock_mandate, find_quote}
use razorpay_hackathon.Store.Writes.{update_where, is_open_quote}
use razorpay_hackathon.Authorization.Request.{FreshIds, AuthorizationRequest, Decision}
use razorpay_hackathon.Authorization.Locked.{run_locked, locked_facts, is_consumed}
use razorpay_hackathon.Authorization.Run.{burn_spends, facts_of}
use razorpay_hackathon.Authorization.Chained.{run_locked_denied}
use razorpay_hackathon.Authorization.Safety.{
  facts-IsAdmissible, run_locked-IsKept, run_locked-IsHeld,
}

-- The nonce of the request was spent before.
abbrev pub IsSpent : AuthorizationRequest → Db → Type 0
IsSpent request db =
    any (λ (n : NonceRow). n.nonce == request.signed_intent.intent.nonce) db.nonces ≡ true

-- The stored quote of the request, if there is one, was consumed before.
abbrev pub IsUsedUp : AuthorizationRequest → Db → Type 0
IsUsedUp request db = is_consumed (find_quote db request.signed_intent.intent.quote_id) ≡ true

-- Consuming a quote leaves no open row to be found under its id.
find_consumed :
    (id : String) (f : QuoteRow → QuoteRow) (rows : List QuoteRow)
    → ((q : QuoteRow) → ((f q).quote_id ≡ q.quote_id) × (is_some (f q).consumed_at ≡ true))
    → any (is_open_quote id) rows ≡ true
    → is_consumed (find (λ q. q.quote_id == id) (update_where (is_open_quote id) f rows)) ≡ true
find_consumed id f [] h open_one = cc
find_consumed id f (q ∷ rows) h open_one = elim (Bool-cases (q.quote_id == id)) [
  | inr other ↦ ground (arith, find_consumed id f rows h)
  | inl own ↦ elim (Option-cases q.consumed_at) [
    | inl fresh ↦ ground (arith, h q)
    | inr (at, used) ↦ ground (arith, h q)
  ]
]

module _ (rt : Runtime) (ttl : ℕ) (request : AuthorizationRequest) (failure : Option ReasonCode)
    (verifier : VerifierOutcome) (now : Date) (ids : FreshIds) (db : Db) {m : LockedMandate}
    {d : Decision} {db' : Db}
    (denies : (code : ReasonCode) → failure ≡ some code → verdict_for_reason code ≡ Verdict.deny)
    (found : lock_mandate db request.signed_intent.intent.mandate_id ≡ some m)
    (done : run_locked rt ttl request failure verifier now ids db ≡ ok (d, db')) where
  admissible :
      d.verdict ≢ Verdict.deny
      → IsAdmissible (facts_of rt ttl request failure verifier now ids m db)
  admissible = facts-IsAdmissible rt ttl request failure verifier now ids db denies found done

  -- A spent nonce is denied, and so is a consumed quote.
  pub spent_denied : IsSpent request db ⊎ IsUsedUp request db → d.verdict ≡ Verdict.deny
  unfolding locked_facts
  spent_denied h = elim (is_deny-cases d.verdict) [
    | inl denied ↦ denied
    | inr other ↦
        let a = admissible other in
        elim h [ inl spent ↦ absurd (ground (arith, a)) | inr used ↦ absurd (ground (arith, a)) ]
  ]

  -- After a run its nonce is spent.
  pub run_spends : IsSpent request db'
  run_spends = elim (is_deny-cases d.verdict) [
    | inl denied ↦
        (run_locked_denied rt ttl request failure verifier now ids db denies found done denied).3
    | inr other ↦
        let held =
          run_locked-IsHeld rt ttl request failure verifier now ids db denies found done other in
        let kept = run_locked-IsKept rt ttl request failure verifier now ids db denies found done in
        rw (kept.nonces, held.nonces) (burn_spends rt ttl request failure verifier now ids db)
  ]

  -- After a run that did not deny its quote is consumed.
  pub run_uses_up : d.verdict ≢ Verdict.deny → IsUsedUp request db'
  run_uses_up h =
      let held = run_locked-IsHeld rt ttl request failure verifier now ids db denies found done h in
      let kept = run_locked-IsKept rt ttl request failure verifier now ids db denies found done in
      rw (kept.quotes, held.quotes)
        (find_consumed request.signed_intent.intent.quote_id _ _ (λ q. (refl, refl))
          held.open_quote)

module _ (rt : Runtime) (ttl : ℕ) (request : AuthorizationRequest) (failure : Option ReasonCode)
    (verifier : VerifierOutcome) (now : Date) (ids : FreshIds) (db : Db) {m : LockedMandate}
    {d : Decision} {db' : Db}
    (denies : (code : ReasonCode) → failure ≡ some code → verdict_for_reason code ≡ Verdict.deny)
    (found : lock_mandate db request.signed_intent.intent.mandate_id ≡ some m)
    (done : run_locked rt ttl request failure verifier now ids db ≡ ok (d, db')) where
  -- After a run that succeeded for a mandate it found, every later run that succeeds on the
  -- store it left is denied if it has the same nonce, whatever the first verdict was, or the
  -- same quote, unless the first run denied. Neither run has a stateless failure but one that
  -- denies.
  pub run_locked_single_use :
      (ttl' : ℕ) (request' : AuthorizationRequest) (failure' : Option ReasonCode)
      (verifier' : VerifierOutcome) (now' : Date) (ids' : FreshIds) {m' : LockedMandate}
      {d' : Decision} {db'' : Db}
      → ((code : ReasonCode) → failure' ≡ some code → verdict_for_reason code ≡ Verdict.deny)
      → lock_mandate db' request'.signed_intent.intent.mandate_id ≡ some m'
      → run_locked rt ttl' request' failure' verifier' now' ids' db' ≡ ok (d', db'')
      → (request'.signed_intent.intent.nonce ≡ request.signed_intent.intent.nonce)
        ⊎ (d.verdict ≢ Verdict.deny)
          × (request'.signed_intent.intent.quote_id ≡ request.signed_intent.intent.quote_id)
      → d'.verdict ≡ Verdict.deny
  run_locked_single_use ttl' request' failure' verifier' now' ids' denies' found' done' again =
      spent_denied rt ttl' request' failure' verifier' now' ids' db' denies' found' done'
        (elim again [
          | inl same ↦
              inl
                (rw same (run_spends rt ttl request failure verifier now ids db denies found done))
          | inr (reserved, same) ↦ inr (
              rw same
                (run_uses_up rt ttl request failure verifier now ids db denies found done reserved))
        ])
