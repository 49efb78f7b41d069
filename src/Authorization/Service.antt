-- ===== src/Authorization/Service.antt =====
-- authorization.service.ts: `authorize` and `approveStepUp` as a whole. The calls to the executor are
-- made after the commit; they are the list that a decision comes with.
use razorpay_hackathon.Base.{ℕ, String, Bool, Option, none, some, List, [], ◌∷◌, if◌then◌else◌}
use razorpay_hackathon.Shared.Reason.{Verdict, ReasonCode, mnd_001, sys_001, sys_003}
use razorpay_hackathon.Shared.Text.{Bytes}
use razorpay_hackathon.Shared.Money.{Paise}
use razorpay_hackathon.Shared.Json.{JsonValue, object, member, end, text, number, nat}
use razorpay_hackathon.Shared.Crypto.{Runtime, Date}
use razorpay_hackathon.Shared.Fault.{Fault, Result, ok, err, unknown_mandate, lock_contention}
use razorpay_hackathon.Policy.Facts.{VerifierOutcome}
use razorpay_hackathon.Store.Rows.{AgentIdentity, VerificationKey, Db}
use razorpay_hackathon.Store.Reads.{find_agent, find_verification_key, find_reservation}
use razorpay_hackathon.Store.Transaction.{with_authorization_transaction}
use razorpay_hackathon.Authorization.Request.{FreshIds, AuthorizationRequest, Decision}
use razorpay_hackathon.Authorization.Stateless.{run_stateless_checks}
use razorpay_hackathon.Authorization.Locked.{run_locked}
use razorpay_hackathon.Authorization.StepUp.{approve_locked, is_allow}
use razorpay_hackathon.Authorization.Operations.{append_operations_event, OperationsEvent}

pub record KernelConfig : Type 0 where
  pub merchant_id : String
  pub retry_attempts : ℕ
  pub challenge_ttl_ms : ℕ
  pub rethrow_unexpected_errors : Bool
  -- is an executor configured?
  pub has_executor : Bool

-- What `ctx.verifier.assess` does within its time: it answers, is too late, or throws.
pub data VerifierAnswer : Type 0 where
  answered : VerifierOutcome → VerifierAnswer
  timed_out : VerifierAnswer
  threw : String → VerifierAnswer

unfoldable pub run_verifier : VerifierAnswer → VerifierOutcome
run_verifier (answered outcome) = outcome
run_verifier timed_out = VerifierOutcome.unavailable "verifier timed out"
run_verifier (threw error) = VerifierOutcome.unavailable error

pub record ExecuteRequest : Type 0 where
  pub intent_id : String
  pub mandate_id : String
  pub merchant_id : String
  pub amount_paise : Paise
  pub decision_id : String

-- What comes of a call: the answer, the store, and the calls that the executor was sent.
pub record Outcome : Type 0 where
  pub answer : Result Decision
  pub store : Db
  pub executions : List ExecuteRequest

-- The environment of one call: the contention that its transactions meet, fresh ids, the class of an
-- unexpected error.
pub record Environment : Type 0 where
  pub clock : Date
  pub ids : FreshIds
  pub operations_decision_id : String
  pub verifier : VerifierAnswer
  pub contention : ℕ → Option Fault
  pub operations_contention : ℕ → Option Fault
  pub error_class : Fault → String

abbrev pub public_key_of : Option AgentIdentity → Option Bytes
public_key_of none = none
public_key_of (some agent) = some agent.public_key

abbrev pub quote_key_of : Option VerificationKey → Option Bytes
quote_key_of none = none
quote_key_of (some key) = some key.public_key

module _ (rt : Runtime) (config : KernelConfig) (env : Environment) where
  unfoldable pub settle : Decision → Paise → List ExecuteRequest
  settle decision amount_paise =
      if config.has_executor
      then record {
        intent_id = decision.intent_id;
        mandate_id = decision.mandate_id;
        merchant_id = config.merchant_id;
        amount_paise = amount_paise;
        decision_id = decision.decision_id;
      }
        ∷ []
      else []

  -- A denial on the operations chain. It stands even where the chain cannot be written.
  unfoldable pub operations_decision :
      AuthorizationRequest → ReasonCode → JsonValue → Db → Decision × Db
  operations_decision request reason_code detail db =
      let intent = request.signed_intent.intent in
      let (entry, db') =
        with_authorization_transaction config.retry_attempts env.operations_contention
          (append_operations_event rt config.merchant_id (
            OperationsEvent.decision reason_code (some intent.intent_id) (some intent.mandate_id)
              detail))
          db in
      (
        record {
          decision_id = env.operations_decision_id;
          intent_id = intent.intent_id;
          mandate_id = intent.mandate_id;
          verdict = Verdict.deny;
          reason_code = reason_code;
          evaluated = [];
          reservation_id = none;
          idempotency_key = none;
          challenge_id = none;
          ledger_seq = elim entry [ ok (some row) ↦ some row.seq | _ ↦ none ];
          decided_at = rt.iso_string env.clock;
        },
        db',
      )

  abbrev denied : Decision × Db → Outcome
  denied (decision, db) = record { answer = ok decision; store = db; executions = [] }

  -- The handler of `authorize`.
  unfoldable pub on_error : AuthorizationRequest → Fault → Db → Outcome
  unfolding operations_decision
  on_error request (unknown_mandate id) db =
      denied (operations_decision request mnd_001 (object (member "mandate_id" (text id) end)) db)
  on_error request lock_contention db = denied (
      operations_decision request sys_003
        (object (member "attempts" (number (nat config.retry_attempts)) end)) db)
  on_error request fault db =
      if config.rethrow_unexpected_errors
      then record { answer = err fault; store = db; executions = [] }
      else denied (
          operations_decision request sys_001
            (object (member "error_class" (text (env.error_class fault)) end)) db)

  -- After the commit, and only on ALLOW.
  unfoldable pub committed : Decision → Paise → Db → Outcome
  unfolding settle
  committed decision amount db = record {
    answer = ok decision;
    store = db;
    executions = if is_allow decision.verdict then settle decision amount else [];
  }

  unfoldable pub authorize_checked : AuthorizationRequest → Option ReasonCode → Db → Outcome
  unfolding on_error committed
  authorize_checked request stateless_failure db =
      let verifier : VerifierOutcome = elim stateless_failure [
        | none ↦ run_verifier env.verifier
        | some _ ↦ VerifierOutcome.proceed
      ] in
      let (result, db') =
        with_authorization_transaction config.retry_attempts env.contention
          (run_locked rt config.challenge_ttl_ms request stateless_failure verifier env.clock
            env.ids)
          db in
      elim result [
        | ok decision ↦ committed decision request.signed_intent.intent.amount_paise db'
        | err fault ↦ on_error request fault db'
      ]

  unfoldable pub authorize : AuthorizationRequest → Db → Outcome
  unfolding authorize_checked run_stateless_checks
  authorize request db =
      let agent = find_agent db request.signed_intent.agent_id in
      let quote_key = find_verification_key db request.signed_quote.kid in
      elim (run_stateless_checks rt request
        (record {
          agent_public_key = public_key_of agent;
          quote_public_key = quote_key_of quote_key;
        })
        env.clock) [
          | ok stateless_failure ↦ authorize_checked request stateless_failure db
          | err fault ↦ on_error request fault db
        ]

  -- The challenge is read in `seen`, the amount back from the reservation.
  unfoldable pub approve_step_up : String → Bool → Db → Db → Outcome
  unfolding settle approve_locked
  approve_step_up challenge_id approve seen db =
      let (result, db') =
        with_authorization_transaction config.retry_attempts env.contention
          (approve_locked rt challenge_id approve env.clock env.ids.decision_id seen) db in
      record {
        answer = result;
        store = db';
        executions = elim result [
          | err _ ↦ []
          | ok decision ↦
              if is_allow decision.verdict
              then elim (find_reservation db' decision.intent_id) [
                | none ↦ []
                | some r ↦ settle decision r.amount_paise
              ]
              else []
        ];
      }
