-- ===== src/Authorization/Authentic.antt =====
-- What it means that the stateless checks find nothing, and which codes they report.
use razorpay_hackathon.Base.{◌<◌, ◌≡◌, ◌↔◌, inl, inr, true, none, some, arith, ==_iff, Option-cases}
use razorpay_hackathon.Shared.Reason.{Verdict, ReasonCode, verdict_for_reason}
use razorpay_hackathon.Shared.Text.{Bytes, from_hex}
use razorpay_hackathon.Shared.Crypto.{Runtime, Date, verify_payload}
use razorpay_hackathon.Shared.Fault.{ok}
use razorpay_hackathon.Authorization.Request.{
  AuthorizationRequest, Intent, Quote, intent_signing_payload, quote_signing_payload,
}
use razorpay_hackathon.Authorization.Stateless.{
  StatelessKeys, binding_failure, run_stateless_checks,
}

-- The intent and the quote are current, and the quote is for this mandate, amount and basket.
pub record IsBound (rt : Runtime) (intent : Intent) (quote : Quote) (now : Date) : Type 0 where
  pub intent_current : now < rt.parse_date intent.expires_at
  pub quote_current : now < rt.parse_date quote.expires_at
  pub same_mandate : quote.mandate_id ≡ intent.mandate_id
  pub same_amount : intent.amount_paise ≡ quote.amount_paise
  pub same_basket : intent.basket_hash ≡ quote.basket_hash
  pub same_quote : intent.quote_id ≡ quote.quote_id

-- Both keys are known, both signatures verify over the canonical payloads, and the two are bound.
pub record IsAuthentic (rt : Runtime) (request : AuthorizationRequest) (keys : StatelessKeys)
    (now : Date) : Type 0 where
  pub agent_key : Bytes
  pub quote_key : Bytes
  pub agent_known : keys.agent_public_key ≡ some agent_key
  pub quote_known : keys.quote_public_key ≡ some quote_key
  pub intent_signed :
      verify_payload rt agent_key
        (intent_signing_payload request.signed_intent.intent)
        (from_hex request.signed_intent.signature)
      ≡ ok true
  pub quote_signed :
      verify_payload rt quote_key
        (quote_signing_payload request.signed_quote.quote)
        (from_hex request.signed_quote.signature)
      ≡ ok true
  pub bound : IsBound rt request.signed_intent.intent request.signed_quote.quote now

module _ (rt : Runtime) where
  binding_iff :
      (intent : Intent) (quote : Quote) (now : Date)
      → (binding_failure rt intent quote now ≡ none) ↔ IsBound rt intent quote now
  unfolding binding_failure
  binding_iff intent quote now = ground (
    arith,
    ==_iff quote.mandate_id intent.mandate_id,
    ==_iff intent.basket_hash quote.basket_hash,
    ==_iff intent.quote_id quote.quote_id,
  )

  binding_denies :
      (intent : Intent) (quote : Quote) (now : Date) (code : ReasonCode)
      → binding_failure rt intent quote now ≡ some code
      → verdict_for_reason code ≡ Verdict.deny
  unfolding binding_failure
  binding_denies intent quote now code e = ground arith

  authentic_keys :
      (request : AuthorizationRequest) (keys : StatelessKeys) (now : Date)
      → run_stateless_checks rt request keys now ≡ ok none
      → (a q : Bytes) × (keys.agent_public_key ≡ some a) × (keys.quote_public_key ≡ some q)
  unfolding run_stateless_checks
  authentic_keys request keys now e = elim (Option-cases keys.agent_public_key) [
    | inl unknown ↦ ground arith
    | inr (a, known) ↦ elim (Option-cases keys.quote_public_key) [
      | inl unknown ↦ ground arith
      | inr (q, issued) ↦ (a, q, known, issued)
    ]
  ]

  -- The stateless checks report nothing exactly when the request is authentic: both keys known, both
  -- signatures valid over the canonical payloads, neither the intent nor the quote expired, and the
  -- quote's mandate, amount, basket and id those of the intent.
  pub run_stateless_checks-none_iff :
      (request : AuthorizationRequest) (keys : StatelessKeys) (now : Date)
      → (run_stateless_checks rt request keys now ≡ ok none) ↔ IsAuthentic rt request keys now
  unfolding run_stateless_checks
  run_stateless_checks-none_iff request keys now =
      let intent = request.signed_intent.intent in
      let quote = request.signed_quote.quote in
      (
        λ e.
            let (a, q, known, issued) = authentic_keys request keys now e in
            record {
              agent_key = a;
              quote_key = q;
              agent_known = known;
              quote_known = issued;
              intent_signed = ground arith;
              quote_signed = ground arith;
              bound = (binding_iff intent quote now).0 (ground arith);
            },
        λ a. ground (arith, binding_iff intent quote now),
      )

  -- Whatever code the stateless checks report is one that denies.
  pub run_stateless_checks_denies :
      (request : AuthorizationRequest) (keys : StatelessKeys) (now : Date) (code : ReasonCode)
      → run_stateless_checks rt request keys now ≡ ok (some code)
      → verdict_for_reason code ≡ Verdict.deny
  unfolding run_stateless_checks
  run_stateless_checks_denies request keys now code e =
      ground
        (arith, binding_denies request.signed_intent.intent request.signed_quote.quote now code)
