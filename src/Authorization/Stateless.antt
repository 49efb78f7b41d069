-- ===== src/Authorization/Stateless.antt =====
-- authorization.stateless.ts: the checks that need only the request and two public keys.
use razorpay_hackathon.Base.{not, Option, none, some, ◌==◌, leb, nat_eq, if◌then◌else◌}
use razorpay_hackathon.Shared.Reason.{ReasonCode, int_001, int_002, int_003, int_004, sec_002}
use razorpay_hackathon.Shared.Text.{Bytes, from_hex}
use razorpay_hackathon.Shared.Crypto.{Runtime, Date, verify_payload}
use razorpay_hackathon.Shared.Fault.{Result, ok, ◌>>=◌}
use razorpay_hackathon.Authorization.Request.{
  AuthorizationRequest, Intent, Quote, intent_signing_payload, quote_signing_payload,
}

pub record StatelessKeys : Type 0 where
  pub agent_public_key : Option Bytes
  pub quote_public_key : Option Bytes

-- What is checked once both signatures hold.
module _ (rt : Runtime) where
  unfoldable pub binding_failure : Intent → Quote → Date → Option ReasonCode
  binding_failure intent quote now =
      if leb (rt.parse_date intent.expires_at) now
      then some int_002
      else if leb (rt.parse_date quote.expires_at) now
      then some int_002
      else if not (quote.mandate_id == intent.mandate_id)
      then some int_004
      else if not (nat_eq intent.amount_paise quote.amount_paise)
      then some int_003
      else if not (intent.basket_hash == quote.basket_hash)
      then some int_003
      else if not (intent.quote_id == quote.quote_id)
      then some int_004
      else none

  unfoldable pub quote_failure : AuthorizationRequest → Bytes → Date → Result (Option ReasonCode)
  quote_failure request key now = do
    let quote = request.signed_quote.quote
    valid ←
        verify_payload rt key (quote_signing_payload quote)
          (from_hex request.signed_quote.signature)
    ok (if not valid then some int_001 else binding_failure request.signed_intent.intent quote now)

  unfoldable pub run_stateless_checks :
      AuthorizationRequest → StatelessKeys → Date → Result (Option ReasonCode)
  unfolding quote_failure
  run_stateless_checks request keys now = elim keys.agent_public_key [
    | none ↦ ok (some sec_002)
    | some agent_key ↦ do
      let intent = request.signed_intent.intent
      valid ←
          verify_payload rt agent_key (intent_signing_payload intent)
            (from_hex request.signed_intent.signature)
      if not valid then ok (some int_001) else elim keys.quote_public_key [
        | none ↦ ok (some int_001)
        | some quote_key ↦ quote_failure request quote_key now
      ]
  ]
