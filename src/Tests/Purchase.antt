-- ===== src/Tests/Purchase.antt =====
-- Concrete data for the tests: a platform, a mandate, a request and a store.
use razorpay_hackathon.Base.{
  ℕ, ◌+◌, ◌*◌, ◌/◌, ◌%◌, true, false, none, some, [], ◌∷◌, length, nat_eq,
}
use razorpay_hackathon.Shared.Reason.{Verdict, sys_001}
use razorpay_hackathon.Shared.Text.{Bytes}
use razorpay_hackathon.Shared.Crypto.{Runtime, genesis_prev_hash}
use razorpay_hackathon.Shared.Fault.{Result, ok, err}
use razorpay_hackathon.Policy.Facts.{MandateState}
use razorpay_hackathon.Store.Rows.{
  LockedMandate, QuoteRow, Reservation, ReservationState, KeyState, CatalogItem, Db,
}
use razorpay_hackathon.Authorization.Request.{FreshIds, AuthorizationRequest, Decision}
use razorpay_hackathon.Authorization.Stateless.{StatelessKeys}

-- A small checksum.
abbrev checksum : Bytes → ℕ
checksum [] = 1
checksum (b ∷ bs) = (b + 31 * checksum bs) % 65536

-- A platform whose digest is a checksum, and whose signatures are one byte.
abbrev pub platform : Runtime
platform = record {
  sha256 = λ bytes.
      checksum bytes / 256
      ∷ checksum bytes % 256
      ∷ 0
      ∷ 0
      ∷ 0
      ∷ 0
      ∷ 0
      ∷ 0
      ∷ 0
      ∷ 0
      ∷ 0
      ∷ 0
      ∷ 0
      ∷ 0
      ∷ 0
      ∷ 0
      ∷ 0
      ∷ 0
      ∷ 0
      ∷ 0
      ∷ 0
      ∷ 0
      ∷ 0
      ∷ 0
      ∷ 0
      ∷ 0
      ∷ 0
      ∷ 0
      ∷ 0
      ∷ 0
      ∷ 0
      ∷ 0
      ∷ [];
  ed25519_verify = λ key message signature. nat_eq (length signature) 1;
  iso_string = λ date. "1970";
  ed25519_sign = λ key message. 1 ∷ [];
  parse_date = λ date. 50;
  interval_ms = λ window. 1000;
}

abbrev pub mandate : LockedMandate
mandate = record {
  mandate_id = "m";
  merchant_id = "shop";
  agent_id = "agent";
  state = MandateState.live;
  not_before = 1;
  not_after = 100;
  per_transaction_paise = 6;
  cumulative_paise = 9;
  cumulative_window = 1000;
  velocity_per_hour = 3;
  silent_threshold_paise = 5;
  allowed_merchants = "shop" ∷ [];
  allowed_categories = "food" ∷ [];
  auth_event_id = some "consent";
  revoked_at = none;
  payment_customer_ref = some "customer";
  payment_token_ref = some "token";
  chain_head_seq = none;
  chain_head_hash = none;
  subject_pseudonym = "person";
  kid = "k0";
  signature = [];
  customer_ref = none;
  fulfilment_ref = none;
}

abbrev pub settled : Reservation
settled = record {
  reservation_id = "r0";
  mandate_id = "m";
  merchant_id = "shop";
  intent_id = "i0";
  amount_paise = 2;
  state = ReservationState.captured;
  step_up = false;
  created_at = 5;
  resolved_at = some 6;
  release_reason = none;
}

abbrev pub priced : QuoteRow
priced = record {
  quote_id = "q";
  mandate_id = "m";
  merchant_id = "shop";
  amount_paise = 4;
  categories = "food" ∷ [];
  basket_hash = 7 ∷ [];
  expires_at = 50;
  consumed_at = none;
  consumed_by = none;
  nonce = "p";
  issued_at = 5;
  kid = "k";
  signature = [];
  basket = [];
}

abbrev bread : CatalogItem
bread = record {
  merchant_id = "shop";
  sku = "bread";
  name = "Bread";
  category = "food";
  price_paise = 2;
  active = true;
}

abbrev milk : CatalogItem
milk = record {
  merchant_id = "shop";
  sku = "milk";
  name = "Milk";
  category = "food";
  price_paise = 1;
  active = true;
}

abbrev pub store : Db
store = record {
  now = 10;
  merchants = [];
  mandates = mandate ∷ [];
  agents =
      record { agent_id = "agent"; name = "A"; public_key = genesis_prev_hash; attestation = "" }
      ∷ [];
  keys =
      record {
        kid = "k";
        purpose = "quote";
        state = KeyState.active;
        public_key = genesis_prev_hash;
        private_key = some genesis_prev_hash;
      }
      ∷ record {
        kid = "k0";
        purpose = "mandate";
        state = KeyState.active;
        public_key = genesis_prev_hash;
        private_key = some genesis_prev_hash;
      }
      ∷ [];
  auth_events = [];
  catalog = bread ∷ milk ∷ [];
  quotes = priced ∷ [];
  nonces = [];
  reservations = settled ∷ [];
  challenges = [];
  orders = [];
  refunds = [];
  webhook_events = [];
  ledger = [];
}

abbrev pub request : AuthorizationRequest
request = record {
  signed_intent = record {
    intent = record {
      intent_id = "i";
      kind = "purchase";
      mandate_id = "m";
      quote_id = "q";
      merchant_id = "shop";
      amount_paise = 4;
      basket_hash = "07";
      rationale = "";
      nonce = "n";
      expires_at = "soon";
    };
    agent_id = "agent";
    signature = "01";
  };
  signed_quote = record {
    quote = record {
      quote_id = "q";
      mandate_id = "m";
      merchant_id = "shop";
      basket_hash = "07";
      amount_paise = 4;
      categories = "food" ∷ [];
      nonce = "p";
      issued_at = "before";
      expires_at = "soon";
    };
    kid = "k";
    signature = "02";
  };
}

abbrev pub keys : StatelessKeys
keys = record {
  agent_public_key = some genesis_prev_hash;
  quote_public_key = some genesis_prev_hash;
}

abbrev pub first_ids : FreshIds
first_ids = record { decision_id = "d1"; reservation_id = "r1"; challenge_id = "c1" }

abbrev pub second_ids : FreshIds
second_ids = record { decision_id = "d2"; reservation_id = "r2"; challenge_id = "c2" }

-- The store that a result leaves, or the one from before.
abbrev pub store_of : {A : Type 0} → Db → Result (A × Db) → Db
store_of before (ok done) = done.1
store_of before (err _) = before

-- The decision of a run, or a decision on nothing.
abbrev pub answer_of : Result (Decision × Db) → Decision
answer_of (ok done) = done.0
answer_of (err _) = record {
  decision_id = "";
  intent_id = "";
  mandate_id = "";
  verdict = Verdict.deny;
  reason_code = sys_001;
  evaluated = [];
  reservation_id = none;
  idempotency_key = none;
  challenge_id = none;
  ledger_seq = none;
  decided_at = "";
}
