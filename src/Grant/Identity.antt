-- ===== src/Grant/Identity.antt =====
-- identity.repository.ts and identity.service.ts: agents, signing keys and authentication events.
-- The constraints are those of migrations/002_core.sql.
use razorpay_hackathon.Base.{
  ℕ, ◌+◌, ◌*◌, String, Bool, true, false, not, ◌&&◌, ◌||◌, Option, none, some, [], ◌∷◌, ◌++◌,
  length, ltb, nat_eq, any, find, ◌==◌, if◌then◌else◌,
}
use razorpay_hackathon.Shared.Text.{Bytes, from_hex}
use razorpay_hackathon.Shared.Crypto.{Date}
use razorpay_hackathon.Shared.Fault.{
  Result, ok, err, ◌>>=◌, or_throw, unique_violation, check_violation, other,
}
use razorpay_hackathon.Store.Rows.{AgentIdentity, VerificationKey, KeyState, AuthEvent, Db}
use razorpay_hackathon.Store.Reads.{find_verification_key}
use razorpay_hackathon.Store.Writes.{update_where}

abbrev pub is_active : KeyState → Bool
is_active KeyState.active = true
is_active KeyState.retired = false

abbrev pub is_active_for : String → VerificationKey → Bool
is_active_for purpose k = k.purpose == purpose && is_active k.state

-- The partial index allows one row at most.
abbrev pub find_active_key : Db → String → Option VerificationKey
find_active_key db purpose = find (is_active_for purpose) db.keys

-- `privateKeyFor`, of mandate.service.ts and of quote.service.ts.
abbrev pub private_key_for : Db → String → Result Bytes
private_key_for db kid = elim (find_verification_key db kid) [
  | none ↦ err other
  | some k ↦ or_throw k.private_key other
]

pub record RegisterAgentInput : Type 0 where
  pub name : String
  pub public_key : String

unfoldable pub insert_agent : Db → AgentIdentity → Result Db
insert_agent db row =
    if not (nat_eq (length row.public_key) 32)
    then err (check_violation "agents")
    else if any (λ (a : AgentIdentity). a.agent_id == row.agent_id) db.agents
    then err (unique_violation "agents")
    else ok (record db { agents = db.agents ++ row ∷ [] })

-- `agent_id` is the fresh one.
unfoldable pub register_agent : String → RegisterAgentInput → Db → Result (AgentIdentity × Db)
unfolding insert_agent
register_agent agent_id input db = do
  let row : AgentIdentity = record {
    agent_id = agent_id;
    name = input.name;
    public_key = from_hex input.public_key;
    attestation = "self_registered_v1";
  }
  db' ← insert_agent db row
  ok (row, db')

pub record RecordAuthEventInput : Type 0 where
  pub subject_pseudonym : String
  pub method : String
  pub max_age_seconds : ℕ

unfoldable pub record_auth_event : String → RecordAuthEventInput → Db → Result (String × Db)
record_auth_event auth_event_id input db =
    if not (input.method == "sms_otp" || input.method == "upi_pin")
    then err (check_violation "auth_events")
    else if not (ltb 0 input.max_age_seconds)
    then err (check_violation "auth_events")
    else if any (λ (e : AuthEvent). e.auth_event_id == auth_event_id) db.auth_events
    then err (unique_violation "auth_events")
    else ok (
      auth_event_id,
      record db {
        auth_events =
            db.auth_events
            ++ record {
              auth_event_id = auth_event_id;
              subject_pseudonym = input.subject_pseudonym;
              method = input.method;
              occurred_at = db.now;
              max_age_seconds = input.max_age_seconds;
            }
              ∷ [];
      },
    )

unfoldable pub is_auth_event_fresh : Db → String → Date → Bool
is_auth_event_fresh db auth_event_id now =
    elim (find (λ (e : AuthEvent). e.auth_event_id == auth_event_id) db.auth_events) [
      | none ↦ false
      | some e ↦ ltb now (e.occurred_at + e.max_age_seconds * 1000)
    ]

-- What `generateKeyPair` answers.
pub record RawKeyPair : Type 0 where
  pub public_key : Bytes
  pub private_key : Bytes

abbrev pub retire_active : Db → String → Db
retire_active db purpose = record db {
  keys = update_where (is_active_for purpose) (λ k. record k { state = KeyState.retired }) db.keys;
}

abbrev pub is_key_taken : VerificationKey → VerificationKey → Bool
is_key_taken row k = k.kid == row.kid || is_active row.state && is_active_for row.purpose k

unfoldable pub insert_key_row : Db → VerificationKey → Result Db
insert_key_row db row =
    if not (nat_eq (length row.public_key) 32)
    then err (check_violation "signing_keys")
    else if any (is_key_taken row) db.keys
    then err (unique_violation "signing_keys")
    else ok (record db { keys = db.keys ++ row ∷ [] })

-- The key that was retired, and the store; `kid` and `pair` are fresh.
unfoldable pub rotate_signing_key : String → RawKeyPair → String → Db → Result (Option String × Db)
unfolding insert_key_row
rotate_signing_key kid pair purpose db = do
  let retired : Option String = elim (find_active_key db purpose) [
    | none ↦ none
    | some k ↦ some k.kid
  ]
  db' ← insert_key_row (retire_active db purpose) (record {
    kid = kid;
    purpose = purpose;
    state = KeyState.active;
    public_key = pair.public_key;
    private_key = some pair.private_key;
  })
  ok (retired, db')
